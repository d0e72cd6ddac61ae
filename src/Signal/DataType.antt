-- ===== src/Signal/DataType.antt =====
-- `getDataTypeSize` of lib/SubscribedSignal.cpp: the bytes that one value takes, from its
-- description. `size_t` wraps at 64 bits.
use streaming_protocol_lt.Base.{
  ℕ, zero, suc, ◌+◌, ◌*◌, String, List, [], ◌∷◌, Option, none, some, ◌==◌, if◌then◌else◌,
}
use streaming_protocol_lt.Base.Int.{pos, int_eqb, to_size}
use streaming_protocol_lt.Base.Result.{Result, ok, aborts, ◌>>=◌}
use streaming_protocol_lt.Base.Words.{wrap64}
use streaming_protocol_lt.Json.{Json, index, value_text, value_int}

unfoldable pub scalar_size : String → Option ℕ
scalar_size name =
    if name == "uint8"
    then some 1
    else if name == "uint16"
    then some 2
    else if name == "uint32"
    then some 4
    else if name == "uint64"
    then some 8
    else if name == "int8"
    then some 1
    else if name == "int16"
    then some 2
    else if name == "int32"
    then some 4
    else if name == "int64"
    then some 8
    else if name == "real32"
    then some 4
    else if name == "real64"
    then some 8
    else if name == "complex32"
    then some 8
    else if name == "complex64"
    then some 16
    else none

module _ {J R : Type 0} (json : Json J R) where
  open json use {find, is_array, is_object, elements, get_text, get_nat, index_or_insert}

  -- `none`: the function returns 0.
  unfoldable pub linear_count : J → Result (Option ℕ)
  linear_count node = value_int json node "start" (pos 0) >>= λ start.
      if int_eqb start (pos 1)
      then (value_int json node "delta" (pos 0) >>= λ delta.
          if int_eqb delta (pos 0)
          then (value_int json node "size" (pos 1) >>= λ size. ok (some (to_size size)))
          else ok none)
      else ok none

  linear_dimension : Option J → Result (Option ℕ)
  unfolding linear_count
  linear_dimension none = ok none
  linear_dimension (some node) = if is_object node then linear_count node else ok none

  one_dimension : List J → Result (Option ℕ)
  unfolding linear_dimension
  one_dimension (node ∷ []) =
      if is_object node
      then (value_text json node "rule" "" >>= λ rule.
          if rule == "linear" then linear_dimension (find node "linear") else ok none)
      else ok none
  one_dimension _ = ok none

  dimensions : Option J → Result (Option ℕ)
  unfolding one_dimension
  dimensions none = ok (some 1)
  dimensions (some node) = if is_array node then one_dimension (elements node) else ok none

  -- How many primitives a one-dimensional array has; 1 where no dimensions are given.
  unfoldable pub dimension_count : J → Result (Option ℕ)
  unfolding dimensions
  dimension_count node = value_text json node "name" "" >>= λ _. dimensions (find node "dimensions")

  module _ (size_of : J → Result ℕ) where
    unfoldable pub struct_size : ℕ → ℕ → List J → Result ℕ
    struct_size count sum [] = ok sum
    struct_size count sum (node ∷ rest) =
        size_of node >>= λ n. struct_size count (wrap64 (sum + wrap64 (n * count))) rest

    -- A count that is missing is made null, and the conversion of null throws.
    unfoldable pub composite_size : String → J → ℕ → Result ℕ
    unfolding struct_size
    composite_size name node count =
        if name == "bitField"
        then (index json node "bitField" >>= λ sub. size_of sub >>= λ n. ok (wrap64 (n * count)))
        else if name == "array"
        then (index json node "array" >>= λ sub. index_or_insert sub "count" >>= λ v.
            get_nat 64 v.0 >>= λ array_count.
            size_of sub >>= λ n. ok (wrap64 (wrap64 (n * count) * array_count)))
        else if name == "struct"
        then (index json node "struct" >>= λ sub. struct_size count 0 (elements sub))
        else ok 0

    unfoldable pub named_size : String → J → ℕ → Result ℕ
    unfolding composite_size scalar_size
    named_size name node count = elim (scalar_size name) [
      | some n ↦ ok (wrap64 (n * count))
      | none ↦ composite_size name node count
    ]

    unfoldable pub typed_size : Option J → J → Option ℕ → Result ℕ
    unfolding named_size
    typed_size _ node none = ok 0
    typed_size none node (some count) = ok 0
    typed_size (some type) node (some count) = get_text type >>= λ name. named_size name node count

  -- The recursion goes down the description; with more fuel than its depth the result does not
  -- depend on the fuel.
  unfoldable pub data_type_size : ℕ → J → Result ℕ
  unfolding dimension_count typed_size
  data_type_size zero node = aborts
  data_type_size (suc fuel) node =
      let sub_size = data_type_size fuel in
      dimension_count node >>= λ count. typed_size sub_size (find node "dataType") node count
