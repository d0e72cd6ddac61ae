-- ===== src/Producer/Member.antt =====
-- What the consumer reads from the definition of a synchronous signal, member by member.
use streaming_protocol_lt.Base.{
  ℕ, suc, String, ◌≡◌, refl, ◌∙◌, sym, true, false, [], ◌∷◌, none, some, eqb, if◌then◌else◌, ◌==◌,
}
use streaming_protocol_lt.Base.Result.{Result, ok}
use streaming_protocol_lt.Base.Int.{pos, int_eqb}
use streaming_protocol_lt.Real.{Real}
use streaming_protocol_lt.Json.{Json}
use streaming_protocol_lt.Json.Object.{Members, lookup}
use streaming_protocol_lt.Types.{
  Resolution, no_unit, unit_id_none, unlimited, one_to_one, is_one_to_one, compose_unit,
  compose_range, parse_unit, parse_resolution, parse_range, parse_post_scaling,
}
use streaming_protocol_lt.Types.RoundTrip.{
  parse_unit-compose_unit, parse_range-compose_range, parse_post_scaling-compose_post_scaling,
}
use streaming_protocol_lt.Signal.{SubscribedSignal}
use streaming_protocol_lt.Signal.DataType.{
  data_type_size, typed_size, dimension_count, named_size, scalar_size,
}
use streaming_protocol_lt.Signal.TypeName.{
  scalar_type, complex_type, set_composite_type, set_named_type,
}
use streaming_protocol_lt.Producer.Samples.{
  ValueType, int8, uint8, int16, uint16, int32, uint32, int64, uint64, float, double,
  complex32_type, complex64_type, data_type_name, sample_type, size_of_type,
}
use streaming_protocol_lt.Producer.{BaseValueSignal, synchronous_member}
use streaming_protocol_lt.Producer.Composed.{
  lookup-composed, lookup-compose_unit, lookup-compose_range, lookup-compose_post_scaling,
}

module _ {J R : Type 0} (json : Json J R) (real : Real R) where
  open json use {
    object, from_text, from_nat, find, find-object, get_text-text, is_object, is_object-object,
  }

  module _ (s : BaseValueSignal J R) (type : ValueType) where
    base_members : Members J
    base_members =
        ("name", from_text s.value_name)
        ∷ ("dataType", from_text (data_type_name type))
        ∷ ("rule", from_text "explicit")
        ∷ []

    unfoldable pub node : J
    node = object (synchronous_member json real s (data_type_name type))

    find-node :
        (k : String)
        → "unit" == k ≡ false
        → "range" == k ≡ false
        → "postScaling" == k ≡ false
        → find node k ≡ lookup k base_members
    unfolding node synchronous_member base_members
    find-node k h i j =
        find-object _ k ∙ lookup-composed json real k s.unit s.range s.post_scaling _ h i j

    find-unit : find node "unit" ≡ find (object (compose_unit json real s.unit base_members)) "unit"
    unfolding node synchronous_member base_members
    find-unit =
        find-object _ "unit"
        ∙ lookup-compose_post_scaling json real "unit" s.post_scaling _ refl
        ∙ lookup-compose_range json real "unit" s.range _ refl
        ∙ sym (find-object _ "unit")

    find-range :
        find node "range"
        ≡ find
            (object (compose_range json real s.range (compose_unit json real s.unit base_members)))
            "range"
    unfolding node synchronous_member base_members
    find-range =
        find-object _ "range"
        ∙ lookup-compose_post_scaling json real "range" s.post_scaling _ refl
        ∙ sym (find-object _ "range")

    pub parse_unit-node :
        parse_unit json real node no_unit
        ≡ (ok tt, if int_eqb s.unit.id unit_id_none then no_unit else s.unit)
    unfolding parse_unit base_members lookup
    parse_unit-node = rw find-unit (parse_unit-compose_unit json real s.unit base_members refl)

    pub parse_range-node : parse_range json real node (unlimited json real) ≡ (
      ok tt,
      record {
        low = if real.eq s.range.low real.lowest then real.lowest else s.range.low;
        high = if real.eq s.range.high real.max then real.max else s.range.high;
      },
    )
    unfolding parse_range base_members lookup
    parse_range-node = rw find-range (
        parse_range-compose_range json real s.range _
          (lookup-compose_unit json real "range" s.unit base_members refl))

    pub parse_post_scaling-node : parse_post_scaling json real node (one_to_one json real) ≡ (
      ok tt,
      if is_one_to_one json real s.post_scaling then one_to_one json real else s.post_scaling,
    )
    unfolding node synchronous_member base_members lookup
    parse_post_scaling-node = parse_post_scaling-compose_post_scaling json real s.post_scaling _ (
        lookup-compose_range json real "postScaling" s.range _ refl
        ∙ lookup-compose_unit json real "postScaling" s.unit _ refl)

    is_object-node : is_object node ≡ true
    unfolding node
    is_object-node = is_object-object _

    pub find-linear : find node "linear" ≡ none
    unfolding base_members lookup
    find-linear = find-node "linear" refl refl refl

    pub find-constant : find node "constant" ≡ none
    unfolding base_members lookup
    find-constant = find-node "constant" refl refl refl

    pub find-rule : find node "rule" ≡ some (from_text "explicit")
    unfolding base_members lookup
    find-rule = find-node "rule" refl refl refl

    pub find-name : find node "name" ≡ some (from_text s.value_name)
    unfolding base_members lookup
    find-name = find-node "name" refl refl refl

    pub find-data_type : find node "dataType" ≡ some (from_text (data_type_name type))
    unfolding base_members lookup
    find-data_type = find-node "dataType" refl refl refl

    find-dimensions : find node "dimensions" ≡ none
    unfolding base_members lookup
    find-dimensions = find-node "dimensions" refl refl refl

    pub find-absolute_reference : find node "absoluteReference" ≡ none
    unfolding base_members lookup
    find-absolute_reference = find-node "absoluteReference" refl refl refl

    pub find-resolution : find node "resolution" ≡ none
    unfolding base_members lookup
    find-resolution = find-node "resolution" refl refl refl

    named_size-node :
        (f : J → Result ℕ) → named_size json f (data_type_name type) node 1 ≡ ok (size_of_type type)
    unfolding named_size scalar_size data_type_name size_of_type
    named_size-node f =
        elim type as (λ y. named_size json f (data_type_name y) node 1 ≡ ok (size_of_type y)) [
          | int8 ↦ refl
          | uint8 ↦ refl
          | int16 ↦ refl
          | uint16 ↦ refl
          | int32 ↦ refl
          | uint32 ↦ refl
          | int64 ↦ refl
          | uint64 ↦ refl
          | float ↦ refl
          | double ↦ refl
          | complex32_type ↦ refl
          | complex64_type ↦ refl
        ]

    pub data_type_size-node : (k : ℕ) → data_type_size json (suc k) node ≡ ok (size_of_type type)
    unfolding data_type_size typed_size named_size dimension_count
    data_type_size-node k =
        simp (is_object-node, find-name, find-data_type, find-dimensions, get_text-text)
          (named_size-node _)

    pub eqb-size_of_type : eqb (size_of_type type) 0 ≡ false
    unfolding size_of_type
    eqb-size_of_type = elim type as (λ t. eqb (size_of_type t) 0 ≡ false) [
      | int8 ↦ refl
      | uint8 ↦ refl
      | int16 ↦ refl
      | uint16 ↦ refl
      | int32 ↦ refl
      | uint32 ↦ refl
      | int64 ↦ refl
      | uint64 ↦ refl
      | float ↦ refl
      | double ↦ refl
      | complex32_type ↦ refl
      | complex64_type ↦ refl
    ]

    pub parse_resolution-node : (r : Resolution) → parse_resolution json real node r ≡ ok (pos 0, r)
    unfolding parse_resolution
    parse_resolution-node r = simp (find-resolution)

    pub set_named_type-node :
        (t : SubscribedSignal J R)
        → set_named_type json real node (data_type_name type) t
          ≡ (ok tt, record t { data_value_type = sample_type type })
    unfolding set_named_type set_composite_type scalar_type complex_type data_type_name sample_type
    set_named_type-node t =
        elim type
          as (λ y.
            set_named_type json real node (data_type_name y) t
            ≡ (ok tt, record t { data_value_type = sample_type y })) [
              | int8 ↦ refl
              | uint8 ↦ refl
              | int16 ↦ refl
              | uint16 ↦ refl
              | int32 ↦ refl
              | uint32 ↦ refl
              | int64 ↦ refl
              | uint64 ↦ refl
              | float ↦ refl
              | double ↦ refl
              | complex32_type ↦ refl
              | complex64_type ↦ refl
            ]
