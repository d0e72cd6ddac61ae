-- ===== src/Signal/Evolves.antt =====
-- What a description may change of a signal, whether it is accepted, refused or ends in an
-- exception: shown for each step, and joined.
use streaming_protocol_lt.Base.{
  ◌<◌, ◌≡◌, refl, String, true, List, [], ◌∷◌, Option, none, some, arith, Option-cases, inl, inr,
  ◌∙◌,
}
use streaming_protocol_lt.Base.Int.{ℤ}
use streaming_protocol_lt.Base.Result.{
  Result, ok, fails, throws, aborts, Method, ◌>>◌, write, if_found, then_run,
}
use streaming_protocol_lt.Real.{Real}
use streaming_protocol_lt.Json.{Json}
use streaming_protocol_lt.Types.{Resolution, parse_resolution}
use streaming_protocol_lt.Types.Checks.{IsPositive, parse_resolution-IsPositive}
use streaming_protocol_lt.Signal.{SubscribedSignal}
use streaming_protocol_lt.Signal.TypeName.{
  set_data_type, set_named_type, set_bitfield, scalar_type, complex_type,
}
use streaming_protocol_lt.Signal.Definition.{
  set_linear_delta, set_constant_start, set_rule, set_value_size, set_member_name, set_unit,
  set_resolution, set_frequency, set_reference, set_range, set_post_scaling, set_related,
  add_related, process_definition, try_definition, add_item,
}

-- From s to t: the number, the table, the value index and the times stay; a time signal stays one;
-- a value size and a resolution that are not 0 stay so.
pub record Evolves {J R : Type 0} (s t : SubscribedSignal J R) : Type 0 where
  pub number : t.signal_number ≡ s.signal_number
  pub table : t.table_id ≡ s.table_id
  pub value_index : t.linear_value_index ≡ s.linear_value_index
  pub time : t.time ≡ s.time
  pub time_signal : s.is_time_signal ≡ true → t.is_time_signal ≡ true
  pub value_size : 0 < s.data_value_size → 0 < t.data_value_size
  pub resolution : IsPositive s.resolution → IsPositive t.resolution

module _ {J R : Type 0} where
  -- Whatever its result, the method takes a signal along `Evolves`.
  abbrev pub Evolving : {A : Type 0} → Method (SubscribedSignal J R) A → Type 0
  Evolving m = (s : SubscribedSignal J R) → Evolves s (m s).1

  Evolves-refl : (s : (SubscribedSignal J R)) → Evolves s s
  Evolves-refl s = ground arith

  Evolves-trans : (s t u : (SubscribedSignal J R)) → Evolves s t → Evolves t u → Evolves s u
  Evolves-trans s t u p q = record {
    number = q.number ∙ p.number;
    table = q.table ∙ p.table;
    value_index = q.value_index ∙ p.value_index;
    time = q.time ∙ p.time;
    time_signal = λ h. q.time_signal (p.time_signal h);
    value_size = λ h. q.value_size (p.value_size h);
    resolution = λ h. q.resolution (p.resolution h);
  }

  then_run-Evolves :
      {A B : Type 0} (s : (SubscribedSignal J R)) (r : Result A × (SubscribedSignal J R))
      (f : A → Method (SubscribedSignal J R) B)
      → Evolves s r.1
      → ((a : A) → Evolving (f a))
      → Evolves s (then_run r f).1
  then_run-Evolves s (ok a, t) f p q = Evolves-trans s t (f a t).1 p (q a t)
  then_run-Evolves s (fails, t) f p q = p
  then_run-Evolves s (throws e, t) f p q = p
  then_run-Evolves s (aborts, t) f p q = p

  seq-Evolving :
      (m k : Method (SubscribedSignal J R) (Unit {0})) → Evolving m → Evolving k → Evolving (m >> k)
  seq-Evolving m k p q s = then_run-Evolves s (m s) (λ _. k) (p s) (λ _. q)

  pub found-Evolving :
      {K : Type 0} (o : Option K) (f : K → Method (SubscribedSignal J R) (Unit {0}))
      → ((v : K) → Evolving (f v))
      → Evolving (if_found o f)
  found-Evolving none f p s = Evolves-refl s
  found-Evolving (some v) f p s = p v s

  write-Evolving :
      {A : Type 0} (r : Result A) (f : A → (SubscribedSignal J R) → (SubscribedSignal J R))
      → ((a : A) (s : (SubscribedSignal J R)) → Evolves s (f a s))
      → Evolving (write r f)
  write-Evolving (ok a) f p s = p a s
  write-Evolving fails f p s = Evolves-refl s
  write-Evolving (throws e) f p s = Evolves-refl s
  write-Evolving aborts f p s = Evolves-refl s

module _ {J R : Type 0} (json : Json J R) (real : Real R) where
  set_linear_delta-Evolving : (node : J) → Evolving (set_linear_delta json real node)
  unfolding set_linear_delta
  set_linear_delta-Evolving node s = ground arith

  set_constant_start-Evolving : (node : J) → Evolving (set_constant_start json real node)
  unfolding set_constant_start
  set_constant_start-Evolving node s = ground arith

  set_rule-Evolving : (node : J) → Evolving (set_rule json real node)
  unfolding set_rule
  set_rule-Evolving node s = ground arith

  set_value_size-Evolving : (node : J) → Evolving (set_value_size json real node)
  unfolding set_value_size
  set_value_size-Evolving node s = ground arith

  set_member_name-Evolving : (node : J) → Evolving (set_member_name json real node)
  unfolding set_member_name
  set_member_name-Evolving node s = ground arith

  set_bitfield-Evolving : (node : J) → Evolving (set_bitfield json real node)
  unfolding set_bitfield
  set_bitfield-Evolving node s = ground arith

  set_unit-Evolving : (node : J) → Evolving (set_unit json real node)
  unfolding set_unit
  set_unit-Evolving node s = ground arith

  set_frequency-Evolves :
      (result : ℤ) (r : Resolution) (s : SubscribedSignal J R)
      → (IsPositive s.resolution → IsPositive r)
      → Evolves s (set_frequency json real (result, r) s).1
  unfolding set_frequency
  set_frequency-Evolves result r s h = ground arith

  parsed_resolution-Evolves :
      (node : J) (s : SubscribedSignal J R) (parsed : Result (ℤ × Resolution))
      → parse_resolution json real node s.resolution ≡ parsed
      → Evolves s (then_run (parsed, s) (set_frequency json real)).1
  parsed_resolution-Evolves node s (ok (result, r)) e =
      set_frequency-Evolves result r s
        (λ p. (parse_resolution-IsPositive json real node s.resolution r result p e).0)
  parsed_resolution-Evolves node s fails e = Evolves-refl s
  parsed_resolution-Evolves node s (throws x) e = Evolves-refl s
  parsed_resolution-Evolves node s aborts e = Evolves-refl s

  set_resolution-Evolving : (node : J) → Evolving (set_resolution json real node)
  unfolding set_resolution
  set_resolution-Evolving node s = parsed_resolution-Evolves node s _ refl

  set_reference-Evolving : (node : J) → Evolving (set_reference json real node)
  unfolding set_reference
  set_reference-Evolving node s = ground arith

  set_range-Evolving : (node : J) → Evolving (set_range json real node)
  unfolding set_range
  set_range-Evolving node s = ground arith

  set_post_scaling-Evolving : (node : J) → Evolving (set_post_scaling json real node)
  unfolding set_post_scaling
  set_post_scaling-Evolving node s = ground arith

  set_named_type-Evolving :
      (node : J) (name : String) → Evolving (set_named_type json real node name)
  unfolding set_named_type
  set_named_type-Evolving node name s = elim (Option-cases (scalar_type name)) [
    | inr (type, e) ↦ rw (e, set_named_type) (ground arith)
    | inl e ↦
        rw (e, set_named_type)
          (elim (Option-cases (complex_type name)) [
            | inr (type, e') ↦ ground (arith, set_bitfield-Evolving node s)
            | inl e' ↦ ground (arith, set_bitfield-Evolving node s)
          ])
  ]

  set_data_type-Evolving : (node : J) → Evolving (set_data_type json real node)
  unfolding set_data_type
  set_data_type-Evolving node = found-Evolving (json.find node "dataType") _ λ v s.
      then_run-Evolves s (json.get_text v, s) _ (Evolves-refl s) (set_named_type-Evolving node)

  add_item-Evolving : (item : J) → Evolving (add_item json real item)
  unfolding add_item
  add_item-Evolving item s = ground arith

  add_related-Evolving : (items : List J) → Evolving (add_related json real items)
  unfolding add_related
  add_related-Evolving [] s = Evolves-refl s
  add_related-Evolving (item ∷ rest) s =
      seq-Evolving (add_item json real item) (add_related json real rest) (add_item-Evolving item)
        (add_related-Evolving rest) s

  set_related-Evolving : (params : J) → Evolving (set_related json real params)
  unfolding set_related
  set_related-Evolving params = found-Evolving (json.find params "relatedSignals") _ λ v s.
      ground (arith, add_related-Evolving (json.elements v) (record s { related_signals = [] }))

  -- A definition takes the signal along `Evolves`, accepted or not.
  pub process_definition-Evolving :
      (params node : J) → Evolving (process_definition json real params node)
  unfolding process_definition
  process_definition-Evolving params node =
      search
        (
          seq-Evolving, set_linear_delta-Evolving, set_constant_start-Evolving, set_rule-Evolving,
          set_value_size-Evolving, set_member_name-Evolving, set_data_type-Evolving,
          set_unit-Evolving, set_resolution-Evolving, set_reference-Evolving, set_range-Evolving,
          set_post_scaling-Evolving, set_related-Evolving,
        )
        depth 30

  pub try_definition-Evolving : (params node : J) → Evolving (try_definition json real params node)
  unfolding try_definition
  try_definition-Evolving params node s = process_definition-Evolving params node s
