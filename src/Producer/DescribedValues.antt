-- ===== src/Producer/DescribedValues.antt =====
-- What a consumer's signal knows after the description that a synchronous signal writes.
use streaming_protocol_lt.Base.{
  ℕ, ◌<◌, ◌^◌, ◌≡◌, refl, ap, ◌∙◌, false, [], ◌∷◌, none, Bool-cases, inl, inr, if◌then◌else◌, ◌==◌,
}
use streaming_protocol_lt.Base.Result.{ok}
use streaming_protocol_lt.Base.Int.{int_eqb}
use streaming_protocol_lt.Real.{Real}
use streaming_protocol_lt.Json.{Json}
use streaming_protocol_lt.Json.Object.{lookup, put}
use streaming_protocol_lt.Types.{
  Range, PostScaling, SignalUnit, explicit, no_unit, unit_id_none, unlimited, one_to_one,
  is_one_to_one,
}
use streaming_protocol_lt.Signal.{SubscribedSignal}
use streaming_protocol_lt.Signal.TypeName.{set_data_type}
use streaming_protocol_lt.Signal.Definition.{
  process_definition, set_linear_delta, set_constant_start, set_rule, set_rule_named,
  set_value_size, set_member_name, set_unit, set_resolution, set_frequency, set_reference,
  set_range, set_post_scaling, set_related, process_signal_metainformation, set_table,
  text_or_number, try_definition,
}
use streaming_protocol_lt.Producer.Samples.{ValueType, data_type_name, sample_type, size_of_type}
use streaming_protocol_lt.Producer.{
  BaseValueSignal, interpreted, write_subscribe, write_synchronous, compose_related_signals,
}
use streaming_protocol_lt.Producer.Received.{
  receive, signal_message, receive-write_subscribe, receive-signal_message,
}
use streaming_protocol_lt.Producer.Member.{
  node, parse_unit-node, parse_range-node, parse_post_scaling-node, find-linear, find-constant,
  find-rule, find-name, find-data_type, find-absolute_reference, find-resolution,
  data_type_size-node, eqb-size_of_type, parse_resolution-node, set_named_type-node,
}

module _ {J R : Type 0} (json : Json J R) (real : Real R) where
  open json use {
    object, from_text, from_nat, find, find-object, get_text-text, is_object, is_object-object,
  }

  module _ (s : BaseValueSignal J R) (type : ValueType) where
    -- The unit, the range and the scaling as they are read back.
    abbrev unit_back : SignalUnit
    unit_back = if int_eqb s.unit.id unit_id_none then no_unit else s.unit

    abbrev range_back : Range R
    range_back = record {
      low = if real.eq s.range.low real.lowest then real.lowest else s.range.low;
      high = if real.eq s.range.high real.max then real.max else s.range.high;
    }

    abbrev post_scaling_back : PostScaling R
    post_scaling_back =
        if is_one_to_one json real s.post_scaling then one_to_one json real else s.post_scaling

    abbrev fresh : SubscribedSignal J R → SubscribedSignal J R
    fresh t = record t {
      unit = no_unit;
      range = unlimited json real;
      post_scaling = one_to_one json real;
    }

    abbrev described : SubscribedSignal J R → SubscribedSignal J R
    described t = record t {
      rule_type = explicit;
      data_value_size = size_of_type type;
      member_name = s.value_name;
      data_value_type = sample_type type;
      unit = unit_back;
      range = range_back;
      post_scaling = post_scaling_back;
    }

    definition :
        (params : J) (t : SubscribedSignal J R)
        → find params "relatedSignals" ≡ none
        → unit_back.quantity == "time" ≡ false
        → process_definition json real params (node json real s type) (fresh t)
          ≡ (ok tt, described t)
    unfolding process_definition set_linear_delta set_constant_start set_rule set_rule_named
        set_value_size set_member_name set_data_type set_unit set_resolution set_frequency
        set_reference set_range set_post_scaling set_related
    definition params t related q = simp (
      get_text-text,
      related,
      (find-linear json real s type),
      (find-constant json real s type),
      (find-rule json real s type),
      (find-name json real s type),
      (find-data_type json real s type),
      (find-absolute_reference json real s type),
      (find-resolution json real s type),
      (parse_unit-node json real s type),
      (parse_resolution-node json real s type),
      (parse_range-node json real s type),
      (parse_post_scaling-node json real s type),
      (data_type_size-node json real s type),
      (eqb-size_of_type json real s type),
      (set_named_type-node json real s type),
      q,
    )

    -- The params of the description.
    abbrev description : ℕ → J
    description value_index = object (
        put "valueIndex" (from_nat value_index) (
          put "definition" (node json real s type)
            (interpreted json real s.base (("tableId", from_text s.base.table_id) ∷ []))))

    no_related : (i : ℕ) → find (description i) "relatedSignals" ≡ none
    unfolding lookup put
    no_related i = elim (Bool-cases (json.is_null s.base.interpretation_object)) [
      | inl e ↦ rw (description, e) (find-object _ "relatedSignals")
      | inr e ↦ rw (description, e) (find-object _ "relatedSignals")
    ]

    -- What stands beside the definition.
    abbrev placed : ℕ → SubscribedSignal J R → SubscribedSignal J R
    placed i t = record t {
      table_id = s.base.table_id;
      linear_value_index = i;
      interpretation_object =
          if json.is_null s.base.interpretation_object
          then t.interpretation_object
          else s.base.interpretation_object;
    }

    described-signal :
        (i : ℕ) (t : SubscribedSignal J R)
        → i < 2 ^ 64
        → unit_back.quantity == "time" ≡ false
        → process_signal_metainformation json real "signal" (description i) (fresh t)
          ≡ (ok tt, described (placed i t))
    unfolding process_signal_metainformation set_table text_or_number lookup put try_definition
    described-signal i t h q = elim (Bool-cases (json.is_null s.base.interpretation_object)) [
      | inl e ↦
          simp
            (
              e,
              find-object,
              get_text-text,
              json.is_string-text,
              json.get_nat-nat 64 i h,
              definition (description i)
                  (record t { table_id = s.base.table_id; linear_value_index = i }) (no_related i)
                  q,
            )
            refl
      | inr e ↦
          simp
            (
              e,
              find-object,
              get_text-text,
              json.is_string-text,
              json.get_nat-nat 64 i h,
              definition (description i)
                  (record t {
                    table_id = s.base.table_id;
                    linear_value_index = i;
                    interpretation_object = s.base.interpretation_object;
                  })
                  (no_related i) q,
            )
            refl
    ]

    written_description :
        (i : ℕ)
        → s.related_signals ≡ []
        → write_synchronous json real s (data_type_name type) i
          ≡ (s.base.signal_number, signal_message json real (description i)) ∷ []
    unfolding write_synchronous compose_related_signals node
    written_description i r = rw r refl

    -- A new consumer's signal that gets what a synchronous signal writes on its subscription takes
    -- over its id, table, name and value index, and the explicit rule, and has the producer's sample
    -- type and size, its unit, range and scaling, each the default where it equals the default, if
    -- there are no related signals, the value index fits 64 bits, and the unit is not that of a time.
    pub receive-write_synchronous :
        (i : ℕ) (t : SubscribedSignal J R)
        → s.related_signals ≡ []
        → i < 2 ^ 64
        → unit_back.quantity == "time" ≡ false
        → receive json real
            (write_subscribe json s.base (write_synchronous json real s (data_type_name type) i))
            (fresh t)
          ≡ (ok tt, described (placed i (record t { signal_id = s.base.signal_id })))
    receive-write_synchronous i t r h q =
        ap (λ w. receive json real (write_subscribe json s.base w) (fresh t))
          (written_description i r)
        ∙ receive-write_subscribe json real s.base
            ((s.base.signal_number, signal_message json real (description i)) ∷ []) (fresh t)
        ∙ receive-signal_message json real s.base.signal_number (description i)
            (fresh (record t { signal_id = s.base.signal_id })) _
            (described-signal i (record t { signal_id = s.base.signal_id }) h q)
