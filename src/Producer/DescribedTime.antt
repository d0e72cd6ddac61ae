-- ===== src/Producer/DescribedTime.antt =====
-- What a consumer's signal knows after the description that a producer's signal writes.
use streaming_protocol_lt.Base.{
  ℕ, suc, ◌<◌, ◌^◌, ◌/◌, ◌≡◌, refl, ◌∙◌, true, false, [], ◌∷◌, none, some, eqb, Bool-cases, inl,
  inr, if◌then◌else◌,
}
use streaming_protocol_lt.Base.Result.{ok}
use streaming_protocol_lt.Base.Int.{pos}
use streaming_protocol_lt.Real.{Real}
use streaming_protocol_lt.Json.{Json}
use streaming_protocol_lt.Json.Object.{lookup, put}
use streaming_protocol_lt.Types.{
  Resolution, SignalUnit, unit_id_seconds, u64, linear, compose_resolution, compose_unit,
  parse_unit, parse_resolution, parse_range, parse_post_scaling,
}
use streaming_protocol_lt.Producer.Composed.{lookup-compose_unit}
use streaming_protocol_lt.Types.RoundTrip.{parse_resolution-compose_resolution}
use streaming_protocol_lt.Meta.{params}
use streaming_protocol_lt.Signal.{SubscribedSignal}
use streaming_protocol_lt.Signal.DataType.{
  data_type_size, typed_size, dimension_count, named_size, scalar_size,
}
use streaming_protocol_lt.Signal.TypeName.{scalar_type, set_data_type, set_named_type}
use streaming_protocol_lt.Signal.Definition.{
  process_definition, process_signal_metainformation, set_linear_delta, set_constant_start,
  set_rule, set_rule_named, set_value_size, set_member_name, set_unit, set_resolution,
  set_frequency, set_reference, set_range, set_post_scaling, set_related, text_or_number,
  try_definition, set_table,
}
use streaming_protocol_lt.Producer.Received.{
  receive, receive-write_subscribe, receive-signal_message,
}
use streaming_protocol_lt.Producer.{
  interpreted, LinearTimeSignal, linear_member, write_subscribe, write_linear_time,
}

abbrev seconds : SignalUnit
seconds = record { id = unit_id_seconds; display_name = "s"; quantity = "time" }

module _ {J R : Type 0} (json : Json J R) (real : Real R) where
  open json use {
    find, is_object-object, object, from_text, from_nat, find-object, get_text-text, get_nat-nat,
    get_int-int, is_number-nat,
  }

  module _ (s : LinearTimeSignal J) (unit : s.domain.unit_second ≡ seconds) where
    node : J
    node = object (linear_member json real s)

    abbrev described : SubscribedSignal J R → SubscribedSignal J R
    described t = record t {
      linear_delta = s.output_rate_in_ticks;
      linear_delta_json = from_nat s.output_rate_in_ticks;
      rule_type = linear;
      data_value_size = 8;
      member_name = "time";
      data_value_type = u64;
      unit = seconds;
      is_time_signal = true;
      resolution = s.domain.resolution;
      time_base_frequency = s.domain.resolution.denominator / s.domain.resolution.numerator;
      time_base_epoch = s.domain.epoch;
    }

    find-linear :
        find node "linear" ≡ some (object (("delta", from_nat s.output_rate_in_ticks) ∷ []))
    unfolding node linear_member lookup compose_resolution compose_unit put
    find-linear = rw unit (find-object _ "linear")

    find-constant : find node "constant" ≡ none
    unfolding node linear_member lookup compose_resolution compose_unit put
    find-constant = rw unit (find-object _ "constant")

    find-rule : find node "rule" ≡ some (from_text "linear")
    unfolding node linear_member lookup compose_resolution compose_unit put
    find-rule = rw unit (find-object _ "rule")

    find-name : find node "name" ≡ some (from_text "time")
    unfolding node linear_member lookup compose_resolution compose_unit put
    find-name = rw unit (find-object _ "name")

    find-data_type : find node "dataType" ≡ some (from_text "uint64")
    unfolding node linear_member lookup compose_resolution compose_unit put
    find-data_type = rw unit (find-object _ "dataType")

    find-dimensions : find node "dimensions" ≡ none
    unfolding node linear_member lookup compose_resolution compose_unit put
    find-dimensions = rw unit (find-object _ "dimensions")

    find-absolute_reference : find node "absoluteReference" ≡ some (from_text s.domain.epoch)
    unfolding node linear_member lookup compose_resolution compose_unit put
    find-absolute_reference = rw unit (find-object _ "absoluteReference")

    find-range : find node "range" ≡ none
    unfolding node linear_member lookup compose_resolution compose_unit put
    find-range = rw unit (find-object _ "range")

    find-post_scaling : find node "postScaling" ≡ none
    unfolding node linear_member lookup compose_resolution compose_unit put
    find-post_scaling = rw unit (find-object _ "postScaling")

    parse_unit-node : (u : SignalUnit) → parse_unit json real node u ≡ (ok tt, seconds)
    unfolding node linear_member lookup compose_resolution compose_unit put parse_unit
    parse_unit-node u = rw unit (simp (find-object, get_text-text, get_int-int))

    parse_resolution-node :
        (old : Resolution)
        → (0 < s.domain.resolution.numerator) × (s.domain.resolution.numerator < 2 ^ 64)
        → (0 < s.domain.resolution.denominator) × (s.domain.resolution.denominator < 2 ^ 64)
        → parse_resolution json real node old ≡ ok (pos 1, s.domain.resolution)
    unfolding node linear_member lookup
    parse_resolution-node old n d =
        parse_resolution-compose_resolution json real s.domain.resolution old _
          (lookup-compose_unit json real "resolution" s.domain.unit_second _ refl) n d

    data_type_size-node : (k : ℕ) → data_type_size json (suc k) node ≡ ok 8
    unfolding data_type_size typed_size named_size dimension_count scalar_size node
    data_type_size-node k =
        simp (is_object-object, find-name, find-data_type, find-dimensions, get_text-text)

    definition :
        (params : J) (t : SubscribedSignal J R)
        → json.find params "relatedSignals" ≡ none
        → eqb s.output_rate_in_ticks 0 ≡ false
        → s.output_rate_in_ticks < 2 ^ 64
        → (0 < s.domain.resolution.numerator) × (s.domain.resolution.numerator < 2 ^ 64)
        → (0 < s.domain.resolution.denominator) × (s.domain.resolution.denominator < 2 ^ 64)
        → process_definition json real params node t ≡ (ok tt, described t)
    unfolding process_definition set_linear_delta set_constant_start set_rule set_rule_named
        set_value_size set_member_name set_data_type set_named_type set_unit set_resolution
        set_frequency set_reference set_range set_post_scaling set_related scalar_type parse_range
        parse_post_scaling lookup
    definition params t related rate h n d = simp (
      find-object,
      is_number-nat,
      get_nat-nat 64 s.output_rate_in_ticks h,
      get_text-text,
      related,
      rate,
      find-linear,
      find-constant,
      find-rule,
      find-name,
      find-data_type,
      find-absolute_reference,
      find-range,
      find-post_scaling,
      parse_unit-node,
      parse_resolution-node t.resolution n d,
      data_type_size-node,
    )

    -- The params of the description.
    abbrev description : J
    description = object (
        interpreted json real s.domain.base
          (("tableId", from_text s.domain.base.table_id) ∷ ("definition", node) ∷ []))

    no_related : find description "relatedSignals" ≡ none
    unfolding lookup put
    no_related = elim (Bool-cases (json.is_null s.domain.base.interpretation_object)) [
      | inl e ↦ rw (description, e) (find-object _ "relatedSignals")
      | inr e ↦ rw (description, e) (find-object _ "relatedSignals")
    ]

    described-signal :
        (t : SubscribedSignal J R)
        → eqb s.output_rate_in_ticks 0 ≡ false
        → s.output_rate_in_ticks < 2 ^ 64
        → (0 < s.domain.resolution.numerator) × (s.domain.resolution.numerator < 2 ^ 64)
        → (0 < s.domain.resolution.denominator) × (s.domain.resolution.denominator < 2 ^ 64)
        → process_signal_metainformation json real "signal" description t ≡ (
          ok tt,
          described (record t {
            table_id = s.domain.base.table_id;
            interpretation_object =
                if json.is_null s.domain.base.interpretation_object
                then t.interpretation_object
                else s.domain.base.interpretation_object;
          }),
        )
    unfolding process_signal_metainformation set_table text_or_number lookup put try_definition
    described-signal t rate h n d =
        elim (Bool-cases (json.is_null s.domain.base.interpretation_object)) [
          | inl e ↦
              simp
                (
                  e,
                  find-object,
                  get_text-text,
                  json.is_string-text,
                  definition description (record t { table_id = s.domain.base.table_id }) no_related
                      rate h n d,
                )
                refl
          | inr e ↦
              simp
                (
                  e,
                  find-object,
                  get_text-text,
                  json.is_string-text,
                  definition description
                      (record t {
                        table_id = s.domain.base.table_id;
                        interpretation_object = s.domain.base.interpretation_object;
                      })
                      no_related rate h n d,
                )
                refl
        ]

    -- A consumer's signal that gets what a linear time signal writes on its subscription takes over
    -- its id and its table, and becomes a linear time signal with the producer's output rate as the
    -- delta, values of 8 bytes, its resolution, the frequency that follows from it, and its epoch, if
    -- the signal has the unit of its constructor and its rate and resolution are positive 64 bit
    -- numbers.
    pub receive-write_linear_time :
        (t : SubscribedSignal J R)
        → eqb s.output_rate_in_ticks 0 ≡ false
        → s.output_rate_in_ticks < 2 ^ 64
        → (0 < s.domain.resolution.numerator) × (s.domain.resolution.numerator < 2 ^ 64)
        → (0 < s.domain.resolution.denominator) × (s.domain.resolution.denominator < 2 ^ 64)
        → receive json real (write_subscribe json s.domain.base (write_linear_time json real s)) t
          ≡ (
            ok tt,
            described (record t {
              signal_id = s.domain.base.signal_id;
              table_id = s.domain.base.table_id;
              interpretation_object =
                  if json.is_null s.domain.base.interpretation_object
                  then t.interpretation_object
                  else s.domain.base.interpretation_object;
            }),
          )
    unfolding write_linear_time node
    receive-write_linear_time t rate h n d =
        receive-write_subscribe json real s.domain.base (write_linear_time json real s) t
        ∙ receive-signal_message json real s.domain.base.signal_number description
            (record t { signal_id = s.domain.base.signal_id }) _
            (described-signal (record t { signal_id = s.domain.base.signal_id }) rate h n d)
