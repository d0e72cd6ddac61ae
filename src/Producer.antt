-- ===== src/Producer.antt =====
-- The producer's signals: lib/BaseSignal.cpp, lib/BaseDomainSignal.cpp, lib/LinearTimeSignal.cpp,
-- lib/ExplicitTimeSignal.cpp, lib/BaseValueSignal.cpp, lib/BaseSynchronousSignal.cpp,
-- lib/BaseConstantSignal.cpp and the table of lib/SynchronousSignal.cpp. What a signal writes is a
-- list of signal numbers with the meta information, or with the bytes.
pub mod Numbers
pub mod Ticks
pub mod Samples
pub mod Tables
pub mod Composed
pub mod Received
pub mod DescribedTime
pub mod Member
pub mod DescribedValues
pub mod Streaming
pub mod Data
pub mod Entries
pub mod Packets
pub mod Converted
use streaming_protocol_lt.Base.{
  ℕ, ◌+◌, ◌*◌, ◌/◌, ◌%◌, ◌^◌, String, Bool, List, [], ◌∷◌, ◌++◌, Option, none, some, if◌then◌else◌,
}
use streaming_protocol_lt.Base.Words.{wrap64, to_bytes}
use streaming_protocol_lt.Base.Int.{ℤ}
use streaming_protocol_lt.Real.{Real}
use streaming_protocol_lt.Json.{Json}
use streaming_protocol_lt.Json.Object.{Members, put}
use streaming_protocol_lt.Types.{
  Range, PostScaling, Resolution, SignalUnit, no_unit, unit_id_seconds, unlimited, one_to_one,
  compose_range, compose_post_scaling, compose_resolution, compose_unit,
}

-- What all signals have. A null interpretation is left out of what is written.
pub record BaseSignal (J : Type 0) : Type 0 where
  pub signal_number : ℕ
  pub signal_id : String
  pub table_id : String
  pub interpretation_object : J

pub record BaseDomainSignal (J : Type 0) : Type 0 where
  pub base : BaseSignal J
  pub start_in_ticks : ℕ
  pub resolution : Resolution
  pub epoch : String
  pub unit_second : SignalUnit

pub record LinearTimeSignal (J : Type 0) : Type 0 where
  pub domain : BaseDomainSignal J
  pub output_rate_in_ticks : ℕ

pub record BaseValueSignal (J R : Type 0) : Type 0 where
  pub base : BaseSignal J
  pub value_name : String
  pub unit : SignalUnit
  pub post_scaling : PostScaling R
  pub range : Range R
  pub related_signals : List (String × String)

abbrev pub Written : Type 0 → Type 0
Written A = List (ℕ × A)

-- The constructor takes the ticks of a second; the start is not initialised.
unfoldable pub new_domain_signal : {J : Type 0} → BaseSignal J → ℕ → ℕ → BaseDomainSignal J
new_domain_signal base uninitialised ticks_per_second = record {
  base = base;
  start_in_ticks = uninitialised;
  resolution = record { numerator = 1; denominator = ticks_per_second };
  epoch = "1970-01-01";
  unit_second = record { id = unit_id_seconds; display_name = "s"; quantity = "time" };
}

unfoldable pub set_epoch : {J : Type 0} → String → BaseDomainSignal J → BaseDomainSignal J
set_epoch epoch s = record s { epoch = epoch }

unfoldable pub set_time_ticks_per_second :
    {J : Type 0} → ℕ → BaseDomainSignal J → BaseDomainSignal J
set_time_ticks_per_second ticks s = record s {
  resolution = record { numerator = s.resolution.numerator; denominator = ticks };
}

-- Value index 0 and the start time are written as data.
unfoldable pub set_time_start :
    {J : Type 0} → ℕ → BaseDomainSignal J → BaseDomainSignal J × Written (List ℕ)
set_time_start ticks s = (
  record s { start_in_ticks = ticks },
  (s.base.signal_number, to_bytes 8 0 ++ to_bytes 8 ticks) ∷ [],
)

-- The rate is given in nanoseconds, as the bits of a 64 bit number.
unfoldable pub rate_in_ticks : ℕ → ℕ → ℕ
rate_in_ticks ticks_per_second nanoseconds = wrap64 (ticks_per_second * nanoseconds) / 1000000000

unfoldable pub set_output_rate : {J : Type 0} → ℕ → LinearTimeSignal J → LinearTimeSignal J
set_output_rate ticks s = record s { output_rate_in_ticks = ticks }

module _ {J R : Type 0} (json : Json J R) where
  open json use {from_text, object}

  abbrev message : String → Members J → J
  message method params = object (("method", from_text method) ∷ ("params", object params) ∷ [])

  unfoldable pub subscribe_message : BaseSignal J → J
  subscribe_message s = message "subscribe" (("signalId", from_text s.signal_id) ∷ [])

  -- `unsubscribe` has no parameters.
  unfoldable pub write_unsubscribe : BaseSignal J → Written J
  write_unsubscribe s = (s.signal_number, object (("method", from_text "unsubscribe") ∷ [])) ∷ []

  -- `subscribe`: the acknowledgement, then the description.
  unfoldable pub write_subscribe : BaseSignal J → Written J → Written J
  unfolding subscribe_message
  write_subscribe s description = (s.signal_number, subscribe_message s) ∷ description

module _ {J R : Type 0} (json : Json J R) (real : Real R) where
  open json use {from_text, from_nat, object, array, is_null}

  abbrev pub interpreted : BaseSignal J → Members J → Members J
  interpreted s m =
      if is_null s.interpretation_object then m else put "interpretation" s.interpretation_object m

  -- The definition of a linear time signal.
  unfoldable pub linear_member : LinearTimeSignal J → Members J
  linear_member s = compose_resolution json real s.domain.resolution (
      compose_unit json real s.domain.unit_second (
        ("name", from_text "time")
        ∷ ("rule", from_text "linear")
        ∷ ("linear", object (("delta", from_nat s.output_rate_in_ticks) ∷ []))
        ∷ ("dataType", from_text "uint64")
        ∷ ("absoluteReference", from_text s.domain.epoch)
        ∷ []))

  unfoldable pub explicit_member : BaseDomainSignal J → Members J
  explicit_member s = compose_resolution json real s.resolution (
      put "absoluteReference" (from_text s.epoch) (
        compose_unit json real s.unit_second (
          ("name", from_text "time")
          ∷ ("rule", from_text "explicit")
          ∷ ("dataType", from_text "uint64")
          ∷ [])))

  abbrev domain_message : BaseSignal J → Members J → Written J
  domain_message s member =
      (
        s.signal_number,
        message json "signal" (
            interpreted s (("tableId", from_text s.table_id) ∷ ("definition", object member) ∷ [])),
      )
      ∷ []

  unfoldable pub write_linear_time : LinearTimeSignal J → Written J
  unfolding linear_member
  write_linear_time s = domain_message s.domain.base (linear_member s)

  unfoldable pub write_explicit_time : BaseDomainSignal J → Written J
  unfolding explicit_member
  write_explicit_time s = domain_message s.base (explicit_member s)

  unfoldable pub new_value_signal : BaseSignal J → BaseValueSignal J R
  unfolding unlimited one_to_one
  new_value_signal base = record {
    base = base;
    value_name = "value";
    unit = no_unit;
    post_scaling = one_to_one json real;
    range = unlimited json real;
    related_signals = [];
  }

  unfoldable related_items : List (String × String) → List J
  related_items [] = []
  related_items ((type, id) ∷ rest) =
      object (("type", from_text type) ∷ ("signalId", from_text id) ∷ []) ∷ related_items rest

  -- Nothing is composed where there are none.
  unfoldable pub compose_related_signals : List (String × String) → Members J → Members J
  unfolding related_items
  compose_related_signals [] m = m
  compose_related_signals (r ∷ rs) m = put "relatedSignals" (array (related_items (r ∷ rs))) m

  -- Unit, range and post scaling behind the given members.
  abbrev properties : BaseValueSignal J R → Members J → Members J
  properties s m =
      compose_post_scaling json real s.post_scaling
        (compose_range json real s.range (compose_unit json real s.unit m))

  unfoldable pub synchronous_member : BaseValueSignal J R → String → Members J
  synchronous_member s data_type = properties s (
      ("name", from_text s.value_name)
      ∷ ("dataType", from_text data_type)
      ∷ ("rule", from_text "explicit")
      ∷ [])

  -- A start value that is null is left out.
  unfoldable pub constant_member : BaseValueSignal J R → J → String → Members J
  constant_member s start data_type =
      let member : Members J = properties s (
        ("name", from_text s.value_name)
        ∷ ("dataType", from_text data_type)
        ∷ ("rule", from_text "constant")
        ∷ []) in
      if is_null start then member else put "constant" (object (("start", start) ∷ [])) member

  unfoldable pub write_synchronous : BaseValueSignal J R → String → ℕ → Written J
  unfolding synchronous_member compose_related_signals
  write_synchronous s data_type value_index =
      (
        s.base.signal_number,
        message json "signal" (
            compose_related_signals s.related_signals (
              put "valueIndex" (from_nat value_index) (
                put "definition" (object (synchronous_member s data_type))
                  (interpreted s.base (("tableId", from_text s.base.table_id) ∷ []))))),
      )
      ∷ []

  unfoldable pub write_constant : BaseValueSignal J R → J → String → Written J
  unfolding constant_member compose_related_signals
  write_constant s start data_type =
      (
        s.base.signal_number,
        message json "signal" (
            compose_related_signals s.related_signals (
              put "definition" (object (constant_member s start data_type))
                (interpreted s.base (("tableId", from_text s.base.table_id) ∷ [])))),
      )
      ∷ []

  -- The definition of an asynchronous signal, whose message has no value index.
  unfoldable pub asynchronous_member : BaseValueSignal J R → String → Members J
  asynchronous_member s data_type = compose_post_scaling json real s.post_scaling (
      compose_range json real s.range (
        compose_unit json real s.unit (
          ("name", from_text s.value_name)
          ∷ ("dataType", from_text data_type)
          ∷ ("rule", from_text "explicit")
          ∷ [])))

  unfoldable pub write_asynchronous : BaseValueSignal J R → String → Written J
  unfolding asynchronous_member compose_related_signals
  write_asynchronous s data_type =
      (
        s.base.signal_number,
        message json "signal" (
            compose_related_signals s.related_signals (
              put "definition" (object (asynchronous_member s data_type))
                (interpreted s.base (("tableId", from_text s.base.table_id) ∷ [])))),
      )
      ∷ []

-- The setters of value signals. A unit is given whole, or as an id and a name.
module _ {J R : Type 0} where
  unfoldable pub set_unit : SignalUnit → BaseValueSignal J R → BaseValueSignal J R
  set_unit unit s = record s { unit = unit }

  unfoldable pub set_unit_id : ℤ → String → BaseValueSignal J R → BaseValueSignal J R
  set_unit_id id display_name s = record s {
    unit = record { id = id; display_name = display_name; quantity = s.unit.quantity };
  }

  unfoldable pub set_member_name : String → BaseValueSignal J R → BaseValueSignal J R
  set_member_name name s = record s { value_name = name }

  unfoldable pub set_post_scaling : PostScaling R → BaseValueSignal J R → BaseValueSignal J R
  set_post_scaling post_scaling s = record s { post_scaling = post_scaling }

  unfoldable pub set_range : Range R → BaseValueSignal J R → BaseValueSignal J R
  set_range range s = record s { range = range }

  unfoldable pub set_related_signals :
      List (String × String) → BaseValueSignal J R → BaseValueSignal J R
  set_related_signals related_signals s = record s { related_signals = related_signals }
