-- ===== src/Signal.antt =====
-- include/streaming_protocol/SubscribedSignal.hpp: a subscribed signal on the consumer's side. The
-- children are the methods of lib/SubscribedSignal.cpp. The log callback is left out. The pointer to
-- the time signal is the number under which the container holds it.
pub mod DataType
pub mod Depth
pub mod TypeName
pub mod Definition
pub mod Evolves
pub mod Invariant
pub mod Measured
pub mod Timeline
pub mod Doubles
use streaming_protocol_lt.Base.{ℕ, String, Bool, false, List, [], Option, none}
use streaming_protocol_lt.Real.{Real}
use streaming_protocol_lt.Json.{Json}
use streaming_protocol_lt.Types.{
  SampleType, sampletype_unknown, RuleType, explicit, Resolution, SignalUnit, no_unit, Range,
  PostScaling, unlimited, one_to_one,
}

pub record SubscribedSignal (J R : Type 0) : Type 0 where
  pub signal_number : ℕ
  pub signal_id : String
  pub table_id : String
  pub is_time_signal : Bool
  pub datatype_details : J
  pub bits_interpretation : J
  pub data_value_type : SampleType
  pub data_value_size : ℕ
  pub rule_type : RuleType
  pub member_name : String
  pub time_signal : Option ℕ
  pub time : ℕ
  pub linear_delta : ℕ
  pub linear_delta_json : J
  pub const_rule_start_json : J
  pub linear_value_index : ℕ
  pub time_base_epoch : String
  pub resolution : Resolution
  pub time_base_frequency : ℕ
  pub unit : SignalUnit
  pub range : Range R
  pub post_scaling : PostScaling R
  pub interpretation_object : J
  pub related_signals : List (String × String)

module _ {J R : Type 0} (json : Json J R) (real : Real R) where
  unfoldable pub new_signal : ℕ → SubscribedSignal J R
  new_signal number = record {
    signal_number = number;
    signal_id = "";
    table_id = "";
    is_time_signal = false;
    datatype_details = json.null;
    bits_interpretation = json.null;
    data_value_type = sampletype_unknown;
    data_value_size = 4;
    rule_type = explicit;
    member_name = "";
    time_signal = none;
    time = 0;
    linear_delta = 0;
    linear_delta_json = json.null;
    const_rule_start_json = json.null;
    linear_value_index = 0;
    time_base_epoch = "";
    resolution = record { numerator = 1; denominator = 1 };
    time_base_frequency = 0;
    unit = no_unit;
    range = unlimited json real;
    post_scaling = one_to_one json real;
    interpretation_object = json.null;
    related_signals = [];
  }
