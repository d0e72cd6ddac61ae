-- ===== src/Tests/Data.antt =====
-- Signals, a container and a session for the examples.
use streaming_protocol_lt.Base.{ℕ, Bool, true, false, [], ◌∷◌, none, some}
use streaming_protocol_lt.Base.Int.{ℤ, pos, negsuc}
use streaming_protocol_lt.Types.{
  SampleType, u64, s16, RuleType, explicit, constant, linear, no_unit,
}
use streaming_protocol_lt.Signal.{SubscribedSignal}
use streaming_protocol_lt.Signal.Doubles.{Casts}
use streaming_protocol_lt.Container.{SignalContainer}
use streaming_protocol_lt.Handler.{Handler}
use streaming_protocol_lt.Handler.Payload.{success, Session}
use streaming_protocol_lt.Tests.Items.{Value, nothing}

abbrev pub signal : ℕ → Bool → SampleType → ℕ → RuleType → ℕ → SubscribedSignal Value ℤ
signal number is_time type size rule delta = record {
  signal_number = number;
  signal_id = "Voltage";
  table_id = "table";
  is_time_signal = is_time;
  datatype_details = nothing;
  bits_interpretation = nothing;
  data_value_type = type;
  data_value_size = size;
  rule_type = rule;
  member_name = "";
  time_signal = none;
  time = 100;
  linear_delta = delta;
  linear_delta_json = nothing;
  const_rule_start_json = nothing;
  linear_value_index = 0;
  time_base_epoch = "";
  resolution = record { numerator = 1; denominator = 1000 };
  time_base_frequency = 1000;
  unit = no_unit;
  range = record { low = negsuc 999; high = pos 1000 };
  post_scaling = record { offset = pos 0; scale = pos 1 };
  interpretation_object = nothing;
  related_signals = [];
}

abbrev pub time : SubscribedSignal Value ℤ
time = signal 8 true u64 8 linear 10

abbrev pub voltage : SubscribedSignal Value ℤ
voltage = signal 7 false s16 2 explicit 0

abbrev pub counter : SubscribedSignal Value ℤ
counter = signal 9 false u64 8 explicit 0

abbrev pub status : SubscribedSignal Value ℤ
status = signal 6 false s16 2 constant 0

-- The values that the casts take for doubles are numbers of their own.
abbrev pub casts : Casts ℤ
casts = record { from_integer = λ i. i; from_float = pos; from_double = pos }

abbrev pub container : SignalContainer Value ℤ
container = record {
  signals = (7, some voltage) ∷ (8, some time) ∷ [];
  tables = ("table", record { time_signal_number = 8; data_signal_numbers = 7 ∷ [] }) ∷ [];
  calls = [];
}

abbrev pub session : Session Value ℤ
session = record {
  has_stream = true;
  has_completion = true;
  session_ec = success;
  closes = 0;
  stream_meta = record {
    api_version = "";
    stream_id = "";
    http_control_path = "";
    http_control_port = "";
    http_version = 10;
  };
  meta_information = record { type = 0; json_content = nothing };
  container = container;
  stream_meta_calls = [];
  completions = [];
}

-- A handler whose read was called back, for a payload of a type that there is not.
abbrev pub handler : Handler Value ℤ
handler = record {
  received = 1 ∷ 2 ∷ [];
  pending = none;
  header_word = 0;
  length_word = 2;
  signal_number = 7;
  type = 3;
  session = session;
}
