-- ===== src/Generator/Configure.antt =====
-- configureSignal of tool/SignalGenerator/signalgenerator.h, configure of signalgenerator.cpp, and
-- addSignals of signaldefinition.cpp. `fails` is the result -1.
use streaming_protocol_lt.Base.{
  ℕ, String, Bool, false, List, [], ◌∷◌, Option, none, some, ◌==◌, if◌then◌else◌,
}
use streaming_protocol_lt.Base.Text.{codes, join}
use streaming_protocol_lt.Base.Result.{
  Result, ok, fails, throws, Method, ◌>>=◌, then_run, json_exception,
}
use streaming_protocol_lt.Real.{Real}
use streaming_protocol_lt.Json.{Json, index, value_text, value_from}
use streaming_protocol_lt.Types.{Range, PostScaling, unlimited}
use streaming_protocol_lt.Producer.Samples.{ValueType, int32, int64, float, double}
use streaming_protocol_lt.Generator.Function.{
  Arithmetic, FunctionParameters, FunctionType, function_type_constant, function_type_sine,
  function_type_rectangle, function_type_sawtooth, function_type_impulse,
}
use streaming_protocol_lt.Generator.Durations.{duration_from_string}
use streaming_protocol_lt.Generator.State.{
  SignalGenerator, clear, configure_times, add_linear_time_signal, add_explicit_time_signal,
  add_synchronous_signal, add_asynchronous_signal,
}

-- What the program calls of nlohmann::json here, beyond `Json`: the conversions to bool and to a value
-- type, and `items`, the pairs of key and value.
pub record Reader (J : Type 0) : Type 0 where
  pub get_bool : J → Result Bool
  pub get_value : ValueType → J → Result ℕ
  pub items : J → List (String × J)

unfoldable pub function_named : String → Option FunctionType
function_named name =
    if name == "sine"
    then some function_type_sine
    else if name == "rectangle"
    then some function_type_rectangle
    else if name == "impulse"
    then some function_type_impulse
    else if name == "constant"
    then some function_type_constant
    else if name == "sawtooth"
    then some function_type_sawtooth
    else none

unfoldable pub type_named : String → Option ValueType
type_named name =
    if name == "real64"
    then some double
    else if name == "real32"
    then some float
    else if name == "int32"
    then some int32
    else if name == "int64"
    then some int64
    else none

abbrev pub or_fail : {A : Type 0} → Option A → Result A
or_fail none = fails
or_fail (some a) = ok a

-- What is read of the configuration of a signal.
pub record Settings (R : Type 0) : Type 0 where
  pub is_explicit : Bool
  pub sample_period : ℕ
  pub parameters : FunctionParameters R
  pub table_id : String

-- `uninitialised` is what the variables of durationFromString hold when the sample period of the signal of
-- an id, or a setting of the generator of that name, is read.
module _ {J R : Type 0} (json : Json J R) (real : Real R) (reader : Reader J)
    (uninitialised : String → ℕ × List ℕ) where
  open json use {find, is_object, get_real, object}
  open reader use {get_bool, get_value}

  -- `j.value(key, default)` for the other types.
  abbrev value_of : {A : Type 0} → (J → Result A) → J → String → A → Result A
  value_of get j k d =
      if is_object j then value_from json get d (find j k) else throws json_exception

  unfoldable pub read_range : J → Result (Range R)
  unfolding unlimited
  read_range j = do
    range ← value_of ok j "range" (object [])
    low ← value_of get_real range "low" real.lowest
    high ← value_of get_real range "high" real.max
    ok (record { low = low; high = high })

  unfoldable pub read_post_scaling : J → Result (PostScaling R)
  read_post_scaling j = do
    scaling ← value_of ok j "postScaling" (object [])
    scale ← value_of get_real scaling "scale" real.one
    offset ← value_of get_real scaling "offset" real.zero
    ok (record { offset = offset; scale = scale })

  -- The delay is read and not used.
  unfoldable pub read_settings : ValueType → String → J → Result (Settings R)
  unfolding function_named read_range read_post_scaling duration_from_string
  read_settings t id j = do
    name ← value_text json j "function" ""
    function_type ← or_fail (function_named name)
    explicit ← value_of get_bool j "explicitTime" false
    delay ← value_text json j "delay" ""
    period ← value_text json j "samplePeriod" ""
    range ← read_range j
    post_scaling ← read_post_scaling j
    amplitude ← value_of (get_value t) j "amplitude" 0
    offset ← value_of (get_value t) j "offset" 0
    frequency ← value_of get_real j "frequency" real.zero
    duty_cycle ← value_of get_real j "dutyCycle" real.zero
    table_id ← value_text json j "tableId" ""
    ok (record {
      is_explicit = explicit;
      sample_period = duration_from_string (codes period) (uninitialised id) 0;
      parameters = record {
        value_type = t;
        function_type = function_type;
        amplitude = amplitude;
        offset = offset;
        frequency = frequency;
        duty_cycle = duty_cycle;
        range = range;
        post_scaling = post_scaling;
      };
      table_id = if table_id == "" then join id "_table" else table_id;
    })

  module _ (arithmetic : Arithmetic R) where
    -- The start of a time signal, which is not initialised, is given.
    unfoldable pub add_explicit :
        ℕ → String → Settings R → SignalGenerator J R → SignalGenerator J R
    unfolding add_explicit_time_signal add_asynchronous_signal
    add_explicit start id s g =
        let time_id : String = join "A_" (join id "_time") in
        (add_asynchronous_signal json real arithmetic id s.table_id time_id s.parameters
          s.sample_period (add_explicit_time_signal json time_id s.table_id start g).1).1

    unfoldable pub add_linear : ℕ → String → Settings R → SignalGenerator J R → SignalGenerator J R
    unfolding add_linear_time_signal add_synchronous_signal
    add_linear start id s g =
        let time_id : String = join "A_" (join id "_time") in
        (add_synchronous_signal json real arithmetic id s.table_id time_id s.parameters
          s.sample_period 0
          (add_linear_time_signal json time_id s.table_id s.sample_period start g).1).1

    -- Whether the signals could be added makes no difference.
    unfoldable pub configure_signal :
        ℕ → ValueType → String → J → Method (SignalGenerator J R) (Unit {0})
    unfolding read_settings add_explicit add_linear
    configure_signal start t id j g =
        then_run (read_settings t id j, g)
          (λ s g'. (
            ok tt,
            (if s.is_explicit then add_explicit start id s g' else add_linear start id s g'),
          ))

    -- The body of the loop over the signals.
    unfoldable pub configure_item : ℕ → String × J → Method (SignalGenerator J R) (Unit {0})
    unfolding type_named configure_signal
    configure_item start (id, j) g =
        then_run (value_text json j "dataType" "real64" >>= (λ name. or_fail (type_named name)), g)
          (λ t. configure_signal start t id j)

    unfoldable pub configure_items : ℕ → List (String × J) → Method (SignalGenerator J R) (Unit {0})
    unfolding configure_item
    configure_items start [] g = (ok tt, g)
    configure_items start (item ∷ items) g =
        then_run (configure_item start item g) (λ _. configure_items start items)

    abbrev pub read_times : J → Result (ℕ × ℕ)
    unfolding duration_from_string
    read_times j = do
      period ← value_text json j "processPeriod" ""
      time ← value_text json j "executionTime" ""
      ok (
        duration_from_string (codes period) (uninitialised "processPeriod") 10000,
        duration_from_string (codes time) (uninitialised "executionTime") 10000000000,
      )

    -- The times, and the loop over the signals.
    unfoldable pub configure_with : ℕ → J → ℕ × ℕ → Method (SignalGenerator J R) (Unit {0})
    unfolding configure_items configure_times
    configure_with start j times g =
        then_run (index json j "signals", configure_times times.0 times.1 g)
          (λ signals. configure_items start (reader.items signals))

    unfoldable pub configure : ℕ → J → Method (SignalGenerator J R) (Unit {0})
    unfolding configure_with clear duration_from_string
    configure start j g = then_run (read_times j, clear g) (configure_with start j)

    -- The file does not open, it does not parse, or it holds a value.
    unfoldable pub configure_from_file :
        ℕ → Option (Option J) → Method (SignalGenerator J R) (Unit {0})
    unfolding configure
    configure_from_file start none g = (fails, g)
    configure_from_file start (some none) g = (fails, g)
    configure_from_file start (some (some j)) g = configure start j g
