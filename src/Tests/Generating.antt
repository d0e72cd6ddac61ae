-- ===== src/Tests/Generating.antt =====
-- The theorems on the signal generator, at concrete inputs. Numbers stand for nanoseconds.
use streaming_protocol_lt.Base.{
  ℕ, ◌+◌, ◌-◌, ◌*◌, ◌/◌, String, ◌≡◌, refl, Bool, false, List, [], ◌∷◌, ◌++◌, some, leb, eqb, not,
  length, arith,
}
use streaming_protocol_lt.Base.Int.{ℤ, pos, negsuc}
use streaming_protocol_lt.Base.Result.{Result, ok, throws, json_exception}
use streaming_protocol_lt.Json.{index}
use streaming_protocol_lt.Producer.{BaseSignal}
use streaming_protocol_lt.Producer.Samples.{ValueType, int16}
use streaming_protocol_lt.Generator.Function.{
  Arithmetic, FunctionParameters, function_type_sawtooth,
}
use streaming_protocol_lt.Generator.Signals.{GeneratedSynchronous, new_generated_synchronous}
use streaming_protocol_lt.Generator.Produced.{HasProduced}
use streaming_protocol_lt.Generator.Schedule.{
  process_rounds, ordered, final, UpTo, process_rounds-HasProduced,
}
use streaming_protocol_lt.Generator.State.{
  SignalGenerator, new_generator, add_generated, signal_count,
}
use streaming_protocol_lt.Generator.Configure.{Reader, configure}
use streaming_protocol_lt.Generator.Holds.{holds}
use streaming_protocol_lt.Generator.Configured.{configured, holds-configure}
use streaming_protocol_lt.Generator.Run.{Interrupt, calm, stop_after, run_loop}
use streaming_protocol_lt.Generator.Ends.{is_finished, run_loop-is_finished}
use streaming_protocol_lt.Generator.Factors.{get_prime_factor_exponents}
use streaming_protocol_lt.Generator.Factored.{
  product, AllPrime, get_prime_factor_exponents-AllPrime,
}
use streaming_protocol_lt.Tests.Items.{
  Value, Items, end, item, text, natural, object_of, nothing, find_item, of_members,
}
use streaming_protocol_lt.Tests.Values.{values, integers}

abbrev magnitude : ℤ → ℕ
magnitude (pos n) = n
magnitude (negsuc n) = 0

abbrev arithmetic : Arithmetic ℤ
arithmetic = record {
  add = λ a b. pos (magnitude a + magnitude b);
  mul = λ a b. pos (magnitude a * magnitude b);
  div = λ a b. pos (100 / magnitude b);
  ge = λ a b. leb (magnitude b) (magnitude a);
  sine = λ a. a;
  fraction = λ a. a;
  two_pi = pos 6;
  seconds = pos;
  from_nat = pos;
  to_uint64 = magnitude;
  to_value = λ t a. magnitude a;
  round_to_value = λ t a. magnitude a;
  from_value = λ t. pos;
  plus = λ t. ◌+◌;
  minus = λ t. ◌-◌;
  times = λ t. ◌*◌;
}

-- A ramp of slope 2, in periods of 50.
abbrev ramp : FunctionParameters ℤ
ramp = record {
  value_type = int16;
  function_type = function_type_sawtooth;
  amplitude = 1;
  offset = 3;
  frequency = pos 2;
  duty_cycle = pos 0;
  range = record { low = negsuc 999; high = pos 1000 };
  post_scaling = record { offset = pos 0; scale = pos 1 };
}

abbrev base : BaseSignal Value
base = record {
  signal_number = 5;
  signal_id = "ramp";
  table_id = "ramp_table";
  interpretation_object = nothing;
}

unfoldable signal : GeneratedSynchronous Value ℤ
unfolding new_generated_synchronous
signal = new_generated_synchronous values integers arithmetic base "time" ramp 10 0 0

abbrev times : List ℕ
times = 25 ∷ 40 ∷ 40 ∷ 103 ∷ []

schedule_example :
    let end = final signal.sampler.last_process_time times in
    (g' : GeneratedSynchronous Value ℤ) × (log' : List (List ℕ)) × (process_rounds integers
        arithmetic times signal []
      ≡ some (g', log'))
    × HasProduced integers arithmetic
        ((end - signal.sampler.last_process_time) / signal.sampler.sample_period)
        signal
        g'
        []
        log'
    × UpTo end g'.sampler
unfolding signal ordered final
schedule_example =
    process_rounds-HasProduced integers arithmetic times signal (omega arith) refl (omega arith)
      (omega arith)

-- What the reader of the configuration gives; there are no other truth values than numbers.
abbrev bool_of : Value → Result Bool
bool_of (natural n) = ok (not (eqb n 0))
bool_of _ = throws json_exception

abbrev value_of : ValueType → Value → Result ℕ
value_of t (natural n) = ok n
value_of t _ = throws json_exception

unfoldable pairs : Items → List (String × Value)
pairs end = []
pairs (item k v rest) = (k, v) ∷ pairs rest

abbrev items_of : Value → List (String × Value)
items_of (object_of items) = pairs items
items_of _ = []

abbrev reader : Reader Value
reader = record { get_bool = bool_of; get_value = value_of; items = items_of }

abbrev memory : String → ℕ × List ℕ
memory key = (0, [])

abbrev signal_config : Value
signal_config = object_of (
    item "function" (text "sawtooth") (
      item "samplePeriod" (text "10 ns")
        (item "dataType" (text "int32") (item "amplitude" (natural 1) end))))

abbrev config : Value
config = object_of (
    item "signals" (object_of (item "one" signal_config (item "two" signal_config end)))
      (item "processPeriod" (text "20ns") (item "executionTime" (text "100 ns") end)))

unfoldable empty_generator : SignalGenerator Value ℤ
unfolding new_generator
empty_generator = new_generator 0 0 0 0 0

unfoldable configured_generator : SignalGenerator Value ℤ
unfolding configure empty_generator find_item pairs of_members add_generated
configured_generator =
    (configure values integers reader memory arithmetic 0 config empty_generator).1

configuring :
    configure values integers reader memory arithmetic 0 config empty_generator
    ≡ (ok tt, configured_generator)
unfolding configured_generator configure empty_generator
configuring = refl

configure_example :
    (signals : Value) × (index values config "signals" ≡ ok signals)
    × ((i : String) → holds i configured_generator ≡ configured i (items_of signals))
configure_example =
    holds-configure values integers reader memory arithmetic 0 config empty_generator
      configured_generator configuring

-- The two signals and their time signals.
configured_count : signal_count configured_generator ≡ 4
unfolding configured_generator signal_count
configured_count = refl

-- A stream that takes all that is written.
abbrev write_all : ℕ → List ℕ → List (ℕ × List ℕ) → ℤ × List (ℕ × List ℕ)
write_all number bytes log = (pos (length bytes), log ++ (number, bytes) ∷ [])

abbrev no_meta : ℕ → Value → List (ℕ × List ℕ) → List (ℕ × List ℕ)
no_meta number meta log = log

abbrev interrupts : List Interrupt
interrupts = calm ∷ stop_after ∷ []

-- The end of the run, without the session.
abbrev slow_generator : SignalGenerator Value ℤ
slow_generator = record {
  generated_signals = [];
  time = 0;
  end_time = 5000;
  process_period = 500;
  execution_time = 5000;
  counter = 0;
}

is_finished_example :
    is_finished (run_loop integers arithmetic 1000 write_all 9 [] slow_generator []) ≡ false
is_finished_example =
    run_loop-is_finished integers arithmetic 1000 write_all 9 slow_generator [] refl (omega arith)

factors_example :
    (product (get_prime_factor_exponents 360) ≡ 360) × AllPrime (get_prime_factor_exponents 360)
factors_example = get_prime_factor_exponents-AllPrime 360 (omega arith)
