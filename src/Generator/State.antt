-- ===== src/Generator/State.antt =====
-- The signals of tool/SignalGenerator/signalgenerator.h and what adds and removes them:
-- addSynchronousSignal, addAsynchronousSignal, addLinearTimeSignal, addExplicitTimeSignal, and
-- removeSignal, signalCount, clear, configureTimes and stop of signalgenerator.cpp.
use streaming_protocol_lt.Base.{
  ℕ, String, Bool, true, false, ◌&&◌, ◌||◌, List, [], ◌∷◌, none, some, eqb, ltb, if◌then◌else◌,
  length,
}
use streaming_protocol_lt.Base.Int.{ℤ, pos, negsuc}
use streaming_protocol_lt.Base.Text.{codes}
use streaming_protocol_lt.Real.{Real}
use streaming_protocol_lt.Json.{Json}
use streaming_protocol_lt.Container.Maps.{find_text, erase_text}
use streaming_protocol_lt.Producer.{
  BaseSignal, BaseDomainSignal, LinearTimeSignal, new_domain_signal, rate_in_ticks,
}
use streaming_protocol_lt.Producer.Numbers.{next_counter, number_of}
use streaming_protocol_lt.Generator.Function.{Arithmetic, FunctionParameters}
use streaming_protocol_lt.Generator.Signals.{
  GeneratedSynchronous, GeneratedAsynchronous, new_generated_synchronous,
  new_generated_asynchronous,
}

-- The classes under iGeneratedSignal.
pub data Generated (J R : Type 0) : Type 0 where
  linear_time : LinearTimeSignal J → Generated J R
  explicit_time : BaseDomainSignal J → Generated J R
  synchronous : GeneratedSynchronous J R → Generated J R
  asynchronous : GeneratedAsynchronous J R → Generated J R

-- The counter is the static one of the library's signals.
pub record SignalGenerator (J R : Type 0) : Type 0 where
  pub generated_signals : List (String × Generated J R)
  pub time : ℕ
  pub end_time : ℕ
  pub process_period : ℕ
  pub execution_time : ℕ
  pub counter : ℕ

-- The order of std::string, and with it that of a std::map.
unfoldable pub less : List ℕ → List ℕ → Bool
less s [] = false
less [] (d ∷ t) = true
less (c ∷ s) (d ∷ t) = ltb c d || eqb c d && less s t

unfoldable pub insert_sorted : {V : Type 0} → String → V → List (String × V) → List (String × V)
unfolding less
insert_sorted k v [] = (k, v) ∷ []
insert_sorted k v ((j, w) ∷ m) =
    let rest = insert_sorted k v m in
    if less (codes k) (codes j) then (k, v) ∷ (j, w) ∷ m else (j, w) ∷ rest

module _ {J R : Type 0} where
  -- The constructor. The members that it does not initialise are given.
  unfoldable pub new_generator : ℕ → ℕ → ℕ → ℕ → ℕ → SignalGenerator J R
  new_generator start_time end_time process_period execution_time counter = record {
    generated_signals = [];
    time = start_time;
    end_time = end_time;
    process_period = process_period;
    execution_time = execution_time;
    counter = counter;
  }

  unfoldable pub configure_times : ℕ → ℕ → SignalGenerator J R → SignalGenerator J R
  configure_times process_period execution_time s = record s {
    process_period = process_period;
    execution_time = execution_time;
  }

  unfoldable pub clear : SignalGenerator J R → SignalGenerator J R
  clear s = record s { generated_signals = [] }

  unfoldable pub signal_count : SignalGenerator J R → ℕ
  signal_count s = length s.generated_signals

  unfoldable pub remove_signal : String → SignalGenerator J R → ℕ × SignalGenerator J R
  remove_signal id s = (
    elim (find_text id s.generated_signals) [ none ↦ 0 | some g ↦ 1 ],
    record s { generated_signals = erase_text id s.generated_signals },
  )

  unfoldable pub stop : SignalGenerator J R → SignalGenerator J R
  stop s = record s { end_time = s.time }

module _ {J R : Type 0} (json : Json J R) where
  -- A new signal takes the next signal number.
  abbrev new_base : ℕ → String → String → BaseSignal J
  new_base counter id table_id = record {
    signal_number = number_of counter;
    signal_id = id;
    table_id = table_id;
    interpretation_object = json.null;
  }

  -- What the four methods have in common: an id that is in use is refused.
  unfoldable pub add_generated :
      String
      → String
      → (BaseSignal J → Generated J R)
      → SignalGenerator J R
      → ℤ × SignalGenerator J R
  unfolding insert_sorted find_text next_counter number_of
  add_generated id table_id make s = elim (find_text id s.generated_signals) [
    | some g ↦ (negsuc 0, s)
    | none ↦
        let counter : ℕ = next_counter s.counter in
        (
          pos 0,
          record s {
            generated_signals =
                insert_sorted id (make (new_base counter id table_id)) s.generated_signals;
            counter = counter;
          },
        )
  ]

  -- The start of a time signal is not initialised.
  unfoldable pub add_linear_time_signal :
      String → String → ℕ → ℕ → SignalGenerator J R → ℤ × SignalGenerator J R
  unfolding new_domain_signal rate_in_ticks
  add_linear_time_signal id table_id sample_period uninitialised =
      add_generated id table_id (λ base. linear_time (record {
        domain = new_domain_signal base uninitialised 1000000000;
        output_rate_in_ticks = rate_in_ticks 1000000000 sample_period;
      }))

  unfoldable pub add_explicit_time_signal :
      String → String → ℕ → SignalGenerator J R → ℤ × SignalGenerator J R
  unfolding new_domain_signal
  add_explicit_time_signal id table_id uninitialised =
      add_generated id table_id
        (λ base. explicit_time (new_domain_signal base uninitialised 1000000000))

  module _ (real : Real R) (arithmetic : Arithmetic R) where
    unfoldable pub add_synchronous_signal :
        String
        → String
        → String
        → FunctionParameters R
        → ℕ
        → ℕ
        → SignalGenerator J R
        → ℤ × SignalGenerator J R
    unfolding new_generated_synchronous
    add_synchronous_signal id table_id time_signal_id p sample_period value_index s =
        add_generated id table_id
          (λ base. synchronous (
            new_generated_synchronous json real arithmetic base time_signal_id p sample_period
              s.time value_index))
          s

    unfoldable pub add_asynchronous_signal :
        String
        → String
        → String
        → FunctionParameters R
        → ℕ
        → SignalGenerator J R
        → ℤ × SignalGenerator J R
    unfolding new_generated_asynchronous
    add_asynchronous_signal id table_id time_signal_id p sample_period s =
        add_generated id table_id
          (λ base. asynchronous (
            new_generated_asynchronous json real arithmetic base time_signal_id p sample_period
              s.time))
          s
