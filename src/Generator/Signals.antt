-- ===== src/Generator/Signals.antt =====
-- tool/SignalGenerator/generatedsynchronoussignal.h, generatedasynchronoussignal.h,
-- generatedtimesignal.h and addNanosecondsToTimePoint of defines.h. Points of time are nanoseconds
-- since the epoch, at which the clock of Linux counts. `m_currentTime` is a reference to the time of
-- the generator, so a method gets it as an argument.
use streaming_protocol_lt.Base.{
  ℕ, zero, suc, ◌+◌, ◌-◌, ◌*◌, ◌/◌, String, List, [], ◌∷◌, Option, none, some, eqb, ltb,
  if◌then◌else◌,
}
use streaming_protocol_lt.Base.Int.{ℤ, pos}
use streaming_protocol_lt.Base.Words.{wrap32, wrap64}
use streaming_protocol_lt.Real.{Real}
use streaming_protocol_lt.Json.{Json}
use streaming_protocol_lt.Producer.{
  BaseSignal, BaseValueSignal, new_value_signal, set_range, set_post_scaling, set_related_signals,
}
use streaming_protocol_lt.Producer.Samples.{size_of_type}
use streaming_protocol_lt.Producer.Data.{
  SynchronousSignal, add_data_synchronous, add_data_asynchronous,
}
use streaming_protocol_lt.Generator.Function.{Arithmetic, FunctionParameters, calculate}

-- `tick` is 1 or 1000, as the build selects a resolution of nanoseconds or of microseconds.
unfoldable pub add_nanoseconds : ℕ → ℕ → ℕ → ℕ
add_nanoseconds tick time nanoseconds = time + nanoseconds / tick * tick

-- The members that the synchronous and the asynchronous signal share.
pub record Sampler (R : Type 0) : Type 0 where
  pub parameters : FunctionParameters R
  pub period : R
  pub sample_period : ℕ
  pub sample_period_double : R
  pub last_process_time : ℕ
  pub period_time_double : R

pub record GeneratedSynchronous (J R : Type 0) : Type 0 where
  pub signal : SynchronousSignal J R
  pub sampler : Sampler R

pub record GeneratedAsynchronous (J R : Type 0) : Type 0 where
  pub signal : BaseValueSignal J R
  pub sampler : Sampler R
  pub timestamp : ℕ
  pub delta_time : ℕ

module _ {R : Type 0} (real : Real R) (arithmetic : Arithmetic R) where
  open arithmetic use {add, mul, div, ge, seconds, from_nat, to_uint64}

  unfoldable pub new_sampler : FunctionParameters R → ℕ → ℕ → Sampler R
  new_sampler parameters sample_period now = record {
    parameters = parameters;
    period = div real.one parameters.frequency;
    sample_period = sample_period;
    sample_period_double = seconds sample_period;
    last_process_time = now;
    period_time_double = real.zero;
  }

  -- The body of the loop over the samples: the value, and the sampler behind it.
  unfoldable pub sample : (ℕ → ℕ → ℕ) → Sampler R → ℕ × Sampler R
  unfolding calculate
  sample move s =
      let next : R = add s.period_time_double s.sample_period_double in
      (
        calculate real arithmetic s.parameters s.period_time_double,
        record s {
          last_process_time = move s.last_process_time s.sample_period;
          period_time_double =
              if ge next (real.sub s.period s.sample_period_double) then real.zero else next;
        },
      )

  -- The loop over the samples of a synchronous signal.
  unfoldable pub samples : ℕ → Sampler R → List ℕ × Sampler R
  unfolding sample
  samples zero s = ([], s)
  samples (suc n) s =
      let (value, s') = sample ◌+◌ s in let (values, s'') = samples n s' in (value ∷ values, s'')

  -- That of an asynchronous signal also counts the time stamp.
  unfoldable pub tuples : ℕ → ℕ → ℕ → ℕ → Sampler R → List (ℕ × ℕ) × ℕ × Sampler R
  unfolding sample add_nanoseconds
  tuples tick delta_time zero timestamp s = ([], timestamp, s)
  tuples tick delta_time (suc n) timestamp s =
      let (value, s') = sample (add_nanoseconds tick) s in
      let (rest, timestamp', s'') = tuples tick delta_time n (wrap64 (timestamp + delta_time)) s' in
      ((timestamp, value) ∷ rest, timestamp', s'')

-- The samples since the last processing, as an `unsigned int`. A sample period of 0 is a division by
-- zero, whose behaviour is undefined: `none`.
unfoldable pub samples_to_process : {R : Type 0} → ℕ → Sampler R → Option ℕ
samples_to_process now s =
    if ltb now s.last_process_time
    then some 0
    else if eqb s.sample_period 0
    then none
    else some (wrap32 ((now - s.last_process_time) / s.sample_period))

module _ {J R S : Type 0} (real : Real R) (arithmetic : Arithmetic R)
    (write_signal_data : ℕ → List ℕ → S → ℤ × S) where
  unfoldable pub produce_synchronous :
      ℕ → GeneratedSynchronous J R → S → ℤ × GeneratedSynchronous J R × S
  unfolding add_data_synchronous samples size_of_type
  produce_synchronous zero g stream = (pos 0, g, stream)
  produce_synchronous (suc n) g stream =
      let (values, sampler) = samples real arithmetic (suc n) g.sampler in
      let (result, signal, stream') =
        add_data_synchronous write_signal_data (size_of_type g.sampler.parameters.value_type) values
          g.signal stream in
      (result, record { signal = signal; sampler = sampler }, stream')

  -- `process`: the result of addData is returned, negative or not.
  unfoldable pub process_synchronous :
      ℕ → GeneratedSynchronous J R → S → Option (ℤ × GeneratedSynchronous J R × S)
  unfolding produce_synchronous samples_to_process
  process_synchronous now g stream = elim (samples_to_process now g.sampler) [
    | none ↦ none
    | some n ↦ some (produce_synchronous n g stream)
  ]

  unfoldable pub produce_asynchronous :
      ℕ → ℕ → GeneratedAsynchronous J R → S → ℤ × GeneratedAsynchronous J R × S
  unfolding add_data_asynchronous tuples size_of_type
  produce_asynchronous tick zero g stream = (pos 0, g, stream)
  produce_asynchronous tick (suc n) g stream =
      let (values, timestamp, sampler) =
        tuples real arithmetic tick g.delta_time (suc n) g.timestamp g.sampler in
      let (result, stream') =
        add_data_asynchronous write_signal_data (size_of_type g.sampler.parameters.value_type)
          g.signal.base.signal_number values stream in
      (result, record g { sampler = sampler; timestamp = timestamp }, stream')

  unfoldable pub process_asynchronous :
      ℕ → ℕ → GeneratedAsynchronous J R → S → Option (ℤ × GeneratedAsynchronous J R × S)
  unfolding produce_asynchronous samples_to_process
  process_asynchronous tick now g stream = elim (samples_to_process now g.sampler) [
    | none ↦ none
    | some n ↦ some (produce_asynchronous tick n g stream)
  ]

-- `BaseDomainSignal::timeTicksFromTime` of lib/BaseDomainSignal.cpp.
module _ {R : Type 0} (arithmetic : Arithmetic R) where
  open arithmetic use {mul, seconds, from_nat, to_uint64}

  unfoldable pub time_ticks_from_time : ℕ → ℕ → ℕ
  time_ticks_from_time now ticks_per_second =
      to_uint64 (mul (seconds now) (from_nat ticks_per_second))

module _ {J R : Type 0} (json : Json J R) (real : Real R) (arithmetic : Arithmetic R) where
  open arithmetic use {mul, div, seconds, from_nat, to_uint64}

  -- Range, scaling and the time signal are set on the new value signal.
  abbrev described : BaseSignal J → String → FunctionParameters R → BaseValueSignal J R
  unfolding set_related_signals set_post_scaling set_range new_value_signal
  described base time_signal_id p =
      set_related_signals (("time", time_signal_id) ∷ [])
        (set_post_scaling p.post_scaling (set_range p.range (new_value_signal json real base)))

  unfoldable pub new_generated_synchronous :
      BaseSignal J → String → FunctionParameters R → ℕ → ℕ → ℕ → GeneratedSynchronous J R
  unfolding set_related_signals set_post_scaling set_range new_value_signal new_sampler
  new_generated_synchronous base time_signal_id p sample_period now value_index = record {
    signal = record { value = described base time_signal_id p; value_index = value_index };
    sampler = new_sampler real arithmetic p sample_period now;
  }

  unfoldable pub new_generated_asynchronous :
      BaseSignal J → String → FunctionParameters R → ℕ → ℕ → GeneratedAsynchronous J R
  unfolding set_related_signals set_post_scaling set_range new_value_signal new_sampler
  new_generated_asynchronous base time_signal_id p sample_period now = record {
    signal = described base time_signal_id p;
    sampler = new_sampler real arithmetic p sample_period now;
    timestamp = to_uint64 (mul (from_nat 1000000000) (seconds now));
    delta_time = to_uint64 (div real.one (seconds sample_period));
  }
