-- ===== src/Generator/Run.antt =====
-- `start` of tool/SignalGenerator/signalgenerator.cpp: the loop over the
-- rounds.
use streaming_protocol_lt.Base.{
  ℕ, zero, suc, ◌^◌, ◌-◌, String, true, false, List, [], ◌∷◌, Option, none, some, eqb, ltb,
  if◌then◌else◌,
}
use streaming_protocol_lt.Base.Int.{ℤ, pos, negsuc}
use streaming_protocol_lt.Real.{Real}
use streaming_protocol_lt.Generator.Function.{Arithmetic}
use streaming_protocol_lt.Generator.Signals.{
  add_nanoseconds, process_synchronous, process_asynchronous,
}
use streaming_protocol_lt.Generator.State.{
  Generated, linear_time, explicit_time, synchronous, asynchronous, SignalGenerator, stop,
}

-- How a loop or a run ends: by its test, by the early return after a signal that could not write,
-- in undefined behaviour, or not within the fuel.
pub data Outcome (A : Type 0) : Type 0 where
  finished : A → Outcome A
  aborted : A → Outcome A
  undefined : Outcome A
  unfinished : Outcome A

-- Whether the session's error callback, which runs in another thread, calls `stop` in a round: not, or
-- before, or after the time is advanced.
pub data Interrupt : Type 0 where
  calm stop_before stop_after : Interrupt

-- The interrupts of the rounds, in order; none behind the list.
abbrev pub first_interrupt : List Interrupt → Interrupt
first_interrupt [] = calm
first_interrupt (i ∷ is) = i

abbrev pub later_interrupts : List Interrupt → List Interrupt
later_interrupts [] = []
later_interrupts (i ∷ is) = is

module _ {J R : Type 0} (tick : ℕ) where
  unfoldable pub advance : SignalGenerator J R → SignalGenerator J R
  unfolding add_nanoseconds
  advance g = record g { time = add_nanoseconds tick g.time g.process_period }

  unfoldable pub pass : Interrupt → SignalGenerator J R → SignalGenerator J R
  unfolding advance stop
  pass calm g = advance g
  pass stop_before g = advance (stop g)
  pass stop_after g = stop (advance g)

-- The end of the run; an execution time of 0 stands for the largest time.
unfoldable pub set_end : {J R : Type 0} → ℕ → SignalGenerator J R → SignalGenerator J R
unfolding add_nanoseconds
set_end tick g = record g {
  end_time =
      if eqb g.execution_time 0 then 2 ^ 63 - 1 else add_nanoseconds tick g.time g.execution_time;
}

-- The writer of the signals, and that of the session, write to the same stream.
module _ {J R S : Type 0} (real : Real R) (arithmetic : Arithmetic R) (tick : ℕ)
    (write_signal_data : ℕ → List ℕ → S → ℤ × S) where
  unfoldable wrapped :
      {A : Type 0} → (A → Generated J R) → Option (ℤ × A × S) → Option (ℤ × Generated J R × S)
  wrapped make none = none
  wrapped make (some (result, g, stream)) = some (result, make g, stream)

  -- Time signals have nothing to process.
  unfoldable pub process : ℕ → Generated J R → S → Option (ℤ × Generated J R × S)
  unfolding wrapped process_synchronous process_asynchronous
  process now (linear_time g) stream = some (pos 0, linear_time g, stream)
  process now (explicit_time g) stream = some (pos 0, explicit_time g, stream)
  process now (synchronous g) stream =
      wrapped synchronous (process_synchronous real arithmetic write_signal_data now g stream)
  process now (asynchronous g) stream =
      wrapped asynchronous
        (process_asynchronous real arithmetic write_signal_data tick now g stream)

  -- One round over all signals, up to the first negative result.
  unfoldable pub process_all :
      ℕ → List (String × Generated J R) → S → Option (ℤ × List (String × Generated J R) × S)
  unfolding process
  process_all now [] stream = some (pos 0, [], stream)
  process_all now ((id, g) ∷ rest) stream = elim (process now g stream) [
    | none ↦ none
    | some (negsuc n, g', stream') ↦ some (negsuc n, (id, g') ∷ rest, stream')
    | some (pos n, g', stream') ↦ elim (process_all now rest stream') [
      | none ↦ none
      | some (result, rest', stream'') ↦ some (result, (id, g') ∷ rest', stream'')
    ]
  ]

  -- What follows the signals in a round; `again` is the rest of the loop.
  unfoldable pub after_signals :
      (SignalGenerator J R → S → Outcome (SignalGenerator J R × S))
      → Interrupt
      → SignalGenerator J R
      → Option (ℤ × List (String × Generated J R) × S)
      → Outcome (SignalGenerator J R × S)
  unfolding pass
  after_signals again interrupt g none = undefined
  after_signals again interrupt g (some (negsuc n, signals, stream)) =
      aborted (record g { generated_signals = signals }, stream)
  after_signals again interrupt g (some (pos n, signals, stream)) =
      again (pass tick interrupt (record g { generated_signals = signals })) stream

  -- The loop over the rounds.
  unfoldable pub run_loop :
      ℕ → List Interrupt → SignalGenerator J R → S → Outcome (SignalGenerator J R × S)
  unfolding process_all after_signals
  run_loop zero interrupts g stream = unfinished
  run_loop (suc fuel) interrupts g stream = elim (ltb g.end_time g.time) [
    | true ↦ finished (g, stream)
    | false ↦
        after_signals (run_loop fuel (later_interrupts interrupts)) (first_interrupt interrupts) g
          (process_all g.time g.generated_signals stream)
  ]
