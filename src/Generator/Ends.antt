-- ===== src/Generator/Ends.antt =====
-- When the loop of `start` over the rounds ends.
use native.Mathlib.Nat.{add-mul-div_right, div-eq_of_lt}
use streaming_protocol_lt.Base.{
  Option, Bool, ℕ, zero, suc, ◌+◌, ◌-◌, ◌*◌, ◌/◌, ◌≤◌, ◌<◌, ◌≡◌, refl, ap, true, false, List, [],
  ◌∷◌, some, none, arith, ltb, Bool-cases, inl, inr, String,
}
use streaming_protocol_lt.Base.Int.{ℤ, pos, negsuc}
use streaming_protocol_lt.Real.{Real}
use streaming_protocol_lt.Generator.Function.{Arithmetic}
use streaming_protocol_lt.Generator.Signals.{add_nanoseconds}
use streaming_protocol_lt.Generator.State.{Generated, SignalGenerator, stop}
use streaming_protocol_lt.Generator.Run.{
  Outcome, finished, aborted, undefined, unfinished, Interrupt, calm, stop_before, stop_after,
  first_interrupt, later_interrupts, advance, pass, after_signals, run_loop,
}

-- How far a round moves the time.
abbrev pub step : ℕ → ℕ → ℕ
step tick period = period / tick * tick

-- The rounds to the end of the run, both ends included.
unfoldable pub rounds_left : ℕ → ℕ → ℕ → ℕ
rounds_left step end time = (end + step - time) / step

-- How often `stop` is called between the advance of the time and the test of the loop.
unfoldable pub late_stops : List Interrupt → ℕ
late_stops [] = 0
late_stops (calm ∷ is) = late_stops is
late_stops (stop_before ∷ is) = late_stops is
late_stops (stop_after ∷ is) = suc (late_stops is)

-- A loop that has ended, by its test only behind the end of the run.
pub data HasEnded {J R S : Type 0} : Outcome (SignalGenerator J R × S) → Type 0 where
  by_test :
      (g : SignalGenerator J R) (stream : S) → g.end_time < g.time → HasEnded (finished (g, stream))
  by_failure : (g : SignalGenerator J R) (stream : S) → HasEnded (aborted (g, stream))
  by_undefined : HasEnded undefined

unfoldable pub is_finished : {A : Type 0} → Outcome A → Bool
is_finished (finished a) = true
is_finished (aborted a) = false
is_finished undefined = false
is_finished unfinished = false

rounds_left-calm :
    (s end time : ℕ)
    → 0 < s
    → time ≤ end
    → rounds_left s end (time + s) + 1 ≡ rounds_left s end time
unfolding rounds_left
rounds_left-calm s end time h k =
    omega (arith, add-mul-div_right (end + s - (time + s)) 1 h, ap (λ (x : ℕ). x / s) split)
  where
    split : end + s - time ≡ end + s - (time + s) + 1 * s
    split = omega (arith, k)

rounds_left-behind : (s time : ℕ) → 0 < s → rounds_left s time (time + s) ≡ 0
unfolding rounds_left
rounds_left-behind s time h = div-eq_of_lt (omega (arith, h))

rounds_left-at : (s time : ℕ) → 0 < s → rounds_left s time time ≡ 1
rounds_left-at s time h =
    omega (arith, rounds_left-calm s time time h (omega arith), rounds_left-behind s time h)

module _ {J R : Type 0} (tick : ℕ) where
  process_period-pass :
      (i : Interrupt) (g : SignalGenerator J R) → (pass tick i g).process_period ≡ g.process_period
  unfolding pass advance stop
  process_period-pass calm g = refl
  process_period-pass stop_before g = refl
  process_period-pass stop_after g = refl

  -- Each round leaves fewer rounds, but for a late stop.
  pass-rounds_left :
      (is : List Interrupt) (g : SignalGenerator J R)
      → 0 < step tick g.process_period
      → g.time ≤ g.end_time
      → let g' = pass tick (first_interrupt is) g in
        rounds_left (step tick g.process_period) g'.end_time g'.time
          + late_stops (later_interrupts is)
        < rounds_left (step tick g.process_period) g.end_time g.time + late_stops is
  unfolding pass advance stop late_stops add_nanoseconds
  pass-rounds_left [] g h k =
      omega (arith, rounds_left-calm (step tick g.process_period) g.end_time g.time h k)
  pass-rounds_left (calm ∷ is) g h k =
      omega (arith, rounds_left-calm (step tick g.process_period) g.end_time g.time h k)
  pass-rounds_left (stop_before ∷ is) g h k = omega (
    arith,
    rounds_left-calm (step tick g.process_period) g.end_time g.time h k,
    rounds_left-behind (step tick g.process_period) g.time h,
  )
  pass-rounds_left (stop_after ∷ is) g h k = omega (
    arith,
    rounds_left-calm (step tick g.process_period) g.end_time g.time h k,
    rounds_left-at (step tick g.process_period) (g.time + step tick g.process_period) h,
  )

module _ {J R S : Type 0} (real : Real R) (arithmetic : Arithmetic R) (tick : ℕ)
    (write_signal_data : ℕ → List ℕ → S → ℤ × S) where
  after_signals-HasEnded :
      (again : SignalGenerator J R → S → Outcome (SignalGenerator J R × S)) (interrupt : Interrupt)
      (g : SignalGenerator J R) (o : Option (ℤ × List (String × Generated J R) × S))
      → ((signals : List (String × Generated J R)) (stream : S)
          → HasEnded
              (again (pass tick interrupt (record g { generated_signals = signals })) stream))
      → HasEnded (after_signals real arithmetic tick write_signal_data again interrupt g o)
  unfolding after_signals
  after_signals-HasEnded again interrupt g none rest = by_undefined
  after_signals-HasEnded again interrupt g (some (negsuc n, signals, stream)) rest =
      by_failure (record g { generated_signals = signals }) stream
  after_signals-HasEnded again interrupt g (some (pos n, signals, stream)) rest =
      rest signals stream

  after_signals-is_finished :
      (again : SignalGenerator J R → S → Outcome (SignalGenerator J R × S))
      (g : SignalGenerator J R) (o : Option (ℤ × List (String × Generated J R) × S))
      → ((signals : List (String × Generated J R)) (stream : S)
          → is_finished (again (pass tick calm (record g { generated_signals = signals })) stream)
            ≡ false)
      → is_finished (after_signals real arithmetic tick write_signal_data again calm g o) ≡ false
  unfolding after_signals is_finished
  after_signals-is_finished again g none rest = refl
  after_signals-is_finished again g (some (negsuc n, signals, stream)) rest = refl
  after_signals-is_finished again g (some (pos n, signals, stream)) rest = rest signals stream

  -- If a round moves the time, the loop ends, whatever the signals write and whenever `stop` is called,
  -- within the rounds to the end of the run and one more for each late stop; where it ends by its
  -- test, the time is behind the end of the run.
  pub run_loop-HasEnded :
      (fuel : ℕ) (interrupts : List Interrupt) (g : SignalGenerator J R) (stream : S)
      → 0 < step tick g.process_period
      → rounds_left (step tick g.process_period) g.end_time g.time + late_stops interrupts < fuel
      → HasEnded (run_loop real arithmetic tick write_signal_data fuel interrupts g stream)
  unfolding run_loop
  run_loop-HasEnded zero interrupts g stream h k = absurd (omega (arith, k))
  run_loop-HasEnded (suc fuel) interrupts g stream h k = elim (Bool-cases (ltb g.end_time g.time)) [
    | inl e ↦ rw (run_loop, e) (by_test g stream (ground (arith, e)))
    | inr e ↦
        rw (run_loop, e)
          (after_signals-HasEnded
            (run_loop real arithmetic tick write_signal_data fuel (later_interrupts interrupts))
            (first_interrupt interrupts) g _
            (λ signals stream'.
              run_loop-HasEnded fuel (later_interrupts interrupts)
                (pass tick (first_interrupt interrupts) (record g { generated_signals = signals }))
                stream' (moves signals) (fewer signals e)))
  ]
    where
      moves :
          (signals : List (String × Generated J R))
          → 0
            < step tick
                (pass tick
                  (first_interrupt interrupts)
                  (record g { generated_signals = signals })).process_period
      moves signals =
          rw
            (process_period-pass tick (first_interrupt interrupts)
              (record g { generated_signals = signals }))
            h

      fewer :
          (signals : List (String × Generated J R))
          → ltb g.end_time g.time ≡ false
          → let g' =
              pass tick (first_interrupt interrupts) (record g { generated_signals = signals }) in
            rounds_left (step tick g'.process_period) g'.end_time g'.time
              + late_stops (later_interrupts interrupts)
            < fuel
      fewer signals e =
          rw
            (process_period-pass tick (first_interrupt interrupts)
              (record g { generated_signals = signals }))
            (omega (
              arith,
              k,
              pass-rounds_left tick interrupts (record g { generated_signals = signals }) h
                  (ground (arith, e)),
            ))

  -- Where a round does not move the time, because the period is 0 or, with a clock of microseconds,
  -- below one microsecond, a loop that is not stopped and whose end is not past never ends by its
  -- test.
  pub run_loop-is_finished :
      (fuel : ℕ) (g : SignalGenerator J R) (stream : S)
      → step tick g.process_period ≡ 0
      → g.time ≤ g.end_time
      → is_finished (run_loop real arithmetic tick write_signal_data fuel [] g stream) ≡ false
  unfolding run_loop is_finished
  run_loop-is_finished zero g stream h k = refl
  run_loop-is_finished (suc fuel) g stream h k =
      rw (run_loop, not_behind)
        (after_signals-is_finished (run_loop real arithmetic tick write_signal_data fuel []) g _
          (λ signals stream'.
            run_loop-is_finished fuel (pass tick calm (record g { generated_signals = signals }))
              stream' (unfold pass advance in h)
              (unfold pass advance add_nanoseconds in omega (arith, h, k))))
    where
      not_behind : ltb g.end_time g.time ≡ false
      not_behind = ground (arith, k)
