-- ===== src/Generator/Schedule.antt =====
-- How the calls of `process` of a synchronous generated signal divide the time among them.
use native.Mathlib.Nat.{mod-eq_of_lt, div-eq_of_lt}
use streaming_protocol_lt.Base.{
  ℕ, ◌+◌, ◌-◌, ◌*◌, ◌/◌, ◌^◌, ◌≤◌, ◌<◌, ◌≡◌, refl, ap, sym, subst, ◌∙◌, Bool, true, ◌&&◌, List, [],
  ◌∷◌, Option, none, some, arith, leb,
}
use streaming_protocol_lt.Base.Int.{ℤ}
use streaming_protocol_lt.Real.{Real}
use streaming_protocol_lt.Producer.Streaming.{keep}
use streaming_protocol_lt.Generator.Function.{Arithmetic}
use streaming_protocol_lt.Generator.Signals.{
  GeneratedSynchronous, Sampler, samples_to_process, produce_synchronous, process_synchronous,
}
use streaming_protocol_lt.Generator.Samples.{samples_fields, div-add}
use streaming_protocol_lt.Generator.Produced.{HasProduced, produce-HasProduced, HasProduced-add}

-- The times do not fall, from a first one on.
unfoldable pub ordered : ℕ → List ℕ → Bool
ordered now [] = true
ordered now (t ∷ ts) = leb now t && ordered t ts

-- The last of the times.
unfoldable pub final : ℕ → List ℕ → ℕ
final now [] = now
final now (t ∷ ts) = final t ts

le-final : (now : ℕ) (ts : List ℕ) → ordered now ts ≡ true → now ≤ final now ts
unfolding ordered final
le-final now [] h = omega arith
le-final now (t ∷ ts) h = ground (arith, le-final t ts)

due_bounds :
    (last now p : ℕ)
    → 0 < p
    → last ≤ now
    → (0 < p) × (last + (now - last) / p * p ≤ now) × (now < last + (now - last) / p * p + p)
due_bounds last now p positive h = (positive, grind arith, grind arith)

-- No sample that is due by now is missing, and none was made before it was due.
abbrev pub UpTo : {R : Type 0} → ℕ → Sampler R → Type 0
UpTo now s =
    (0 < s.sample_period)
    × (s.last_process_time ≤ now)
    × (now < s.last_process_time + s.sample_period)

module _ {J R : Type 0} (real : Real R) (arithmetic : Arithmetic R) where
  -- One call of `process` at each of the times, with a writer that keeps the packets.
  unfoldable pub process_rounds :
      List ℕ
      → GeneratedSynchronous J R
      → List (List ℕ)
      → Option (GeneratedSynchronous J R × List (List ℕ))
  unfolding process_synchronous
  process_rounds [] g log = some (g, log)
  process_rounds (t ∷ ts) g log = elim (process_synchronous real arithmetic keep t g log) [
    | none ↦ none
    | some (result, g', log') ↦ process_rounds ts g' log'
  ]

  -- A call at a time that is not before the last processed sample makes the samples that are due.
  process_due :
      (now : ℕ) (g : GeneratedSynchronous J R) (log : List (List ℕ))
      → 0 < g.sampler.sample_period
      → g.sampler.last_process_time ≤ now
      → (now - g.sampler.last_process_time) / g.sampler.sample_period < 2 ^ 32
      → process_synchronous real arithmetic keep now g log
        ≡ some (
            produce_synchronous real arithmetic keep
              ((now - g.sampler.last_process_time) / g.sampler.sample_period)
              g
              log)
  unfolding process_synchronous samples_to_process
  process_due now g log positive past small = rw (process_synchronous, due) refl
    where
      due :
          samples_to_process now g.sampler
          ≡ some ((now - g.sampler.last_process_time) / g.sampler.sample_period)
      due = ground (arith, mod-eq_of_lt small)

  rounds-HasProduced :
      (now : ℕ) (times : List ℕ) (g : GeneratedSynchronous J R) (log : List (List ℕ))
      → ordered now times ≡ true
      → UpTo now g.sampler
      → g.signal.value_index < 2 ^ 64
      → (final now times - g.sampler.last_process_time) / g.sampler.sample_period < 2 ^ 32
      → (g' : GeneratedSynchronous J R) × (log' : List (List ℕ)) × (process_rounds times g log
          ≡ some (g', log'))
        × HasProduced real arithmetic
            ((final now times - g.sampler.last_process_time) / g.sampler.sample_period)
            g
            g'
            log
            log'
        × UpTo (final now times) g'.sampler
  unfolding process_rounds ordered final
  rounds-HasProduced now [] g log h up small few = (
    g,
    log,
    refl,
    subst (λ k. HasProduced real arithmetic k g g log log) (sym none_due)
        (unfold produce_synchronous in produce-HasProduced real arithmetic 0 g log small),
    up,
  )
    where
      none_due : (now - g.sampler.last_process_time) / g.sampler.sample_period ≡ 0
      none_due = div-eq_of_lt (omega (arith, up))
  rounds-HasProduced now (t ∷ ts) g log h up small few =
      let (g', log', run, produced, upto) =
        rounds-HasProduced t ts r.1 r.2 (ground (arith, h)) up' small' few' in
      (
        g',
        log',
        stepped ∙ run,
        subst (λ k. HasProduced real arithmetic k g g' log log') (sym total)
            (HasProduced-add real arithmetic m _ g r.1 g' log r.2 log' first produced),
        upto,
      )
    where
      m : ℕ
      m = (t - g.sampler.last_process_time) / g.sampler.sample_period

      r : ℤ × GeneratedSynchronous J R × List (List ℕ)
      r = produce_synchronous real arithmetic keep m g log

      first : HasProduced real arithmetic m g r.1 log r.2
      first = produce-HasProduced real arithmetic m g log small

      not_before : now ≤ t
      not_before = ground (arith, h)

      last' :
          r.1.sampler.last_process_time ≡ g.sampler.last_process_time + m * g.sampler.sample_period
      last' =
          ap (λ (s : Sampler R). s.last_process_time) first.advanced
          ∙ (samples_fields real arithmetic m g.sampler).1

      period' : r.1.sampler.sample_period ≡ g.sampler.sample_period
      period' =
          ap (λ (s : Sampler R). s.sample_period) first.advanced
          ∙ (samples_fields real arithmetic m g.sampler).2

      total :
          (final t ts - g.sampler.last_process_time) / g.sampler.sample_period
          ≡ m + (final t ts - r.1.sampler.last_process_time) / r.1.sampler.sample_period
      total =
          rw (last', period')
            (div-add g.sampler.last_process_time t (final t ts) g.sampler.sample_period up.0
              (omega (arith, not_before)) (le-final t ts (ground (arith, h))))

      small' : r.1.signal.value_index < 2 ^ 64
      small' = rw first.counted (omega arith)

      few' : (final t ts - r.1.sampler.last_process_time) / r.1.sampler.sample_period < 2 ^ 32
      few' = omega (arith, total, few)

      up' : UpTo t r.1.sampler
      up' =
          rw (last', period')
            (due_bounds g.sampler.last_process_time t g.sampler.sample_period up.0
              (omega (arith, not_before)))

      stepped : process_rounds (t ∷ ts) g log ≡ process_rounds ts r.1 r.2
      stepped =
          rw
            (
              process_rounds,
              process_due t g log up.0 (omega (arith, not_before)) (omega (arith, total, few)),
            )
            refl

  -- If the sample period is positive, the value index has 64 bits and less than 2^32 sample periods
  -- pass in all, then, however the time is cut into rounds that do not go back, the calls of
  -- `process` produce exactly the samples that one call at the end would: the sampler ends in the same
  -- state, the packets put together are the bytes of these samples, the value index counts them, and
  -- no sample that is due by the last round is missing.
  pub process_rounds-HasProduced :
      (times : List ℕ) (g : GeneratedSynchronous J R)
      → 0 < g.sampler.sample_period
      → ordered g.sampler.last_process_time times ≡ true
      → g.signal.value_index < 2 ^ 64
      → (final g.sampler.last_process_time times - g.sampler.last_process_time)
          / g.sampler.sample_period
        < 2 ^ 32
      → let end = final g.sampler.last_process_time times in
        (g' : GeneratedSynchronous J R) × (log' : List (List ℕ)) × (process_rounds times g []
          ≡ some (g', log'))
        × HasProduced real arithmetic
            ((end - g.sampler.last_process_time) / g.sampler.sample_period)
            g
            g'
            []
            log'
        × UpTo end g'.sampler
  process_rounds-HasProduced times g positive h small few =
      rounds-HasProduced g.sampler.last_process_time times g [] h
        (positive, omega arith, omega (arith, positive)) small few
