-- ===== src/Generator/Samples.antt =====
-- The loop over the samples of a synchronous generated signal, cut into pieces.
use native.Mathlib.Nat.{add-mul-div_right}
use streaming_protocol_lt.Base.{
  ℕ, zero, suc, ◌+◌, ◌-◌, ◌*◌, ◌/◌, ◌≤◌, ◌<◌, ◌≡◌, refl, ap, sym, ◌∙◌, List, [], ◌∷◌, ◌++◌,
  append_assoc, arith, length,
}
use streaming_protocol_lt.Base.Words.{to_bytes}
use streaming_protocol_lt.Real.{Real}
use streaming_protocol_lt.Signal.Doubles.{packed}
use streaming_protocol_lt.Producer.Samples.{size_of_type}
use streaming_protocol_lt.Generator.Function.{Arithmetic, FunctionParameters}
use streaming_protocol_lt.Generator.Signals.{Sampler, sample, samples}

pub packed-append : (w : ℕ) (ms ns : List ℕ) → packed w (ms ++ ns) ≡ packed w ms ++ packed w ns
unfolding packed
packed-append w [] ns = refl
packed-append w (m ∷ ms) ns =
    ap (λ bytes. to_bytes w m ++ bytes) (packed-append w ms ns)
    ∙ sym (append_assoc (to_bytes w m) (packed w ms) (packed w ns))

module _ {R : Type 0} (real : Real R) (arithmetic : Arithmetic R) where
  -- Samples one after the other are the samples of the whole.
  pub samples-add :
      (m n : ℕ) (s : Sampler R)
      → let first = samples real arithmetic m s in
        let second = samples real arithmetic n first.1 in
        samples real arithmetic (m + n) s ≡ (first.0 ++ second.0, second.1)
  unfolding samples
  samples-add zero n s = rw (zero_add n) refl
    where
      zero_add : (k : ℕ) → 0 + k ≡ k
      zero_add k = omega arith
  samples-add (suc m) n s = rw (suc_add m n) (
      ap (λ (r : List ℕ × Sampler R). ((sample real arithmetic ◌+◌ s).0 ∷ r.0, r.1))
        (samples-add m n (sample real arithmetic ◌+◌ s).1))
    where
      suc_add : (j k : ℕ) → suc j + k ≡ suc (j + k)
      suc_add j k = omega arith

  -- What the samples leave alone, and how far they go.
  pub samples_fields :
      (n : ℕ) (s : Sampler R)
      → let s' = (samples real arithmetic n s).1 in
        (length (samples real arithmetic n s).0 ≡ n)
        × (s'.last_process_time ≡ s.last_process_time + n * s.sample_period)
        × (s'.sample_period ≡ s.sample_period)
        × (s'.parameters ≡ s.parameters)
  unfolding samples sample
  samples_fields zero s = (refl, omega arith, refl, refl)
  samples_fields (suc n) s =
      let (count, last, period, parameters) = samples_fields n (sample real arithmetic ◌+◌ s).1 in
      (ap suc count, last ∙ grind arith, period, parameters)

-- The samples between two points of time, and those between the second and a third.
pub div-add :
    (last now later p : ℕ)
    → 0 < p
    → last ≤ now
    → now ≤ later
    → let m = (now - last) / p in (later - last) / p ≡ m + (later - (last + m * p)) / p
div-add last now later p pos h k =
    omega (arith, add-mul-div_right (later - (last + m * p)) m pos, ap (λ (x : ℕ). x / p) split)
  where
    m : ℕ
    m = (now - last) / p

    split : later - last ≡ later - (last + m * p) + m * p
    split = grind arith

module _ {R : Type 0} (real : Real R) (arithmetic : Arithmetic R) where
  -- The bytes of n samples.
  abbrev pub sample_bytes : ℕ → Sampler R → List ℕ
  sample_bytes n s = packed (size_of_type s.parameters.value_type) (samples real arithmetic n s).0

  pub sample_bytes-add :
      (m n : ℕ) (s : Sampler R)
      → sample_bytes (m + n) s ≡ sample_bytes m s ++ sample_bytes n (samples real arithmetic m s).1
  sample_bytes-add m n s =
      let s' : Sampler R = (samples real arithmetic m s).1 in
      let second : List ℕ = (samples real arithmetic n s').0 in
      ap (λ (r : List ℕ × Sampler R). packed (size_of_type s.parameters.value_type) r.0)
        (samples-add real arithmetic m n s)
      ∙ packed-append (size_of_type s.parameters.value_type) (samples real arithmetic m s).0 second
      ∙ ap
          (λ (p : FunctionParameters R).
            sample_bytes m s ++ packed (size_of_type p.value_type) second)
          (sym (samples_fields real arithmetic m s).3)
