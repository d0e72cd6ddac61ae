-- ===== src/Generator/Produced.antt =====
-- What a synchronous generated signal has written after a number of samples.
use native.Mathlib.Nat.{mod-eq_of_lt, mod-add-mod}
use streaming_protocol_lt.Base.{
  ℕ, zero, suc, ◌+◌, ◌^◌, ◌<◌, ◌≡◌, refl, ap, sym, ◌∙◌, List, [], ◌∷◌, ◌++◌, append_assoc,
  append-nil, arith,
}
use streaming_protocol_lt.Base.Words.{wrap64}
use streaming_protocol_lt.Real.{Real}
use streaming_protocol_lt.Signal.Doubles.{packed}
use streaming_protocol_lt.Producer.Data.{add_data_synchronous}
use streaming_protocol_lt.Producer.Streaming.{keep}
use streaming_protocol_lt.Generator.Function.{Arithmetic}
use streaming_protocol_lt.Generator.Signals.{
  GeneratedSynchronous, Sampler, samples, produce_synchronous,
}
use streaming_protocol_lt.Generator.Samples.{
  samples-add, samples_fields, sample_bytes, sample_bytes-add,
}

-- All bytes of the packets.
unfoldable pub flatten : List (List ℕ) → List ℕ
flatten [] = []
flatten (p ∷ ps) = p ++ flatten ps

flatten-append : (ps : List (List ℕ)) (p : List ℕ) → flatten (ps ++ p ∷ []) ≡ flatten ps ++ p
unfolding flatten
flatten-append [] p = append-nil p
flatten-append (q ∷ ps) p =
    ap (λ r. q ++ r) (flatten-append ps p) ∙ sym (append_assoc q (flatten ps) p)

module _ {J R : Type 0} (real : Real R) (arithmetic : Arithmetic R) where
  -- The signal and its packets are those after n more samples.
  pub record HasProduced (n : ℕ) (g g' : GeneratedSynchronous J R) (log log' : List (List ℕ))
      : Type 0 where
    pub advanced : g'.sampler ≡ (samples real arithmetic n g.sampler).1
    pub counted : g'.signal.value_index ≡ wrap64 (g.signal.value_index + n)
    pub unchanged : g'.signal.value ≡ g.signal.value
    pub sent : flatten log' ≡ flatten log ++ sample_bytes real arithmetic n g.sampler

  -- What one call writes.
  pub produce-HasProduced :
      (n : ℕ) (g : GeneratedSynchronous J R) (log : List (List ℕ))
      → g.signal.value_index < 2 ^ 64
      → let r = produce_synchronous real arithmetic keep n g log in HasProduced n g r.1 log r.2
  unfolding produce_synchronous samples add_data_synchronous packed
  produce-HasProduced zero g log small = record {
    advanced = refl;
    counted = omega (arith, mod-eq_of_lt small);
    unchanged = refl;
    sent = sym (append-nil (flatten log));
  }
  produce-HasProduced (suc n) g log small = record {
    advanced = refl;
    counted =
        ap (λ (k : ℕ). wrap64 (g.signal.value_index + k))
          (samples_fields real arithmetic (suc n) g.sampler).0;
    unchanged = refl;
    sent = flatten-append log _;
  }

  -- More samples after samples.
  pub HasProduced-add :
      (m n : ℕ) (g g' g'' : GeneratedSynchronous J R) (log log' log'' : List (List ℕ))
      → HasProduced m g g' log log'
      → HasProduced n g' g'' log' log''
      → HasProduced (m + n) g g'' log log''
  HasProduced-add m n g g' g'' log log' log'' a b = record {
    advanced =
        b.advanced
        ∙ ap (λ s. (samples real arithmetic n s).1) a.advanced
        ∙ sym (ap (λ (r : List ℕ × Sampler R). r.1) (samples-add real arithmetic m n g.sampler));
    counted =
        b.counted
        ∙ ap (λ (k : ℕ). wrap64 (k + n)) a.counted
        ∙ omega (arith, mod-add-mod (g.signal.value_index + m) (2 ^ 64) n);
    unchanged = b.unchanged ∙ a.unchanged;
    sent =
        b.sent
        ∙ ap (λ (t : Sampler R). flatten log' ++ sample_bytes real arithmetic n t) a.advanced
        ∙ ap
            (λ (bytes : List ℕ).
              bytes ++ sample_bytes real arithmetic n (samples real arithmetic m g.sampler).1)
            a.sent
        ∙ append_assoc (flatten log) (sample_bytes real arithmetic m g.sampler)
            (sample_bytes real arithmetic n (samples real arithmetic m g.sampler).1)
        ∙ ap (λ (bytes : List ℕ). flatten log ++ bytes)
            (sym (sample_bytes-add real arithmetic m n g.sampler));
  }
