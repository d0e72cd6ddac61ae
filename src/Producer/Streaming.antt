-- ===== src/Producer/Streaming.antt =====
-- A synchronous signal and its consumer count the values alike.
use streaming_protocol_lt.Base.{
  ℕ, suc, ◌+◌, ◌*◌, ◌/◌, ◌^◌, ◌<◌, ◌≡◌, sym, ap, ◌∙◌, List, [], ◌∷◌, ◌++◌, some, length, arith,
  append_assoc, append-nil, map, length-append, subst,
}
use streaming_protocol_lt.Base.Int.{ℤ, pos}
use streaming_protocol_lt.Base.Words.{wrap64, to_bytes}
use streaming_protocol_lt.Base.Words.Laws.{length-to_bytes}
use streaming_protocol_lt.Types.{explicit, linear}
use streaming_protocol_lt.Signal.{SubscribedSignal}
use streaming_protocol_lt.Signal.Doubles.{packed}
use streaming_protocol_lt.Signal.Measured.{Processed, process_measured_data}
use streaming_protocol_lt.Signal.Timeline.{advanced, process_packet}
use native.Mathlib.Nat.{mul-div_cancel}
use streaming_protocol_lt.Wire.{type_signaldata}
use streaming_protocol_lt.Handler.Frames.{Message, AllFit}
use streaming_protocol_lt.Producer.Data.{SynchronousSignal, add_data_synchronous}

-- A writer that keeps the packets.
abbrev pub keep : ℕ → List ℕ → List (List ℕ) → ℤ × List (List ℕ)
keep number bytes log = (pos (length bytes), log ++ bytes ∷ [])

length-packed : (w : ℕ) (ns : List ℕ) → length (packed w ns) ≡ length ns * w
length-packed w [] = omega arith
length-packed w (n ∷ ns) = omega (
  arith,
  length-append (to_bytes w n) (packed w ns),
  length-to_bytes w n,
  length-packed w ns,
  product w (length ns),
)
  where
    product : (k n : ℕ) → suc n * k ≡ n * k + k
    product k n = ground arith

count-packed :
    (w size : ℕ) (ns : List ℕ) → 0 < w → size ≡ w → length (packed w ns) / size ≡ length ns
count-packed w size ns hw hd =
    ap (λ d. length (packed w ns) / d) hd
    ∙ ap (λ k. k / w) (length-packed w ns)
    ∙ mul-div_cancel (length ns) hw

-- What the signal of a number writes for a batch of values of w bytes.
abbrev pub packet : ℕ → ℕ → List ℕ → Message
packet w number ns = record { kind = type_signaldata; number = number; content = packed w ns }

-- A writer that keeps the data as messages.
abbrev pub append_message : ℕ → List ℕ → List Message → ℤ × List Message
append_message number bytes log = (
  pos (length bytes),
  log ++ record { kind = type_signaldata; number = number; content = bytes } ∷ [],
)

-- No batch is empty or longer than a header can say.
abbrev pub AllFilled : ℕ → List (List ℕ) → Type 0
AllFilled w [] = Unit {0}
AllFilled w (ns ∷ batches) = (0 < length ns) × (length ns * w < 2 ^ 32) × AllFilled w batches

packet-AllFit :
    (w number : ℕ) (batches : List (List ℕ))
    → 0 < w
    → number < 2 ^ 20
    → AllFilled w batches
    → AllFit (map (packet w number) batches)
packet-AllFit w number [] hw hn h = tt
packet-AllFit w number (ns ∷ batches) hw hn (some_value, short, h) = (
  (hn, rw (length-packed w ns) (grind (arith, hw, some_value)), rw (length-packed w ns) short),
  packet-AllFit w number batches hw hn h,
)

module _ {J R : Type 0} where
  -- The calls of addData, one for each batch of values.
  unfoldable pub add_batches :
      ℕ
      → List (List ℕ)
      → SynchronousSignal J R
      → List Message
      → SynchronousSignal J R × List Message
  unfolding add_data_synchronous
  add_batches w [] p log = (p, log)
  add_batches w (ns ∷ batches) p log =
      let (result, p', log') = add_data_synchronous append_message w ns p log in
      add_batches w batches p' log'

  -- The consumer's signal after the data of the messages, under a domain signal that stays as it is.
  unfoldable pub consume :
      SubscribedSignal J R → List Message → SubscribedSignal J R → SubscribedSignal J R
  unfolding process_measured_data
  consume t [] s = s
  consume t (m ∷ messages) s =
      let (result, s', events) = process_measured_data m.content (some t) s in consume t messages s'

  add_batches-packet :
      (w : ℕ) (batches : List (List ℕ)) (p : SynchronousSignal J R) (log : List Message)
      → (add_batches w batches p log).1 ≡ log ++ map (packet w p.value.base.signal_number) batches
  unfolding add_batches add_data_synchronous
  add_batches-packet w [] p log = sym (append-nil log)
  add_batches-packet w (ns ∷ batches) p log =
      let number : ℕ = p.value.base.signal_number in
      add_batches-packet w batches (record p { value_index = wrap64 (p.value_index + length ns) })
        (log ++ packet w number ns ∷ [])
      ∙ append_assoc log (packet w number ns ∷ []) (map (packet w number) batches)

  index-consume :
      (w : ℕ) (t s : SubscribedSignal J R) (batches : List (List ℕ)) (p : SynchronousSignal J R)
      (log : List Message)
      → t.rule_type ≡ linear
      → s.rule_type ≡ explicit
      → 0 < w
      → s.data_value_size ≡ w
      → s.linear_value_index ≡ p.value_index
      → (consume t (map (packet w p.value.base.signal_number) batches) s).linear_value_index
        ≡ (add_batches w batches p log).0.value_index
  unfolding add_batches add_data_synchronous consume advanced
  index-consume w t s [] p log ht hs hw hd hi = hi
  index-consume w t s (ns ∷ batches) p log ht hs hw hd hi =
      let number : ℕ = p.value.base.signal_number in
      ap (λ (r : Processed J R). (consume t (map (packet w number) batches) r.1).linear_value_index)
        (process_packet t s (packed w ns) ht hs)
      ∙ index-consume w t (advanced t (packed w ns) s) batches
          (record p { value_index = wrap64 (p.value_index + length ns) })
          (log ++ packet w number ns ∷ []) ht hs hw hd
          (ap wrap64 (
            ap (λ i. i + length (packed w ns) / s.data_value_size) hi
            ∙ ap (λ n. p.value_index + n) (count-packed w s.data_value_size ns hw hd)))

  -- Each batch is written as one packet under the number of the signal that the header can carry, if no
  -- batch is empty or longer than a header says and the number has 20 bits; and when the consumer's signal
  -- gets the data of these packets in order, its value index after them is that of the producer, if it was
  -- before, for an explicit signal under a linear domain signal and with values of the same size.
  pub consume-add_batches :
      (w : ℕ) (t s : SubscribedSignal J R) (batches : List (List ℕ)) (p : SynchronousSignal J R)
      → t.rule_type ≡ linear
      → s.rule_type ≡ explicit
      → 0 < w
      → s.data_value_size ≡ w
      → s.linear_value_index ≡ p.value_index
      → p.value.base.signal_number < 2 ^ 20
      → AllFilled w batches
      → let packets = (add_batches w batches p []).1 in
        (packets ≡ map (packet w p.value.base.signal_number) batches)
        × AllFit packets
        × ((consume t packets s).linear_value_index ≡ (add_batches w batches p []).0.value_index)
  consume-add_batches w t s batches p ht hs hw hd hi hn fill =
      let written = add_batches-packet w batches p [] in
      (
        written,
        subst AllFit (sym written) (packet-AllFit w p.value.base.signal_number batches hw hn fill),
        ap (λ packets. (consume t packets s).linear_value_index) written
            ∙ index-consume w t s batches p [] ht hs hw hd hi,
      )
