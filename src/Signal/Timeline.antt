-- ===== src/Signal/Timeline.antt =====
-- The time stamps of measured data under a linear domain signal.
use streaming_protocol_lt.Base.{
  ℕ, ◌+◌, ◌*◌, ◌/◌, ◌%◌, ◌^◌, ◌<◌, ◌≡◌, refl, List, [], ◌∷◌, ◌++◌, some, length, arith, ap, ◌∙◌,
  sym,
}
use native.Mathlib.Nat.{mod-add-mod, add-mod-mod, mod-add-div', add-mul-mod_self_right}
use streaming_protocol_lt.Base.Result.{ok}
use streaming_protocol_lt.Base.Words.{wrap64}
use streaming_protocol_lt.Types.{explicit, linear}
use streaming_protocol_lt.Signal.{SubscribedSignal}
use streaming_protocol_lt.Signal.Measured.{
  DataEvent, raw, values, sub64, deliver, time_stamp, process_measured_data,
}

-- a * d and (a % m) * d leave the same remainder.
mod_mul_left : (a d m : ℕ) → (a * d) % m ≡ (a % m * d) % m
mod_mul_left a d m = rw split (add-mul-mod_self_right (a % m * d) (a / m * d) m)
  where
    split : a * d ≡ a % m * d + a / m * d * m
    split = omega (arith, ap (λ (x : ℕ). x * d) (mod-add-div' a m))

sub64-add :
    (index n start : ℕ)
    → index < 2 ^ 64
    → start < 2 ^ 64
    → sub64 (wrap64 (index + n)) start ≡ wrap64 (sub64 index start + n)
sub64-add index n start hi hs = omega arith

-- Arithmetic modulo m, with the wrap taken at every step or once.
stamp_step : (time d n x m : ℕ) → (time + (x + n) % m * d) % m ≡ ((time + x * d) % m + n * d) % m
stamp_step time d n x m =
    sym (add-mod-mod time ((x + n) % m * d) m)
    ∙ ap (λ (y : ℕ). (time + y) % m) (sym (mod_mul_left (x + n) d m))
    ∙ add-mod-mod time ((x + n) * d) m
    ∙ ap (λ (y : ℕ). y % m) (regroup time x n d)
    ∙ sym (mod-add-mod (time + x * d) m (n * d))
  where
    regroup : (a b c e : ℕ) → a + (b + c) * e ≡ a + b * e + c * e
    regroup a b c e = omega arith

-- The calls that the packets should lead to: each packet is stamped with the stamp of the one
-- before it, and one delta for each value that this one held.
pub timeline : ℕ → ℕ → ℕ → ℕ → List (List ℕ) → List DataEvent
timeline number delta size stamp [] = []
timeline number delta size stamp (p ∷ ps) =
    let count = length p / size in
    raw number stamp p
    ∷ values number stamp p count
    ∷ timeline number delta size (wrap64 (stamp + count * delta)) ps

module _ {J R : Type 0} where
  -- n values later is n deltas later, modulo 2^64.
  time_stamp-add :
      (t : SubscribedSignal J R) (index n : ℕ)
      → index < 2 ^ 64
      → t.linear_value_index < 2 ^ 64
      → time_stamp t (wrap64 (index + n)) ≡ wrap64 (time_stamp t index + n * t.linear_delta)
  unfolding time_stamp
  time_stamp-add t index n hi ht =
      rw (sub64-add index n t.linear_value_index hi ht)
        (stamp_step t.time t.linear_delta n (sub64 index t.linear_value_index) (2 ^ 64))

  -- Packets one after the other, under a domain signal that stays as it is.
  pub process_packets : SubscribedSignal J R → List (List ℕ) → SubscribedSignal J R → List DataEvent
  process_packets t [] s = []
  process_packets t (p ∷ ps) s =
      let (_, s', events) = process_measured_data p (some t) s in events ++ process_packets t ps s'

  -- The signal after a packet.
  unfoldable pub advanced :
      SubscribedSignal J R → List ℕ → SubscribedSignal J R → SubscribedSignal J R
  advanced t p s = record s {
    linear_delta = t.linear_delta;
    linear_value_index = wrap64 (s.linear_value_index + length p / s.data_value_size);
  }

  pub process_packet :
      (t s : SubscribedSignal J R) (p : List ℕ)
      → t.rule_type ≡ linear
      → s.rule_type ≡ explicit
      → process_measured_data p (some t) s ≡ (
        ok (length p),
        advanced t p s,
        deliver s (time_stamp t s.linear_value_index) p (length p / s.data_value_size),
      )
  unfolding process_measured_data advanced
  process_packet t s p ht hs = rw (ht, hs) refl

  -- Under a linear domain signal the values of an explicit signal are gapless in time, over any
  -- sequence of packets: the first packet has the stamp of the signal's value index, and each
  -- following one comes one delta per delivered value later, modulo 2^64.
  pub process_packets-timeline :
      (t s : SubscribedSignal J R) (packets : List (List ℕ))
      → t.rule_type ≡ linear
      → s.rule_type ≡ explicit
      → t.linear_value_index < 2 ^ 64
      → s.linear_value_index < 2 ^ 64
      → process_packets t packets s
        ≡ timeline s.signal_number t.linear_delta s.data_value_size
            (time_stamp t s.linear_value_index)
            packets
  unfolding process_packets timeline advanced
  process_packets-timeline t s [] ht hs bt bs = refl
  process_packets-timeline t s (p ∷ ps) ht hs bt bs =
      rw (process_packet t s p ht hs, process_packets)
        (ground (
          arith,
          time_stamp-add t s.linear_value_index (length p / s.data_value_size) bs bt,
          process_packets-timeline t (advanced t p s) ps ht hs bt (omega arith),
        ))
