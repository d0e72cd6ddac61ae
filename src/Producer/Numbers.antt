-- ===== src/Producer/Numbers.antt =====
-- `BaseSignal::nextSignalNumber` of lib/BaseSignal.cpp.
use Prim.Native.Nat.{bit_and}
use streaming_protocol_lt.Base.{ℕ, suc, ◌^◌, ◌<◌, ◌≡◌, eqb, if◌then◌else◌, arith}
use streaming_protocol_lt.Base.Bits.{bit_and_mask}
use streaming_protocol_lt.Base.Words.{wrap32}
use streaming_protocol_lt.Wire.{signal_number_mask}

-- The counter after the call. A counter that stands for number 0 is passed over.
unfoldable pub next_counter : ℕ → ℕ
next_counter counter =
    let next : ℕ = wrap32 (suc counter) in
    if eqb (bit_and next signal_number_mask) 0 then wrap32 (suc next) else next

-- What is returned.
unfoldable pub number_of : ℕ → ℕ
number_of counter = bit_and counter signal_number_mask

-- Every signal number fits its 20 bits and is not 0, which is reserved for the stream, and the
-- numbers go round: each is the one before it plus 1, and the largest one is followed by 1.
pub number_of-next_counter :
    (counter : ℕ)
    → counter < 2 ^ 32
    → let number = number_of (next_counter counter) in
      (0 < number)
      × (number < 2 ^ 20)
      × (number ≡ (if eqb (number_of counter) 0xfffff then 1 else suc (number_of counter)))
      × (next_counter counter < 2 ^ 32)
unfolding number_of next_counter
number_of-next_counter counter h = ground (
  arith,
  bit_and_mask 20 counter,
  bit_and_mask 20 (wrap32 (suc counter)),
  bit_and_mask 20 (wrap32 (suc (wrap32 (suc counter)))),
)
