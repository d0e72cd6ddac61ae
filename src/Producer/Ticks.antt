-- ===== src/Producer/Ticks.antt =====
-- `BaseDomainSignal::nanosecondsFromTimeTicks` of lib/BaseDomainSignal.cpp.
use native.Mathlib.Nat.{mod-eq_of_lt, mod-lt, add-mul-div_right, div-lt_iff_lt-mul, mod-add-div'}
use streaming_protocol_lt.Base.{ℕ, ◌+◌, ◌*◌, ◌/◌, ◌%◌, ◌^◌, ◌<◌, ◌≤◌, ◌≡◌, arith, ap}
use streaming_protocol_lt.Base.Words.{wrap64}

-- Unsigned 64 bit numbers wrap; the result is read as a signed one by the caller.
unfoldable pub nanoseconds_from_time_ticks : ℕ → ℕ → ℕ
nanoseconds_from_time_ticks ticks per_second =
    let seconds : ℕ = ticks / per_second in
    let sub_ticks : ℕ = wrap64 (ticks % per_second * 1000000000) / per_second in
    wrap64 (wrap64 (seconds * 1000000000) + sub_ticks)

-- The nanoseconds of a time are its ticks times 10^9 divided by the ticks of a second, rounded down,
-- as long as a second has at most 2^64 / 10^9 ticks and the result fits 63 bits with a second to
-- spare.
pub nanoseconds_from_time_ticks-exact :
    (ticks per_second : ℕ)
    → 0 < per_second
    → per_second * 1000000000 ≤ 2 ^ 64
    → ticks / per_second * 1000000000 + 1000000000 ≤ 2 ^ 63
    → nanoseconds_from_time_ticks ticks per_second ≡ ticks * 1000000000 / per_second
unfolding nanoseconds_from_time_ticks
nanoseconds_from_time_ticks-exact ticks per_second pos fine short = rw (mod-eq_of_lt product) (
    omega (
      arith,
      below,
      add-mul-div_right (ticks % per_second * 1000000000) (ticks / per_second * 1000000000) pos,
      ap (λ (x : ℕ). x / per_second) split,
    ))
  where
    product : ticks % per_second * 1000000000 < 2 ^ 64
    product = omega (arith, mod-lt ticks pos)

    below : ticks % per_second * 1000000000 / per_second < 1000000000
    below = (div-lt_iff_lt-mul pos).1 (omega (arith, mod-lt ticks pos))

    split :
        ticks % per_second * 1000000000 + ticks / per_second * 1000000000 * per_second
        ≡ ticks * 1000000000
    split = omega (arith, ap (λ (x : ℕ). x * 1000000000) (mod-add-div' ticks per_second))
