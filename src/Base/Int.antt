-- ===== src/Base/Int.antt =====
-- Signed machine integers: `negsuc n` is -(n + 1).
use Prim.Native.Nat.{ℕ, suc, ◌-◌, ◌%◌, ◌^◌}
use mathlib.Core.Bool.{Bool, false}
use streaming_protocol_lt.Base.Tests.{eqb}

pub data ℤ : Type 0 where
  pos : ℕ → ℤ
  negsuc : ℕ → ℤ

abbrev pub int_eqb : ℤ → ℤ → Bool
int_eqb (pos a) (pos b) = eqb a b
int_eqb (negsuc a) (negsuc b) = eqb a b
int_eqb (pos a) (negsuc b) = false
int_eqb (negsuc a) (pos b) = false

-- The conversion of an `int` to `size_t`.
abbrev pub to_size : ℤ → ℕ
to_size (pos n) = n % 2 ^ 64
to_size (negsuc n) = (2 ^ 64 - suc n % 2 ^ 64) % 2 ^ 64
