-- ===== src/Base/Bits.antt =====
-- Masks and shifts as arithmetic, at every width: `&` with ones, `&` with a shifted mask, and `|`
-- of fields that do not overlap.
use Prim.Native.Nat.{
  ℕ, zero, suc, ◌+◌, ◌*◌, ◌/◌, ◌%◌, ◌^◌, ◌-◌, ◌≤◌, ◌<◌, min, max, bit_and, bit_or, digits,
  bit_and-bitwise, bit_or-bitwise,
}
use mathlib.Core.Path.{◌≡◌, refl, ap, ◌∙◌}
use native.Mathlib.Nat.{pow-suc, one-le-pow}
use native.Mathlib.Omega.{arith}

-- Both operations are one recursion, on a count of digits that is large enough. What it gives does
-- not depend on the count.
module _ (rest : ℕ → ℕ) (join : ℕ → ℕ → ℕ) where
  abbrev by_digits : ℕ → ℕ → ℕ → ℕ
  by_digits count a b = digits rest join count a b

  ended : (count b : ℕ) → by_digits count 0 b ≡ rest b
  ended zero b = refl
  ended (suc count) b = refl

  one_more : (count a b : ℕ) → a ≤ count → by_digits (suc count) a b ≡ by_digits count a b
  one_more count zero b small = omega (arith, ended count b)
  one_more zero (suc a) b small = absurd (omega arith)
  one_more (suc count) (suc a) b small =
      omega (arith, one_more count (suc a / 2) (b / 2) (omega arith))

  spare : (extra a b : ℕ) → by_digits (a + extra) a b ≡ by_digits a a b
  spare zero a b = ap (λ (count : ℕ). by_digits count a b) (omega arith)
  spare (suc extra) a b =
      ap (λ (count : ℕ). by_digits count a b) (next a extra)
      ∙ one_more (a + extra) a b (omega arith)
      ∙ spare extra a b
    where
      next : (m n : ℕ) → m + suc n ≡ suc (m + n)
      next m n = omega arith

  by_digits-suc :
      (a b : ℕ)
      → by_digits (suc a) (suc a) b
        ≡ join (suc a % 2) (b % 2) + 2 * by_digits (suc a / 2) (suc a / 2) (b / 2)
  by_digits-suc a b = omega (
    arith,
    spare (a - suc a / 2) (suc a / 2) (b / 2),
    ap (λ (count : ℕ). by_digits count (suc a / 2) (b / 2)) (filled a),
  )
    where
      filled : (n : ℕ) → suc n / 2 + (n - suc n / 2) ≡ n
      filled n = omega arith

-- The lowest digit of each operation.
and_lowest : (a b : ℕ) → bit_and a b ≡ min (a % 2) (b % 2) + 2 * bit_and (a / 2) (b / 2)
and_lowest zero b = omega (arith, bit_and-bitwise 0 b, bit_and-bitwise 0 (b / 2))
and_lowest (suc a) b = omega (
  arith,
  by_digits-suc (λ _. zero) min a b,
  bit_and-bitwise (suc a) b,
  bit_and-bitwise (suc a / 2) (b / 2),
)

or_lowest : (a b : ℕ) → bit_or a b ≡ max (a % 2) (b % 2) + 2 * bit_or (a / 2) (b / 2)
or_lowest zero b = omega (arith, bit_or-bitwise 0 b, bit_or-bitwise 0 (b / 2))
or_lowest (suc a) b = omega (
  arith,
  by_digits-suc (λ n. n) max a b,
  bit_or-bitwise (suc a) b,
  bit_or-bitwise (suc a / 2) (b / 2),
)

zero-bit_or : (b : ℕ) → bit_or 0 b ≡ b
zero-bit_or b = bit_or-bitwise 0 b

-- A second number that is 0.
without : (bound a : ℕ) → a ≤ bound → (bit_and a 0 ≡ 0) × (bit_or a 0 ≡ a)
without bound zero small = (refl, refl)
without zero (suc a) small = absurd (omega arith)
without (suc bound) (suc a) small =
    let (none, same) = without bound (suc a / 2) (omega arith) in
    (omega (arith, none, and_lowest (suc a) 0), omega (arith, same, or_lowest (suc a) 0))

-- A field above k + 1 bits, one bit lower.
scale_next : (k field : ℕ) → field * 2 ^ suc k ≡ 2 * (field * 2 ^ k)
scale_next k field = omega (arith, ap (◌*◌ field) (pow-suc 2 k))

-- `a | (b << k)` is a sum when `a` fits k bits.
pub bit_or_fields : (k a b : ℕ) → a < 2 ^ k → bit_or a (b * 2 ^ k) ≡ a + b * 2 ^ k
bit_or_fields zero zero b h = omega (arith, zero-bit_or (b * 1))
bit_or_fields zero (suc a) b h = absurd (omega arith)
bit_or_fields (suc k) a b h = omega (
  arith,
  or_lowest a (b * 2 ^ suc k),
  scale_next k b,
  pow-suc 2 k,
  ap (λ (t : ℕ). bit_or (a / 2) (t / 2)) (scale_next k b),
  ap (λ (t : ℕ). bit_or (a / 2) t) (half_double (b * 2 ^ k)),
  bit_or_fields k (a / 2) b (omega (arith, pow-suc 2 k)),
)
  where
    half_double : (n : ℕ) → 2 * n / 2 ≡ n
    half_double n = omega arith

bit_and_mask_fields : (k q r : ℕ) → r < 2 ^ k → bit_and (q * 2 ^ k + r) (2 ^ k - 1) ≡ r
bit_and_mask_fields zero q r h = omega (arith, (without (q * 1 + r) (q * 1 + r) (omega arith)).0)
bit_and_mask_fields (suc k) q r h = ground (
  arith,
  and_lowest (q * 2 ^ suc k + r) (2 ^ suc k - 1),
  scale_next k q,
  pow-suc 2 k,
  one-le-pow k 2,
  bit_and_mask_fields k q (r / 2) (omega (arith, pow-suc 2 k)),
)

-- `a & (2^k - 1)` is the remainder.
pub bit_and_mask : (k a : ℕ) → bit_and a (2 ^ k - 1) ≡ a % 2 ^ k
bit_and_mask k a = ground (arith, one-le-pow k 2, bit_and_mask_fields k (a / 2 ^ k) (a % 2 ^ k))

bit_and_shifted_fields :
    (k q r m : ℕ) → r < 2 ^ k → bit_and (q * 2 ^ k + r) (m * 2 ^ k) ≡ bit_and q m * 2 ^ k
bit_and_shifted_fields zero q r m h = ground arith
bit_and_shifted_fields (suc k) q r m h = ground (
  arith,
  and_lowest (q * 2 ^ suc k + r) (m * 2 ^ suc k),
  scale_next k q,
  scale_next k m,
  scale_next k (bit_and q m),
  pow-suc 2 k,
  bit_and_shifted_fields k q (r / 2) m (omega (arith, pow-suc 2 k)),
)

-- `a & (m << k)` reads the field above bit k.
pub bit_and_shifted : (k a m : ℕ) → bit_and a (m * 2 ^ k) ≡ bit_and (a / 2 ^ k) m * 2 ^ k
bit_and_shifted k a m =
    ground (arith, one-le-pow k 2, bit_and_shifted_fields k (a / 2 ^ k) (a % 2 ^ k) m)

-- `(a << k) | b` is a sum when `b` fits k bits.
pub bit_or_low : (k a b : ℕ) → b < 2 ^ k → bit_or (a * 2 ^ k) b ≡ a * 2 ^ k + b
bit_or_low zero a zero h = omega (arith, (without (a * 1) (a * 1) (omega arith)).1)
bit_or_low zero a (suc b) h = absurd (omega arith)
bit_or_low (suc k) a b h = ground (
  arith,
  or_lowest (a * 2 ^ suc k) b,
  scale_next k a,
  pow-suc 2 k,
  bit_or_low k a (b / 2) (omega (arith, pow-suc 2 k)),
)

-- The low bits of the left side stay; above them the fields are joined.
pub bit_or_above :
    (k a b r : ℕ) → r < 2 ^ k → bit_or (a * 2 ^ k + r) (b * 2 ^ k) ≡ bit_or a b * 2 ^ k + r
bit_or_above zero a b r h = ground arith
bit_or_above (suc k) a b r h = ground (
  arith,
  or_lowest (a * 2 ^ suc k + r) (b * 2 ^ suc k),
  scale_next k a,
  scale_next k b,
  scale_next k (bit_or a b),
  pow-suc 2 k,
  bit_or_above k a b (r / 2) (omega (arith, pow-suc 2 k)),
)
