-- ===== src/Base/Words/Laws.antt =====
-- Words and their bytes: reading what was written.
use Prim.Native.Nat.{ℕ, zero, suc, ◌/◌, ◌%◌, ◌^◌, ◌<◌}
use mathlib.Core.Path.{◌≡◌, refl, ap}
use mathlib.Core.List.{List, [], ◌∷◌, ◌++◌}
use native.Mathlib.Omega.{arith}
use native.Mathlib.Nat.{pow-suc}
use streaming_protocol_lt.Base.Lists.{length, take, drop}
use streaming_protocol_lt.Base.Words.{to_bytes, from_bytes}

pub length-to_bytes : (k n : ℕ) → length (to_bytes k n) ≡ k
unfolding to_bytes
length-to_bytes zero n = refl
length-to_bytes (suc k) n = ap suc (length-to_bytes k (n / 256))

pub from_bytes-to_bytes :
    (k n : ℕ) (rest : List ℕ) → n < 256 ^ k → from_bytes k (to_bytes k n ++ rest) ≡ n
unfolding to_bytes from_bytes
from_bytes-to_bytes zero n rest h = omega arith
from_bytes-to_bytes (suc k) n rest h =
    omega (arith, from_bytes-to_bytes k (n / 256) rest (omega (arith, pow-suc 256 k)))

pub drop-to_bytes : (k n : ℕ) (rest : List ℕ) → drop k (to_bytes k n ++ rest) ≡ rest
unfolding to_bytes
drop-to_bytes zero n rest = refl
drop-to_bytes (suc k) n rest = drop-to_bytes k (n / 256) rest

pub take-to_bytes : (k n : ℕ) (rest : List ℕ) → take k (to_bytes k n ++ rest) ≡ to_bytes k n
unfolding to_bytes
take-to_bytes zero n rest = refl
take-to_bytes (suc k) n rest = ap (◌∷◌ (n % 256)) (take-to_bytes k (n / 256) rest)

abbrev pub AllBelow : ℕ → List ℕ → Type 0
AllBelow m [] = Unit {0}
AllBelow m (n ∷ ns) = (n < m) × AllBelow m ns
