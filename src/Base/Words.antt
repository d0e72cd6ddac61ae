-- ===== src/Base/Words.antt =====
-- Machine words as native numbers, and their bytes in memory, least significant first.
pub mod Laws
use Prim.Native.Nat.{ℕ, zero, suc, ◌+◌, ◌*◌, ◌/◌, ◌%◌, ◌^◌}
use mathlib.Core.List.{List, [], ◌∷◌}

abbrev pub wrap32 : ℕ → ℕ
wrap32 n = n % 2 ^ 32

abbrev pub wrap64 : ℕ → ℕ
wrap64 n = n % 2 ^ 64

-- The k bytes that memcpy reads from a word on a little-endian host.
unfoldable pub to_bytes : ℕ → ℕ → List ℕ
to_bytes zero n = []
to_bytes (suc k) n = n % 256 ∷ to_bytes k (n / 256)

-- The word that memcpy writes from k bytes; bytes that are not there read as 0.
unfoldable pub from_bytes : ℕ → List ℕ → ℕ
from_bytes zero bs = 0
from_bytes (suc k) [] = 0
from_bytes (suc k) (b ∷ bs) = b + from_bytes k bs * 256
