-- ===== src/Types/Checks.antt =====
-- lib/Types.cpp: what a parsed resolution can be.
use streaming_protocol_lt.Base.{ℕ, ◌<◌, ◌≡◌, ◌≢◌, ◌⊎◌, Bool, Option, none, some, arith}
use streaming_protocol_lt.Base.Int.{ℤ, negsuc}
use streaming_protocol_lt.Base.Result.{ok}
use streaming_protocol_lt.Real.{Real}
use streaming_protocol_lt.Json.{Json}
use streaming_protocol_lt.Types.{
  Resolution, parse_resolution, resolution_node, resolution_denominator, resolution_result,
  read_positive,
}

pub record IsPositive (r : Resolution) : Type 0 where
  pub numerator : 0 < r.numerator
  pub denominator : 0 < r.denominator

module _ {J R : Type 0} (json : Json J R) (real : Real R) where
  read_positive-pos :
      (o : Option J) (old n : ℕ) (b : Bool)
      → 0 < old
      → read_positive json real o old ≡ ok (some (n, b))
      → 0 < n
  unfolding read_positive
  read_positive-pos none old n b h e = ground arith
  read_positive-pos (some v) old n b h e = ground arith

  -- However a resolution is parsed, a fraction that has no 0 in it stays one that has none; a
  -- refused one (-1) leaves it as it was.
  pub parse_resolution-IsPositive :
      (composition : J) (r t : Resolution) (result : ℤ)
      → IsPositive r
      → parse_resolution json real composition r ≡ ok (result, t)
      → IsPositive t × ((result ≢ negsuc 0) ⊎ (t ≡ r))
  unfolding parse_resolution resolution_node resolution_denominator resolution_result read_positive
  parse_resolution-IsPositive composition r t result p e = ground arith
