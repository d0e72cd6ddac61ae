-- ===== src/Json/Object.antt =====
-- The members of a JSON object that is being built, as `std::map<std::string, json>`.
use streaming_protocol_lt.Base.{
  String, ◌≡◌, refl, List, [], ◌∷◌, Option, none, some, ◌==◌, eq_iff, arith, if◌then◌else◌,
}

abbrev pub Members : Type 0 → Type 0
Members J = List (String × J)

module _ {J : Type 0} where
  unfoldable pub lookup : String → Members J → Option J
  lookup k [] = none
  lookup k ((j, v) ∷ m) = if j == k then some v else lookup k m

  -- m[k] = v
  unfoldable pub put : String → J → Members J → Members J
  put k v [] = (k, v) ∷ []
  put k v ((j, w) ∷ m) = if j == k then (k, v) ∷ m else (j, w) ∷ put k v m

  pub lookup-put :
      (k j : String) (v : J) (m : Members J)
      → lookup j (put k v m) ≡ (if k == j then some v else lookup j m)
  unfolding lookup put
  lookup-put k j v [] = refl
  lookup-put k j v ((i, w) ∷ m) =
      ground (arith, eq_iff k j, eq_iff i k, eq_iff i j, lookup-put k j v m)
