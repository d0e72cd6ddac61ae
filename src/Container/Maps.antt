-- ===== src/Container/Maps.antt =====
-- The maps and sets of the container, as association lists and lists, with their laws.
use streaming_protocol_lt.Base.{
  ℕ, ◌≡◌, refl, String, Bool, false, ◌||◌, List, [], ◌∷◌, Option, none, some, ◌==◌, eqb, eq_iff,
  if◌then◌else◌, arith,
}

module _ {V : Type 0} where
  unfoldable pub find_number : ℕ → List (ℕ × V) → Option V
  find_number k [] = none
  find_number k ((j, v) ∷ m) = if eqb j k then some v else find_number k m

  unfoldable pub put_number : ℕ → V → List (ℕ × V) → List (ℕ × V)
  put_number k v [] = (k, v) ∷ []
  put_number k v ((j, w) ∷ m) = if eqb j k then (k, v) ∷ m else (j, w) ∷ put_number k v m

  unfoldable pub erase_number : ℕ → List (ℕ × V) → List (ℕ × V)
  erase_number k [] = []
  erase_number k ((j, v) ∷ m) =
      let rest = erase_number k m in if eqb j k then rest else (j, v) ∷ rest

  unfoldable pub find_text : String → List (String × V) → Option V
  find_text k [] = none
  find_text k ((j, v) ∷ m) = if j == k then some v else find_text k m

  unfoldable pub put_text : String → V → List (String × V) → List (String × V)
  put_text k v [] = (k, v) ∷ []
  put_text k v ((j, w) ∷ m) = if j == k then (k, v) ∷ m else (j, w) ∷ put_text k v m

  unfoldable pub erase_text : String → List (String × V) → List (String × V)
  erase_text k [] = []
  erase_text k ((j, v) ∷ m) = let rest = erase_text k m in if j == k then rest else (j, v) ∷ rest

  pub find_number-put_number :
      (k j : ℕ) (v : V) (m : List (ℕ × V))
      → find_number j (put_number k v m) ≡ (if eqb k j then some v else find_number j m)
  unfolding find_number put_number
  find_number-put_number k j v [] = refl
  find_number-put_number k j v ((i, w) ∷ m) = ground (arith, find_number-put_number k j v m)

  pub find_number-erase_number :
      (k j : ℕ) (m : List (ℕ × V))
      → find_number j (erase_number k m) ≡ (if eqb k j then none else find_number j m)
  unfolding find_number erase_number
  find_number-erase_number k j [] = ground arith
  find_number-erase_number k j ((i, w) ∷ m) = ground (arith, find_number-erase_number k j m)

  pub find_text-put_text :
      (k j : String) (v : V) (m : List (String × V))
      → find_text j (put_text k v m) ≡ (if k == j then some v else find_text j m)
  unfolding find_text put_text
  find_text-put_text k j v [] = refl
  find_text-put_text k j v ((i, w) ∷ m) =
      ground (arith, eq_iff k j, eq_iff i k, eq_iff i j, find_text-put_text k j v m)

  pub find_text-erase_text :
      (k j : String) (m : List (String × V))
      → find_text j (erase_text k m) ≡ (if k == j then none else find_text j m)
  unfolding find_text erase_text
  find_text-erase_text k j [] = ground arith
  find_text-erase_text k j ((i, w) ∷ m) =
      ground (arith, eq_iff k j, eq_iff i k, eq_iff i j, find_text-erase_text k j m)

-- std::set
unfoldable pub has : ℕ → List ℕ → Bool
has k [] = false
has k (j ∷ s) = eqb j k || has k s

unfoldable pub insert : ℕ → List ℕ → List ℕ
unfolding has
insert k s = if has k s then s else k ∷ s

unfoldable pub remove : ℕ → List ℕ → List ℕ
remove k [] = []
remove k (j ∷ s) = let rest = remove k s in if eqb j k then rest else j ∷ rest

pub has-insert : (k j : ℕ) (s : List ℕ) → has j (insert k s) ≡ (eqb k j || has j s)
unfolding has insert
has-insert k j s = ground (arith)

pub has-remove : (k j : ℕ) (s : List ℕ) → has j (remove k s) ≡ (if eqb k j then false else has j s)
unfolding has remove
has-remove k j [] = ground arith
has-remove k j (i ∷ s) = ground (arith, has-remove k j s)

pub ruleset map_laws = (
  find_number-put_number, find_number-erase_number, find_text-put_text, find_text-erase_text,
  has-insert, has-remove,
)
