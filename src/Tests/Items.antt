-- ===== src/Tests/Items.antt =====
-- A JSON type with its operations, and the laws that the interface `Json` wants of them.
use streaming_protocol_lt.Base.{
  ℕ, suc, ◌%◌, ◌^◌, ◌≤◌, ◌<◌, String, ◌≡◌, refl, Bool, true, false, List, [], ◌∷◌, ◌++◌, Option,
  none, some, ◌==◌, ltb, if◌then◌else◌, arith, ap, subst, Bool-cases, inl, inr,
}
use streaming_protocol_lt.Base.Int.{ℤ, pos}
use streaming_protocol_lt.Base.Result.{Result, ok, throws, json_exception}
use streaming_protocol_lt.Json.Object.{Members, lookup}

mutual
  pub data Value : Type 0 where
    nothing : Value
    text : String → Value
    natural : ℕ → Value
    integer : ℤ → Value
    number : ℤ → Value
    object_of : Items → Value
    array_of : Items → Value

  pub data Items : Type 0 where
    end : Items
    item : String → Value → Items → Items

unfoldable pub of_members : Members Value → Items
of_members [] = end
of_members ((k, v) ∷ m) = item k v (of_members m)

unfoldable pub of_list : List Value → Items
of_list [] = end
of_list (v ∷ vs) = item "" v (of_list vs)

unfoldable pub find_item : String → Items → Option Value
find_item k end = none
find_item k (item j v rest) = if j == k then some v else find_item k rest

unfoldable pub values_of : Items → List Value
values_of end = []
values_of (item k v rest) = v ∷ values_of rest

abbrev larger : ℕ → ℕ → ℕ
larger a b = if ltb a b then b else a

unfoldable mutual
  pub depth_of : Value → ℕ
  depth_of (object_of items) = suc (items_depth items)
  depth_of (array_of items) = suc (items_depth items)
  depth_of _ = 0

  items_depth : Items → ℕ
  items_depth end = 0
  items_depth (item k v rest) = larger (depth_of v) (items_depth rest)

abbrev pub find_value : Value → String → Option Value
find_value (object_of items) k = find_item k items
find_value _ k = none

abbrev pub elements_of : Value → List Value
elements_of (array_of items) = values_of items
elements_of (object_of items) = values_of items
elements_of _ = []

abbrev pub text_of : Value → Result String
text_of (text s) = ok s
text_of _ = throws json_exception

abbrev pub nat_of : ℕ → Value → Result ℕ
nat_of w (natural n) = ok (n % 2 ^ w)
nat_of w _ = throws json_exception

abbrev pub int_of : Value → Result ℤ
int_of (integer i) = ok i
int_of (natural n) = ok (pos n)
int_of _ = throws json_exception

abbrev pub real_of : Value → Result ℤ
real_of (number i) = ok i
real_of (integer i) = ok i
real_of _ = throws json_exception

pub find_item-of_members :
    (m : Members Value) (k : String) → find_item k (of_members m) ≡ lookup k m
unfolding find_item of_members lookup
find_item-of_members [] k = refl
find_item-of_members ((j, v) ∷ m) k = rw (find_item-of_members m k) refl

pub values_of-of_list : (vs : List Value) → values_of (of_list vs) ≡ vs
unfolding values_of of_list
values_of-of_list [] = refl
values_of-of_list (v ∷ vs) = ap (λ (ws : List Value). v ∷ ws) (values_of-of_list vs)

le_larger : (a b : ℕ) → (a ≤ larger a b) × (b ≤ larger a b)
le_larger a b = ground arith

cons-head : {a b : Value} {xs ys : List Value} → a ∷ xs ≡ b ∷ ys → a ≡ b
cons-head e = ground (arith, e)

cons-tail : {a b : Value} {xs ys : List Value} → a ∷ xs ≡ b ∷ ys → xs ≡ ys
cons-tail e = ground (arith, e)

found_first :
    {A : Type 0} (b : Bool) (x v : A) (o : Option A)
    → b ≡ true
    → (if b then some x else o) ≡ some v
    → x ≡ v
found_first b x v o h e = ground (arith, h, e)

found_later :
    {A : Type 0} (b : Bool) (x v : A) (o : Option A)
    → b ≡ false
    → (if b then some x else o) ≡ some v
    → o ≡ some v
found_later b x v o h e = ground (arith, h, e)

depth-find_item :
    (items : Items) (k : String) (v : Value)
    → find_item k items ≡ some v
    → depth_of v ≤ items_depth items
unfolding find_item items_depth
depth-find_item end k v e = ground (arith, e)
depth-find_item (item j w rest) k v e = elim (Bool-cases (j == k)) [
  | inl b ↦
      subst (λ (u : Value). depth_of u ≤ larger (depth_of w) (items_depth rest))
        (found_first _ _ _ _ b e) (le_larger (depth_of w) (items_depth rest)).0
  | inr b ↦ omega (
    arith,
    depth-find_item rest k v (found_later _ _ _ _ b e),
    (le_larger (depth_of w) (items_depth rest)).1,
  )
]

depth-values_of :
    (items : Items) (v : Value) (pre suf : List Value)
    → values_of items ≡ pre ++ v ∷ suf
    → depth_of v ≤ items_depth items
unfolding values_of items_depth
depth-values_of end v [] suf e = ground (arith, e)
depth-values_of end v (p ∷ pre) suf e = ground (arith, e)
depth-values_of (item k w rest) v [] suf e =
    subst (λ (u : Value). depth_of u ≤ larger (depth_of w) (items_depth rest)) (cons-head e)
      (le_larger (depth_of w) (items_depth rest)).0
depth-values_of (item k w rest) v (p ∷ pre) suf e = omega (
  arith,
  depth-values_of rest v pre suf (cons-tail e),
  (le_larger (depth_of w) (items_depth rest)).1,
)

pub depth-find_value :
    (j : Value) (k : String) (v : Value) → find_value j k ≡ some v → depth_of v < depth_of j
unfolding depth_of
depth-find_value (object_of items) k v e = omega (arith, depth-find_item items k v e)
depth-find_value nothing k v e = ground (arith, e)
depth-find_value (text s) k v e = ground (arith, e)
depth-find_value (natural n) k v e = ground (arith, e)
depth-find_value (integer i) k v e = ground (arith, e)
depth-find_value (number i) k v e = ground (arith, e)
depth-find_value (array_of items) k v e = ground (arith, e)

absurd_elements : {A : Type 0} (v : Value) (pre suf : List Value) → [] ≡ pre ++ v ∷ suf → A
absurd_elements v [] suf e = ground (arith, e)
absurd_elements v (p ∷ pre) suf e = ground (arith, e)

pub depth-elements_of :
    (j v : Value) (pre suf : List Value) → elements_of j ≡ pre ++ v ∷ suf → depth_of v ≤ depth_of j
unfolding depth_of
depth-elements_of (object_of items) v pre suf e = omega (arith, depth-values_of items v pre suf e)
depth-elements_of (array_of items) v pre suf e = omega (arith, depth-values_of items v pre suf e)
depth-elements_of nothing v pre suf e = absurd_elements v pre suf e
depth-elements_of (text s) v pre suf e = absurd_elements v pre suf e
depth-elements_of (natural n) v pre suf e = absurd_elements v pre suf e
depth-elements_of (integer i) v pre suf e = absurd_elements v pre suf e
depth-elements_of (number i) v pre suf e = absurd_elements v pre suf e
