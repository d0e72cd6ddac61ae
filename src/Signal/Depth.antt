-- ===== src/Signal/Depth.antt =====
-- `getDataTypeSize` of lib/SubscribedSignal.cpp ends: it only goes into members of a definition, so
-- the depth of the definition is enough fuel.
use streaming_protocol_lt.Base.{
  ℕ, zero, suc, ◌+◌, ◌*◌, ◌<◌, ◌≡◌, refl, String, List, [], ◌∷◌, ◌++◌, Option, none, some, ◌==◌,
  arith, Bool-cases, Option-cases, inl, inr, append_assoc, sym, ◌∙◌,
}
use streaming_protocol_lt.Base.Result.{Result, ok, fails, throws, aborts, ◌>>=◌}
use streaming_protocol_lt.Base.Words.{wrap64}
use streaming_protocol_lt.Json.{Json, index}
use streaming_protocol_lt.Signal.DataType.{
  scalar_size, struct_size, composite_size, named_size, typed_size, dimension_count, data_type_size,
}

bind-ext :
    {A B : Type 0} (r : Result A) (f g : A → Result B)
    → ((a : A) → r ≡ ok a → f a ≡ g a)
    → (r >>= f) ≡ (r >>= g)
bind-ext (ok a) f g h = h a refl
bind-ext fails f g h = refl
bind-ext (throws e) f g h = refl
bind-ext aborts f g h = refl

module _ {J R : Type 0} (json : Json J R) where
  -- Two ways to measure that agree on everything that is nested less deep than d.
  abbrev Agree : ℕ → (J → Result ℕ) → (J → Result ℕ) → Type 0
  Agree d s t = (v : J) → json.depth v < d → s v ≡ t v

  index-depth :
      (node sub : J) (k : String) → index json node k ≡ ok sub → json.depth sub < json.depth node
  index-depth node sub k e = elim (Bool-cases (json.is_object node)) [
    | inl b ↦ elim (Option-cases (json.find node k)) [
      | inl n ↦ ground (arith, b, n, e)
      | inr (v, q) ↦ ground (arith, b, q, e, json.depth-find node k v q)
    ]
    | inr b ↦ ground (arith, b, e)
  ]

  struct_size-Agree :
      (s t : J → Result ℕ) (sub : J) (d count sum : ℕ) (pre rest : List J)
      → Agree d s t
      → json.depth sub < d
      → json.elements sub ≡ pre ++ rest
      → struct_size json s count sum rest ≡ struct_size json t count sum rest
  unfolding struct_size
  struct_size-Agree s t sub d count sum pre [] a h e = refl
  struct_size-Agree s t sub d count sum pre (v ∷ rest) a h e =
      rw (a v (omega (arith, h, json.depth-elements sub v pre rest e))) (
        bind-ext (t v) _ _ λ n q.
          struct_size-Agree s t sub d count (wrap64 (sum + wrap64 (n * count))) (pre ++ v ∷ []) rest
            a h (e ∙ sym (append_assoc pre (v ∷ []) rest)))

  composite_size-Agree :
      (s t : J → Result ℕ) (node : J) (name : String) (count : ℕ)
      → Agree (json.depth node) s t
      → composite_size json s name node count ≡ composite_size json t name node count
  unfolding composite_size
  composite_size-Agree s t node name count a = elim (Bool-cases (name == "bitField")) [
    | inl b ↦
        rw b (bind-ext (index json node "bitField") _ _ λ sub q. rw (inside "bitField" sub q) refl)
    | inr b ↦ elim (Bool-cases (name == "array")) [
      | inl c ↦
          rw (b, c) (bind-ext (index json node "array") _ _ λ sub q. rw (inside "array" sub q) refl)
      | inr c ↦ elim (Bool-cases (name == "struct")) [
        | inl d ↦
            rw (b, c, d)
              (bind-ext (index json node "struct") _ _ λ sub q.
                struct_size-Agree s t sub (json.depth node) count 0 [] (json.elements sub) a
                  (index-depth node sub "struct" q) refl)
        | inr d ↦ rw (b, c, d) refl
      ]
    ]
  ]
    where
      inside : (k : String) (sub : J) → index json node k ≡ ok sub → s sub ≡ t sub
      inside k sub q = a sub (index-depth node sub k q)

  named_size-Agree :
      (s t : J → Result ℕ) (node : J) (name : String) (count : ℕ)
      → Agree (json.depth node) s t
      → named_size json s name node count ≡ named_size json t name node count
  unfolding named_size
  named_size-Agree s t node name count a = scalar_or_not (scalar_size name)
    where
      sized : (J → Result ℕ) → Option ℕ → Result ℕ
      sized r none = composite_size json r name node count
      sized r (some n) = ok (wrap64 (n * count))

      scalar_or_not : (o : Option ℕ) → sized s o ≡ sized t o
      scalar_or_not none = composite_size-Agree s t node name count a
      scalar_or_not (some n) = refl

  typed_size-Agree :
      (s t : J → Result ℕ) (node : J) (type : Option J) (count : Option ℕ)
      → Agree (json.depth node) s t
      → typed_size json s type node count ≡ typed_size json t type node count
  unfolding typed_size
  typed_size-Agree s t node none none a = refl
  typed_size-Agree s t node (some type) none a = refl
  typed_size-Agree s t node none (some count) a = refl
  typed_size-Agree s t node (some type) (some count) a =
      bind-ext (json.get_text type) _ _ λ name q. named_size-Agree s t node name count a

  -- With any fuel above the depth of a definition its size comes out the same, so the fuel that the
  -- model gives, one more than the depth, is enough.
  pub data_type_size-depth :
      (fuel more : ℕ) (node : J)
      → json.depth node < fuel
      → json.depth node < more
      → data_type_size json fuel node ≡ data_type_size json more node
  unfolding data_type_size
  data_type_size-depth zero more node h k = absurd (omega (arith, h))
  data_type_size-depth (suc fuel) zero node h k = absurd (omega (arith, k))
  data_type_size-depth (suc fuel) (suc more) node h k =
      bind-ext (dimension_count json node) _ _ λ count q.
        typed_size-Agree (data_type_size json fuel) (data_type_size json more) node
          (json.find node "dataType") count
          (λ v l. data_type_size-depth fuel more v (omega (arith, h, l)) (omega (arith, k, l)))
