-- ===== src/Producer/Composed.antt =====
-- Composing the unit, the range and the post scaling of a definition leaves its other members.
use streaming_protocol_lt.Base.{String, ◌≡◌, refl, ◌∙◌, false, Bool-cases, inl, inr, ◌==◌}
use streaming_protocol_lt.Base.Int.{int_eqb}
use streaming_protocol_lt.Real.{Real}
use streaming_protocol_lt.Json.{Json}
use streaming_protocol_lt.Json.Object.{Members, lookup, lookup-put}
use streaming_protocol_lt.Types.{
  Range, PostScaling, SignalUnit, unit_id_none, is_one_to_one, compose_unit, compose_range,
  compose_post_scaling,
}

module _ {J R : Type 0} (json : Json J R) (real : Real R) where
  -- Composing a part leaves the other members.
  pub lookup-compose_unit :
      (k : String) (u : SignalUnit) (m : Members J)
      → "unit" == k ≡ false
      → lookup k (compose_unit json real u m) ≡ lookup k m
  unfolding compose_unit
  lookup-compose_unit k u m h = elim (Bool-cases (int_eqb u.id unit_id_none)) [
    | inl e ↦ rw e refl
    | inr e ↦ simp (e, lookup-put, h)
  ]

  pub lookup-compose_range :
      (k : String) (r : Range R) (m : Members J)
      → "range" == k ≡ false
      → lookup k (compose_range json real r m) ≡ lookup k m
  unfolding compose_range
  lookup-compose_range k r m h = elim (Bool-cases (real.eq r.low real.lowest)) [
    | inl a ↦ elim (Bool-cases (real.eq r.high real.max)) [
      | inl b ↦ simp (a, b)
      | inr b ↦ simp (a, b, lookup-put, h)
    ]
    | inr a ↦ elim (Bool-cases (real.eq r.high real.max)) [
      | inl b ↦ simp (a, b, lookup-put, h)
      | inr b ↦ simp (a, b, lookup-put, h)
    ]
  ]

  pub lookup-compose_post_scaling :
      (k : String) (p : PostScaling R) (m : Members J)
      → "postScaling" == k ≡ false
      → lookup k (compose_post_scaling json real p m) ≡ lookup k m
  unfolding compose_post_scaling
  lookup-compose_post_scaling k p m h = elim (Bool-cases (is_one_to_one json real p)) [
    | inl e ↦ simp (e)
    | inr e ↦ simp (e, lookup-put, h)
  ]

  pub lookup-composed :
      (k : String) (u : SignalUnit) (r : Range R) (p : PostScaling R) (m : Members J)
      → "unit" == k ≡ false
      → "range" == k ≡ false
      → "postScaling" == k ≡ false
      → lookup k (
          compose_post_scaling json real p (compose_range json real r (compose_unit json real u m)))
        ≡ lookup k m
  lookup-composed k u r p m h i j =
      lookup-compose_post_scaling k p _ j
      ∙ lookup-compose_range k r _ i
      ∙ lookup-compose_unit k u m h
