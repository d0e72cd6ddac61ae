-- ===== src/Types/RoundTrip.antt =====
-- lib/Types.cpp, lib/Unit.cpp: what is composed into a definition is what the parser reads from it.
use streaming_protocol_lt.Base.{
  ℕ, ◌<◌, ◌^◌, ◌≡◌, inl, inr, false, none, arith, ◌==◌, eqb, eq_iff, if◌then◌else◌, Bool-cases,
}
use streaming_protocol_lt.Base.Int.{pos, int_eqb}
use streaming_protocol_lt.Base.Result.{ok}
use streaming_protocol_lt.Real.{Real}
use streaming_protocol_lt.Json.{Json}
use streaming_protocol_lt.Json.Object.{Members, lookup, lookup-put}
use streaming_protocol_lt.Types.{
  Range, PostScaling, Resolution, SignalUnit, no_unit, unit_id_none, unlimited, compose_range,
  parse_range, one_to_one, is_one_to_one, compose_post_scaling, parse_post_scaling,
  compose_resolution, parse_resolution, compose_unit, parse_unit,
}

module _ {J R : Type 0} (json : Json J R) (real : Real R) where
  -- Parsing a composed range into an unlimited one gives the range back, each limit that equals its
  -- default being the default itself, if the definition holds no other range.
  pub parse_range-compose_range :
      (r : Range R) (m : Members J)
      → lookup "range" m ≡ none
      → parse_range json real (json.object (compose_range json real r m)) (unlimited json real) ≡ (
        ok tt,
        record {
          low = if real.eq r.low real.lowest then real.lowest else r.low;
          high = if real.eq r.high real.max then real.max else r.high;
        },
      )
  unfolding parse_range compose_range unlimited lookup
  parse_range-compose_range r m h = elim (Bool-cases (real.eq r.low real.lowest)) [
    | inl a ↦ elim (Bool-cases (real.eq r.high real.max)) [
      | inl b ↦ simp (a, b, json.find-object, h)
      | inr b ↦ simp (a, b, json.find-object, lookup-put, json.get_real-real)
    ]
    | inr a ↦ elim (Bool-cases (real.eq r.high real.max)) [
      | inl b ↦ simp (a, b, json.find-object, lookup-put, json.get_real-real)
      | inr b ↦ simp (a, b, json.find-object, lookup-put, json.get_real-real)
    ]
  ]

  -- Parsing a composed post scaling into one that is one to one gives it back, or the one to one
  -- scaling itself for one that equals it, if the definition holds no other post scaling.
  pub parse_post_scaling-compose_post_scaling :
      (p : PostScaling R) (m : Members J)
      → lookup "postScaling" m ≡ none
      → parse_post_scaling json real
          (json.object (compose_post_scaling json real p m))
          (one_to_one json real)
        ≡ (ok tt, if is_one_to_one json real p then one_to_one json real else p)
  unfolding parse_post_scaling compose_post_scaling one_to_one
  parse_post_scaling-compose_post_scaling p m h = elim (Bool-cases (is_one_to_one json real p)) [
    | inl a ↦ simp (a, json.find-object, h)
    | inr a ↦ simp (a, json.find-object, lookup-put, json.get_real-real)
  ]

  -- Parsing a composed resolution gives it back and reports the change, whatever the resolution was
  -- that is parsed into, if both parts are positive 64 bit numbers and the definition holds no other
  -- resolution.
  pub parse_resolution-compose_resolution :
      (r old : Resolution) (m : Members J)
      → lookup "resolution" m ≡ none
      → (0 < r.numerator) × (r.numerator < 2 ^ 64)
      → (0 < r.denominator) × (r.denominator < 2 ^ 64)
      → parse_resolution json real (json.object (compose_resolution json real r m)) old
        ≡ ok (pos 1, r)
  unfolding parse_resolution compose_resolution
  parse_resolution-compose_resolution r old m _ (n0, n1) (d0, d1) = simp (
    json.find-object,
    lookup-put,
    json.get_nat-nat 64 r.numerator n1,
    json.get_nat-nat 64 r.denominator d1,
    positive r.numerator n0,
    positive r.denominator d0,
  )
    where
      positive : (k : ℕ) → 0 < k → eqb k 0 ≡ false
      positive k h = ground arith

  -- Parsing a composed unit into no unit gives it back, or no unit for one without an id, if the
  -- definition holds no other unit.
  pub parse_unit-compose_unit :
      (u : SignalUnit) (m : Members J)
      → lookup "unit" m ≡ none
      → parse_unit json real (json.object (compose_unit json real u m)) no_unit
        ≡ (ok tt, if int_eqb u.id unit_id_none then no_unit else u)
  unfolding parse_unit compose_unit lookup
  parse_unit-compose_unit u m h = elim (Bool-cases (int_eqb u.id unit_id_none)) [
    | inl a ↦ simp (a, json.find-object, h)
    | inr a ↦ elim (Bool-cases (u.quantity == "")) [
      | inl b ↦
          simp (a, b, json.find-object, lookup-put, json.get_text-text, json.get_int-int)
            (ground (arith, (eq_iff u.quantity "").0 b))
      | inr b ↦ simp (a, b, json.find-object, lookup-put, json.get_text-text, json.get_int-int)
    ]
  ]
