-- ===== src/Types.antt =====
-- include/streaming_protocol/Types.h, lib/Types.cpp, lib/Unit.cpp: the sample and rule types, and the
-- properties of a signal that are composed into its definition and parsed from it.
pub mod RoundTrip
pub mod Checks
pub mod TimeResolution
use streaming_protocol_lt.Base.{
  ℕ, String, Bool, true, false, ◌&&◌, ◌||◌, [], ◌∷◌, Option, none, some, ◌==◌, eqb, if◌then◌else◌,
}
use streaming_protocol_lt.Base.Int.{ℤ, pos, negsuc, int_eqb}
use streaming_protocol_lt.Base.Result.{Result, ok, Method, ◌>>=◌, ◌>>◌, write, if_found}
use streaming_protocol_lt.Real.{Real}
use streaming_protocol_lt.Json.{Json}
use streaming_protocol_lt.Json.Object.{Members, put}

pub data SampleType : Type 0 where
  sampletype_unknown : SampleType
  u8 s8 u16 s16 u32 s32 u64 s64 real32 real64 : SampleType
  bitfield32 bitfield64 complex32 complex64 sample_array sample_struct : SampleType

pub data RuleType : Type 0 where
  ruletype_unknown explicit constant linear : RuleType

pub record Range (R : Type 0) : Type 0 where
  pub low : R
  pub high : R

pub record PostScaling (R : Type 0) : Type 0 where
  pub offset : R
  pub scale : R

pub record Resolution : Type 0 where
  pub numerator : ℕ
  pub denominator : ℕ

pub record SignalUnit : Type 0 where
  pub id : ℤ
  pub display_name : String
  pub quantity : String

abbrev pub unit_id_none : ℤ
unit_id_none = negsuc 0

abbrev pub unit_id_seconds : ℤ
unit_id_seconds = pos 5457219

abbrev pub no_unit : SignalUnit
no_unit = record { id = unit_id_none; display_name = ""; quantity = "" }

module _ {J R : Type 0} (json : Json J R) (real : Real R) where
  open json use {from_text, from_nat, from_int, from_real, object, find, get_text, get_nat, get_int}
  open json use {get_real}

  unfoldable pub unlimited : Range R
  unlimited = record { low = real.lowest; high = real.max }

  unfoldable pub range_is_unlimited : Range R → Bool
  range_is_unlimited r = real.eq r.low real.lowest && real.eq r.high real.max

  unfoldable pub range_eq : Range R → Range R → Bool
  range_eq r other =
      real.lt (real.abs (real.sub r.low other.low)) real.epsilon
      && real.lt (real.abs (real.sub r.high other.high)) real.epsilon

  -- The four functions that compose are modelled for definitions that have no node of the name yet, as
  -- those are that the producers compose into: composition["range"]["low"] = low makes the inner object
  -- by the first of its assignments. (A node that is an object would be added to, another value throws.)
  unfoldable range_members : Range R → Members J
  range_members r =
      let low : Members J =
        if real.eq r.low real.lowest then [] else ("low", from_real r.low) ∷ [] in
      if real.eq r.high real.max then low else put "high" (from_real r.high) low

  unfoldable pub compose_range : Range R → Members J → Members J
  unfolding range_members
  compose_range r composition =
      if real.eq r.low real.lowest && real.eq r.high real.max
      then composition
      else put "range" (object (range_members r)) composition

  unfoldable pub parse_range : J → Method (Range R) (Unit {0})
  parse_range composition = if_found (find composition "range") λ node.
      if_found (find node "low") (λ v. write (get_real v) λ x r. record r { low = x })
      >> if_found (find node "high") (λ v. write (get_real v) λ x r. record r { high = x })

  unfoldable pub one_to_one : PostScaling R
  one_to_one = record { offset = real.zero; scale = real.one }

  unfoldable pub is_one_to_one : PostScaling R → Bool
  is_one_to_one p = real.eq p.offset real.zero && real.eq p.scale real.one

  unfoldable pub post_scaling_eq : PostScaling R → PostScaling R → Bool
  post_scaling_eq p other =
      real.lt (real.abs (real.sub p.offset other.offset)) real.epsilon
      && real.lt (real.abs (real.sub p.scale other.scale)) real.epsilon

  unfoldable pub compose_post_scaling : PostScaling R → Members J → Members J
  unfolding is_one_to_one
  compose_post_scaling p composition =
      if is_one_to_one p
      then composition
      else put "postScaling"
          (object (put "scale" (from_real p.scale) (put "offset" (from_real p.offset) [])))
          composition

  unfoldable pub parse_post_scaling : J → Method (PostScaling R) (Unit {0})
  parse_post_scaling composition = if_found (find composition "postScaling") λ node.
      if_found (find node "offset") (λ v. write (get_real v) λ x p. record p { offset = x })
      >> if_found (find node "scale") (λ v. write (get_real v) λ x p. record p { scale = x })

  unfoldable pub compose_resolution : Resolution → Members J → Members J
  compose_resolution r composition =
      put "resolution"
        (object (put "denom" (from_nat r.denominator) (put "num" (from_nat r.numerator) [])))
        composition

  -- A part of the resolution: absent, converted, or refused when it is 0.
  unfoldable read_positive : Option J → ℕ → Result (Option (ℕ × Bool))
  read_positive none old = ok (some (old, false))
  read_positive (some v) old = get_nat 64 v >>= λ n. ok (if eqb n 0 then none else some (n, true))

  unfoldable resolution_result : Option (ℕ × Bool) → Option (ℕ × Bool) → Resolution → ℤ × Resolution
  resolution_result (some (n, new)) (some (d, new')) r =
      (if new || new' then pos 1 else pos 0, record { numerator = n; denominator = d })
  resolution_result _ _ r = (negsuc 0, r)

  -- A numerator that is 0 is refused before the denominator is looked at.
  unfoldable resolution_denominator : Option (ℕ × Bool) → J → Resolution → Result (ℤ × Resolution)
  unfolding read_positive resolution_result
  resolution_denominator none node r = ok (negsuc 0, r)
  resolution_denominator (some n) node r =
      read_positive (find node "denom") r.denominator >>= λ d. ok (resolution_result (some n) d r)

  unfoldable resolution_node : Option J → Resolution → Result (ℤ × Resolution)
  unfolding resolution_denominator
  resolution_node none r = ok (pos 0, r)
  resolution_node (some node) r =
      read_positive (find node "num") r.numerator >>= λ n. resolution_denominator n node r

  -- -1 on error, 1 when a part was there, else 0; nothing is written on error.
  unfoldable pub parse_resolution : J → Resolution → Result (ℤ × Resolution)
  unfolding resolution_node
  parse_resolution composition r = resolution_node (find composition "resolution") r

  -- The quantity is optional.
  unfoldable unit_members : SignalUnit → Members J
  unit_members u =
      let named : Members J =
        put "displayName" (from_text u.display_name) (put "unitId" (from_int u.id) []) in
      if u.quantity == "" then named else put "quantity" (from_text u.quantity) named

  unfoldable pub compose_unit : SignalUnit → Members J → Members J
  unfolding unit_members
  compose_unit u composition =
      if int_eqb u.id unit_id_none
      then composition
      else put "unit" (object (unit_members u)) composition

  unfoldable pub parse_unit : J → Method SignalUnit (Unit {0})
  parse_unit composition = if_found (find composition "unit") λ node.
      if_found (find node "unitId") (λ v. write (get_int v) λ x u. record u { id = x })
      >> if_found (find node "displayName")
          (λ v. write (get_text v) λ x u. record u { display_name = x })
      >> if_found (find node "quantity") (λ v. write (get_text v) λ x u. record u { quantity = x })
