-- ===== src/Json.antt =====
-- nlohmann::json, a parameter of the model: what the program calls of it, and the documented
-- behaviour that the theorems use. `J` is the type of its values, `R` the type `double`. An object
-- that the program builds by `j[key] = value` is the `std::map` of its members, an association list.
use streaming_protocol_lt.Base.{
  ℕ, ◌<◌, ◌≤◌, ◌^◌, String, ◌≡◌, ◌≢◌, Bool, true, false, List, [], ◌∷◌, Option, none, some, ◌++◌,
  if◌then◌else◌,
}
use streaming_protocol_lt.Base.Int.{ℤ}
use streaming_protocol_lt.Base.Result.{Result, ok, fails, throws, aborts, json_exception}
pub mod Object
use Object.{Members, lookup}

pub record Json (J R : Type 0) : Type 0 where
  pub null : J
  pub from_text : String → J
  pub from_nat : ℕ → J
  pub from_int : ℤ → J
  pub from_real : R → J
  pub object : Members J → J
  pub array : List J → J
  pub is_null : J → Bool
  pub is_string : J → Bool
  pub is_number : J → Bool
  pub is_array : J → Bool
  pub is_object : J → Bool
  -- `end()` of a value that is no object, or has no such member, is `none`.
  pub find : J → String → Option J
  -- What a range-for goes through.
  pub elements : J → List J
  -- The implicit conversions; the unsigned one is to a type of the given number of bits.
  pub get_text : J → Result String
  pub get_nat : ℕ → J → Result ℕ
  pub get_int : J → Result ℤ
  pub get_real : J → Result R
  -- `j[key]` of a variable value: the member, made null when it is not there, and the value with it.
  pub index_or_insert : J → String → Result (J × J)
  pub dump : J → String
  pub to_msgpack : J → List ℕ
  pub from_msgpack : List ℕ → Option J
  pub parse : String → Option J
  -- How deep values are nested.
  pub depth : J → ℕ
  pub find-object : (m : Members J) (k : String) → find (object m) k ≡ lookup k m
  pub is_object-object : (m : Members J) → is_object (object m) ≡ true
  pub is_null-object : (m : Members J) → is_null (object m) ≡ false
  pub is_null-null : is_null null ≡ true
  pub find-null : (k : String) → find null k ≡ none
  pub is_array-array : (js : List J) → is_array (array js) ≡ true
  pub is_null-array : (js : List J) → is_null (array js) ≡ false
  pub elements-array : (js : List J) → elements (array js) ≡ js
  -- Of an object the values.
  pub elements-member : (k : String) (v : J) → elements (object ((k, v) ∷ [])) ≡ v ∷ []
  pub is_string-text : (s : String) → is_string (from_text s) ≡ true
  pub is_null-text : (s : String) → is_null (from_text s) ≡ false
  pub is_null-nat : (n : ℕ) → is_null (from_nat n) ≡ false
  pub is_number-nat : (n : ℕ) → is_number (from_nat n) ≡ true
  -- A conversion returns or throws.
  pub get_text-returns : (j : J) → get_text j ≢ fails
  pub get_text-text : (s : String) → get_text (from_text s) ≡ ok s
  pub get_nat-nat : (w n : ℕ) → n < 2 ^ w → get_nat w (from_nat n) ≡ ok n
  pub get_int-int : (i : ℤ) → get_int (from_int i) ≡ ok i
  pub get_real-real : (r : R) → get_real (from_real r) ≡ ok r
  -- A member that is there is given without a change.
  pub index_or_insert-member :
      (m : Members J) (k : String) (v : J)
      → lookup k m ≡ some v
      → index_or_insert (object m) k ≡ ok (v, object m)
  pub depth-find : (j : J) (k : String) (v : J) → find j k ≡ some v → depth v < depth j
  pub depth-elements :
      (j v : J) (pre suf : List J) → elements j ≡ pre ++ v ∷ suf → depth v ≤ depth j

module _ {J R : Type 0} (json : Json J R) where
  open json use {find, is_object, get_text, get_int}

  abbrev pub or_abort : Option J → Result J
  or_abort none = aborts
  or_abort (some v) = ok v

  -- `j[key]` of a constant value: throws unless j is an object; a member that is not there is a
  -- failed assertion.
  abbrev pub index : J → String → Result J
  index j k = if is_object j then or_abort (find j k) else throws json_exception

  -- `j.value(key, default)`: throws unless j is an object.
  abbrev pub value_from : {A : Type 0} → (J → Result A) → A → Option J → Result A
  value_from get d none = ok d
  value_from get d (some v) = get v

  abbrev pub value_text : J → String → String → Result String
  value_text j k d = if is_object j then value_from get_text d (find j k) else throws json_exception

  abbrev pub value_int : J → String → ℤ → Result ℤ
  value_int j k d = if is_object j then value_from get_int d (find j k) else throws json_exception

  -- `j.count(key) > 0`
  abbrev pub contains : J → String → Bool
  contains j k = elim (find j k) [ none ↦ false | some v ↦ true ]
