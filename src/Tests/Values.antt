-- ===== src/Tests/Values.antt =====
-- A JSON type and a number type that fill the interfaces `Json` and `Real`.
use streaming_protocol_lt.Base.{
  ℕ, ◌^◌, ◌<◌, String, ◌≡◌, ◌≢◌, refl, Bool, true, false, List, [], ◌∷◌, Option, none, some, eqb,
  if◌then◌else◌, arith, ap, ◌∙◌,
}
use native.Mathlib.Nat.{mod-eq_of_lt}
use streaming_protocol_lt.Base.Int.{ℤ, pos, negsuc, int_eqb}
use streaming_protocol_lt.Base.Result.{Result, ok, fails, throws, json_exception}
use streaming_protocol_lt.Json.{Json}
use streaming_protocol_lt.Json.Object.{Members, lookup}
use streaming_protocol_lt.Real.{Real}
use streaming_protocol_lt.Tests.Items.{
  Value, nothing, text, natural, integer, number, object_of, array_of, end, item, of_members,
  of_list, find_item, values_of, depth_of, find_value, elements_of, text_of, nat_of, int_of,
  real_of, find_item-of_members, values_of-of_list, depth-find_value, depth-elements_of,
}

abbrev is_nothing : Value → Bool
is_nothing nothing = true
is_nothing _ = false

abbrev is_text : Value → Bool
is_text (text s) = true
is_text _ = false

abbrev is_numeric : Value → Bool
is_numeric (natural n) = true
is_numeric (integer i) = true
is_numeric (number i) = true
is_numeric _ = false

abbrev is_list : Value → Bool
is_list (array_of items) = true
is_list _ = false

abbrev is_members : Value → Bool
is_members (object_of items) = true
is_members _ = false

abbrev index_found : Members Value → String → Option Value → Result (Value × Value)
index_found m k (some v) = ok (v, object_of (of_members m))
index_found m k none = ok (nothing, object_of (item k nothing (of_members m)))

abbrev index_value : Value → String → Result (Value × Value)
index_value (object_of items) k = elim (find_item k items) [
  | some v ↦ ok (v, object_of items)
  | none ↦ ok (nothing, object_of (item k nothing items))
]
index_value nothing k = ok (nothing, object_of (item k nothing end))
index_value _ k = throws json_exception

pub text_of-returns : (j : Value) → text_of j ≢ fails
text_of-returns nothing e = ground (arith, e)
text_of-returns (text s) e = ground (arith, e)
text_of-returns (natural n) e = ground (arith, e)
text_of-returns (integer i) e = ground (arith, e)
text_of-returns (number i) e = ground (arith, e)
text_of-returns (object_of items) e = ground (arith, e)
text_of-returns (array_of items) e = ground (arith, e)

pub nat_of-natural : (w n : ℕ) → n < 2 ^ w → nat_of w (natural n) ≡ ok n
nat_of-natural w n h = ap ok (mod-eq_of_lt h)

pub values_of-member : (k : String) (v : Value) → values_of (of_members ((k, v) ∷ [])) ≡ v ∷ []
unfolding values_of of_members
values_of-member k v = refl

pub index_value-member :
    (m : Members Value) (k : String) (v : Value)
    → lookup k m ≡ some v
    → index_value (object_of (of_members m)) k ≡ ok (v, object_of (of_members m))
index_value-member m k v h =
    ap (λ (o : Option Value). index_found m k o) (find_item-of_members m k ∙ h)

-- The message packs of the examples: a list of one number.
abbrev pub start_document : Value
start_document = object_of (
    item "method" (text "subscribe")
      (item "params" (object_of (item "signalId" (text "Voltage") end)) end))

abbrev document : List ℕ → Option Value
document (n ∷ []) = if eqb n 1 then some start_document else none
document _ = none

abbrev pub values : Json Value ℤ
values = record {
  null = nothing;
  from_text = text;
  from_nat = natural;
  from_int = integer;
  from_real = number;
  object = λ m. object_of (of_members m);
  array = λ vs. array_of (of_list vs);
  is_null = is_nothing;
  is_string = is_text;
  is_number = is_numeric;
  is_array = is_list;
  is_object = is_members;
  find = find_value;
  elements = elements_of;
  get_text = text_of;
  get_nat = nat_of;
  get_int = int_of;
  get_real = real_of;
  index_or_insert = index_value;
  dump = λ v. "";
  to_msgpack = λ v. 1 ∷ [];
  from_msgpack = document;
  parse = λ s. none;
  depth = depth_of;
  find-object = find_item-of_members;
  is_object-object = λ m. refl;
  is_null-object = λ m. refl;
  is_null-null = refl;
  find-null = λ k. refl;
  is_array-array = λ vs. refl;
  is_null-array = λ vs. refl;
  elements-array = values_of-of_list;
  elements-member = values_of-member;
  is_string-text = λ s. refl;
  is_null-text = λ s. refl;
  is_null-nat = λ n. refl;
  is_number-nat = λ n. refl;
  get_text-returns = text_of-returns;
  get_text-text = λ s. refl;
  get_nat-nat = nat_of-natural;
  get_int-int = λ i. refl;
  get_real-real = λ r. refl;
  index_or_insert-member = index_value-member;
  depth-find = depth-find_value;
  depth-elements = depth-elements_of;
}

abbrev pub integers : Real ℤ
integers = record {
  zero = pos 0;
  one = pos 1;
  lowest = negsuc 999;
  max = pos 1000;
  epsilon = pos 1;
  eq = int_eqb;
  lt = λ a b. false;
  sub = λ a b. a;
  abs = λ a. a;
}
