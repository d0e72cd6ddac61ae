-- ===== src/Types/TimeResolution.antt =====
-- lib/TimeResolution.cpp: the named resolutions; lib/Types.cpp: Resolution::toString, with std::to_string on
-- numbers, as character codes.
use native.Mathlib.Nat.{mod-lt, mod-add-div'}
use streaming_protocol_lt.Base.{
  ℕ, zero, suc, ◌+◌, ◌*◌, ◌/◌, ◌%◌, ◌^◌, ◌≤◌, ◌<◌, ◌≡◌, refl, ap, sym, ◌∙◌, true, false, List, [],
  ◌∷◌, ◌++◌, ltb, arith, Bool-cases, inl, inr,
}
use streaming_protocol_lt.Base.Text.{is_digit, digits_value}
use streaming_protocol_lt.Types.{Resolution}
use streaming_protocol_lt.Types.Checks.{IsPositive}

abbrev time_resolution_1hz : Resolution
time_resolution_1hz = record { numerator = 1; denominator = 1 }

abbrev time_family_1ghz : Resolution
time_family_1ghz = record { numerator = 1; denominator = 1000000000 }

abbrev time_family_ntp : Resolution
time_family_ntp = record { numerator = 1; denominator = 2 ^ 32 }

-- The digits of a number before a text. A number has fewer digits than its size and one more.
unfoldable put_digits : ℕ → ℕ → List ℕ → List ℕ
put_digits zero n text = text
put_digits (suc fuel) n text = elim (ltb n 10) [
  | true ↦ (48 + n) ∷ text
  | false ↦ put_digits fuel (n / 10) ((48 + n % 10) ∷ text)
]

abbrev to_string : ℕ → List ℕ
to_string n = put_digits (suc n) n []

unfoldable resolution_to_string : Resolution → List ℕ
resolution_to_string r = to_string r.numerator ++ 47 ∷ to_string r.denominator

text_of_1ghz :
    resolution_to_string time_family_1ghz
    ≡ 49 ∷ 47 ∷ 49 ∷ 48 ∷ 48 ∷ 48 ∷ 48 ∷ 48 ∷ 48 ∷ 48 ∷ 48 ∷ 48 ∷ []
unfolding resolution_to_string put_digits
text_of_1ghz = refl

named-IsPositive :
    IsPositive time_resolution_1hz × IsPositive time_family_1ghz × IsPositive time_family_ntp
named-IsPositive = (
  record { numerator = omega arith; denominator = omega arith },
  record { numerator = omega arith; denominator = omega arith },
  record { numerator = omega arith; denominator = omega arith },
)

put_digits-append :
    (fuel n : ℕ) (s t : List ℕ) → put_digits fuel n (s ++ t) ≡ put_digits fuel n s ++ t
unfolding put_digits
put_digits-append zero n s t = refl
put_digits-append (suc fuel) n s t = elim (Bool-cases (ltb n 10)) [
  | inl e ↦ rw (put_digits, e) refl
  | inr e ↦ rw (put_digits, e) (put_digits-append fuel (n / 10) ((48 + n % 10) ∷ s) t)
]

-- A digit is read back.
read_digit :
    (a d : ℕ) (text : List ℕ)
    → d < 10
    → digits_value a ((48 + d) ∷ text) ≡ digits_value (a * 10 + d) text
unfolding digits_value
read_digit a d text h = rw digit (ap (λ (x : ℕ). digits_value (a * 10 + x) text) (omega arith))
  where
    digit : is_digit (48 + d) ≡ true
    digit = ground (arith, h)

-- Digits are read back as the number, before any text.
digits_value-put_digits :
    (fuel n : ℕ) (text : List ℕ)
    → n < fuel
    → digits_value 0 (put_digits fuel n text) ≡ digits_value n text
unfolding put_digits
digits_value-put_digits zero n text h = absurd (omega (arith, h))
digits_value-put_digits (suc fuel) n text h = elim (Bool-cases (ltb n 10)) [
  | inl e ↦
      rw (put_digits, e)
        (read_digit 0 n text (ground (arith, e))
          ∙ ap (λ (x : ℕ). digits_value x text) (omega arith))
  | inr e ↦
      rw (put_digits, e)
        (digits_value-put_digits fuel (n / 10) ((48 + n % 10) ∷ text) (smaller (ground (arith, e)))
          ∙ read_digit (n / 10) (n % 10) text (mod-lt n (omega arith))
          ∙ ap (λ (x : ℕ). digits_value x text) (omega (arith, mod-add-div' n 10)))
]
  where
    smaller : 10 ≤ n → n / 10 < fuel
    smaller l = omega (arith, h, l)

-- The text of a resolution begins with its numerator, and its denominator stands behind the slash.
resolution_to_string-read :
    (r : Resolution)
    → (digits_value 0 (resolution_to_string r) ≡ r.numerator)
      × (digits_value 0 (to_string r.denominator) ≡ r.denominator)
unfolding resolution_to_string digits_value
resolution_to_string-read r = (
  ap (λ t. digits_value 0 t)
        (sym (put_digits-append (suc r.numerator) r.numerator [] (47 ∷ to_string r.denominator)))
      ∙ digits_value-put_digits (suc r.numerator) r.numerator (47 ∷ to_string r.denominator)
          (omega arith),
  digits_value-put_digits (suc r.denominator) r.denominator [] (omega arith),
)
