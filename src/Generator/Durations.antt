-- ===== src/Generator/Durations.antt =====
-- durationFromString of tool/SignalGenerator/signaldefinition.cpp, on character codes, and the two
-- conversions of `sscanf` that it uses.
use streaming_protocol_lt.Base.{
  ℕ, ◌+◌, ◌-◌, ◌*◌, ◌^◌, Bool, true, false, ◌&&◌, List, [], ◌∷◌, Option, none, some, eqb,
  if◌then◌else◌,
}
use streaming_protocol_lt.Base.Text.{is_digit, is_space}
use streaming_protocol_lt.Base.Words.{wrap32}

unfoldable pub eq_codes : List ℕ → List ℕ → Bool
eq_codes [] [] = true
eq_codes [] (d ∷ t) = false
eq_codes (c ∷ s) [] = false
eq_codes (c ∷ s) (d ∷ t) = eqb c d && eq_codes s t

-- A C string ends before its first NUL.
unfoldable until_nul : List ℕ → List ℕ
until_nul [] = []
until_nul (c ∷ s) = let rest = until_nul s in if eqb c 0 then [] else c ∷ rest

unfoldable skip_spaces : List ℕ → List ℕ
skip_spaces [] = []
skip_spaces (c ∷ s) = let rest = skip_spaces s in if is_space c then rest else c ∷ s

unfoldable read_digits : ℕ → List ℕ → ℕ × List ℕ
read_digits acc [] = (acc, [])
read_digits acc (c ∷ s) =
    let more = read_digits (acc * 10 + (c - 48)) s in if is_digit c then more else (acc, c ∷ s)

unfoldable scan_digits : List ℕ → Option (ℕ × List ℕ)
unfolding read_digits
scan_digits [] = none
scan_digits (c ∷ s) = if is_digit c then some (read_digits 0 (c ∷ s)) else none

abbrev negated : Option (ℕ × List ℕ) → Option (ℕ × List ℕ)
negated none = none
negated (some (n, rest)) = some (2 ^ 32 - wrap32 n, rest)

abbrev signed : List ℕ → Option (ℕ × List ℕ)
unfolding scan_digits
signed [] = none
signed (c ∷ s) =
    if eqb c 45
    then negated (scan_digits s)
    else if eqb c 43
    then scan_digits s
    else scan_digits (c ∷ s)

-- `%u`: the number as an `unsigned int`, and what is behind it.
unfoldable pub scan_unsigned : List ℕ → Option (ℕ × List ℕ)
unfolding skip_spaces scan_digits
scan_unsigned s = elim (signed (skip_spaces s)) [
  | none ↦ none
  | some (n, rest) ↦ some (wrap32 n, rest)
]

unfoldable until_space : List ℕ → List ℕ
until_space [] = []
until_space (c ∷ s) = let rest = until_space s in if is_space c then [] else c ∷ rest

abbrev non_empty : List ℕ → Option (List ℕ)
non_empty [] = none
non_empty (c ∷ s) = some (c ∷ s)

-- `%s`
unfoldable pub scan_word : List ℕ → Option (List ℕ)
unfolding skip_spaces until_space
scan_word s = non_empty (until_space (skip_spaces s))

-- The nanoseconds of one unit: s, ms, µs, ns.
unfoldable pub unit_nanoseconds : List ℕ → Option ℕ
unfolding eq_codes
unit_nanoseconds unit =
    if eq_codes unit (115 ∷ [])
    then some 1000000000
    else if eq_codes unit (109 ∷ 115 ∷ [])
    then some 1000000
    else if eq_codes unit (181 ∷ 115 ∷ [])
    then some 1000
    else if eq_codes unit (110 ∷ 115 ∷ [])
    then some 1
    else none

-- The two variables after the call of `sscanf`; what is not converted stays as it was.
unfoldable pub scan_duration : List ℕ → ℕ × List ℕ → ℕ × List ℕ
unfolding until_nul scan_unsigned scan_word
scan_duration text (number, unit) = elim (scan_unsigned (until_nul text)) [
  | none ↦ (number, unit)
  | some (n, rest) ↦ elim (scan_word rest) [ none ↦ (n, unit) | some u ↦ (n, u) ]
]

abbrev in_unit : ℕ → ℕ → Option ℕ → ℕ
in_unit number default none = default
in_unit number default (some scale) = number * scale

-- The variables are not initialised: the second argument is what they hold.
unfoldable pub duration_from_string : List ℕ → ℕ × List ℕ → ℕ → ℕ
unfolding scan_duration unit_nanoseconds
duration_from_string text uninitialised default =
    let (number, unit) = scan_duration text uninitialised in
    in_unit number default (unit_nanoseconds unit)
