-- ===== src/Base/Text.antt =====
-- Texts as lists of character codes, with the std::string and C library calls on them.
use Prim.Native.Nat.{ℕ, zero, suc, ◌+◌, ◌*◌, ◌-◌, ◌%◌, ◌^◌}
use Prim.Native.Char.{Char, code}
use Prim.Native.String.{String, ◌++◌ as joined}
use text.Mathlib.TextLemmas.{nil-append, cons-append, append-nil}
use native.Mathlib.Omega.{arith}
use mathlib.Core.Bool.{Bool, true, false, ◌&&◌, ◌||◌}
use mathlib.Core.List.{List, [], ◌∷◌}
use mathlib.Core.Option.{Option, none, some}
use mathlib.Core.Path.{◌≡◌, refl, ap, sym, ◌∙◌}
use streaming_protocol_lt.Base.Tests.{leb, ltb, eqb, eqb_refl, if◌then◌else◌}
use streaming_protocol_lt.Base.Result.{Result, ok, fails, throws, aborts, logic_error}
use streaming_protocol_lt.Base.Int.{ℤ, pos, negsuc}

-- `String` has its own `[]` and `∷`.
abbrev pub codes : String → List ℕ
codes String.[] = []
codes (String.◌∷◌ c s) = code c ∷ codes s

abbrev pub is_digit : ℕ → Bool
is_digit c = leb 48 c && leb c 57

abbrev pub is_space : ℕ → Bool
is_space c = eqb c 32 || leb 9 c && leb c 13

unfoldable pub digits_value : ℕ → List ℕ → ℕ
digits_value acc [] = acc
digits_value acc (c ∷ s) =
    let more = digits_value (acc * 10 + (c - 48)) s in if is_digit c then more else acc

-- The digits after an optional sign; none is std::invalid_argument, which is a logic_error.
unfoldable pub magnitude : List ℕ → Result ℕ
unfolding digits_value
magnitude [] = throws logic_error
magnitude (c ∷ s) = if is_digit c then ok (digits_value 0 (c ∷ s)) else throws logic_error

-- std::out_of_range is a logic_error too.
abbrev in_range : ℕ → Result ℕ → Result ℕ
in_range bound (ok n) = if ltb n bound then ok n else throws logic_error
in_range bound r = r

abbrev negate : Result ℕ → Result ℕ
negate (ok n) = ok ((2 ^ 64 - n) % 2 ^ 64)
negate r = r

unfoldable pub stoul : List ℕ → Result ℕ
unfolding magnitude
stoul [] = throws logic_error
stoul (c ∷ s) =
    let rest = stoul s in
    if is_space c
    then rest
    else if eqb c 45
    then negate (in_range (2 ^ 64) (magnitude s))
    else if eqb c 43
    then in_range (2 ^ 64) (magnitude s)
    else in_range (2 ^ 64) (magnitude (c ∷ s))

abbrev to_int : Bool → Result ℕ → Result ℤ
to_int true (ok zero) = ok (pos 0)
to_int true (ok (suc n)) = ok (negsuc n)
to_int false (ok n) = ok (pos n)
to_int b fails = fails
to_int b (throws e) = throws e
to_int b aborts = aborts

unfoldable pub stoi : List ℕ → Result ℤ
unfolding magnitude
stoi [] = throws logic_error
stoi (c ∷ s) =
    let rest = stoi s in
    if is_space c
    then rest
    else if eqb c 45
    then to_int true (in_range (2 ^ 31 + 1) (magnitude s))
    else if eqb c 43
    then to_int false (in_range (2 ^ 31) (magnitude s))
    else to_int false (in_range (2 ^ 31) (magnitude (c ∷ s)))

-- The parts of a text between the separators; a text without one is its only part.
abbrev add_to_first : ℕ → List (List ℕ) → List (List ℕ)
add_to_first c [] = (c ∷ []) ∷ []
add_to_first c (p ∷ ps) = (c ∷ p) ∷ ps

unfoldable pub split_at : ℕ → List ℕ → List (List ℕ)
split_at sep [] = [] ∷ []
split_at sep (c ∷ s) =
    let rest = split_at sep s in if eqb c sep then [] ∷ rest else add_to_first c rest

-- std::remove with erase.
unfoldable pub remove_code : ℕ → List ℕ → List ℕ
remove_code x [] = []
remove_code x (c ∷ s) = let rest = remove_code x s in if eqb c x then rest else c ∷ rest

abbrev pub to_lower : ℕ → ℕ
to_lower c = if leb 65 c && leb c 90 then c + 32 else c

-- strncasecmp(s, t, n) == 0, of texts that end at their end or at a NUL.
unfoldable pub eq_ignore_case : ℕ → List ℕ → List ℕ → Bool
eq_ignore_case zero s t = true
eq_ignore_case (suc n) [] [] = true
eq_ignore_case (suc n) [] (d ∷ t) = eqb d 0
eq_ignore_case (suc n) (c ∷ s) [] = eqb c 0
eq_ignore_case (suc n) (c ∷ s) (d ∷ t) =
    let rest = eq_ignore_case n s t in
    eqb (to_lower c) (to_lower d) && (if eqb c 0 then true else rest)

-- Texts one after the other.
abbrev pub join : String → String → String
join s t = joined s t

-- The text before the first character of a code, and the text behind it.
unfoldable pub split_first : ℕ → String → Option (String × String)
split_first sep String.[] = none
split_first sep (String.◌∷◌ c s) =
    if eqb (code c) sep
    then some (String.[], s)
    else elim (split_first sep s) [ none ↦ none | some (l, r) ↦ some (String.◌∷◌ c l, r) ]

unfoldable pub has_code : ℕ → String → Bool
has_code sep String.[] = false
has_code sep (String.◌∷◌ c s) = eqb (code c) sep || has_code sep s

-- The first part of a cut text is longer by a text.
abbrev longer : String → Option (String × String) → Option (String × String)
longer s none = none
longer s (some (l, r)) = some (join s l, r)

longer-nil : (o : Option (String × String)) → longer String.[] o ≡ o
longer-nil none = refl
longer-nil (some (l, r)) = ap (λ k. some (k, r)) (nil-append l)

longer-cons :
    (c : Char) (s : String) (o : Option (String × String))
    → elim (longer s o) [ none ↦ none | some (l, r) ↦ some (String.◌∷◌ c l, r) ]
      ≡ longer (String.◌∷◌ c s) o
longer-cons c s none = refl
longer-cons c s (some (l, r)) = ap (λ k. some (k, r)) (sym (cons-append c s l))

first_differs : {A : Type 0} (b : Bool) (x y : A) → b ≡ false → (if b then x else y) ≡ y
first_differs b x y h = ground (arith, h)

-- A text is cut at the first separator.
split_first-join :
    (sep : ℕ) (s t : String)
    → has_code sep s ≡ false
    → split_first sep (join s t) ≡ longer s (split_first sep t)
unfolding split_first has_code
split_first-join sep String.[] t h =
    ap (split_first sep) (nil-append t) ∙ sym (longer-nil (split_first sep t))
split_first-join sep (String.◌∷◌ c s) t h =
    ap (split_first sep) (cons-append c s t)
    ∙ first_differs (eqb (code c) sep) _ _ (ground (arith, h))
    ∙ ap (λ o. elim o [ none ↦ none | some (l, r) ↦ some (String.◌∷◌ c l, r) ])
        (split_first-join sep s t (ground (arith, h)))
    ∙ longer-cons c s (split_first sep t)

-- A text without a separator, then one of it, then a text, are cut into the two texts.
pub split_first-separator :
    (sep : Char) (s t : String)
    → has_code (code sep) s ≡ false
    → split_first (code sep) (join s (join (String.◌∷◌ sep String.[]) t)) ≡ some (s, t)
unfolding split_first
split_first-separator sep s t h =
    split_first-join (code sep) s (join (String.◌∷◌ sep String.[]) t) h
    ∙ ap (λ u. longer s (split_first (code sep) u))
        (cons-append sep String.[] t ∙ ap (String.◌∷◌ sep) (nil-append t))
    ∙ rw (eqb_refl (code sep)) (ap (λ k. some (k, t)) (append-nil s))
