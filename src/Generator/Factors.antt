-- ===== src/Generator/Factors.antt =====
-- tool/SignalGenerator/factorization.cpp: the factorization of a number and the change of signs of the
-- exponents. The map of exponents is an association list in the order in which the factors are found, which
-- is that of the map.
use streaming_protocol_lt.Base.{
  ℕ, zero, suc, ◌/◌, ◌%◌, ◌≡◌, refl, true, false, List, [], ◌∷◌, eqb, leb, if◌then◌else◌,
}
use streaming_protocol_lt.Base.Int.{ℤ, pos, negsuc}

abbrev pub PrimeFactorExponents : Type 0
PrimeFactorExponents = List (ℕ × ℤ)

abbrev incremented : ℤ → ℤ
incremented (pos n) = pos (suc n)
incremented (negsuc zero) = pos 0
incremented (negsuc (suc n)) = negsuc n

-- `primeFactorExponents[i]++`
unfoldable pub count_factor : ℕ → PrimeFactorExponents → PrimeFactorExponents
count_factor i [] = (i, pos 1) ∷ []
count_factor i ((j, e) ∷ m) =
    let rest = count_factor i m in if eqb j i then (j, incremented e) ∷ m else (j, e) ∷ rest

-- The inner loop.
unfoldable pub divide_out : ℕ → ℕ → ℕ → PrimeFactorExponents → ℕ × PrimeFactorExponents
unfolding count_factor
divide_out zero i input m = (input, m)
divide_out (suc fuel) i input m = elim (eqb (input % i) 0) [
  | true ↦ divide_out fuel i (input / i) (count_factor i m)
  | false ↦ (input, m)
]

-- The outer loop. An input bounds its own divisions.
unfoldable pub factor_loop : ℕ → ℕ → ℕ → PrimeFactorExponents → PrimeFactorExponents
unfolding divide_out
factor_loop zero i input m = m
factor_loop (suc fuel) i input m = elim (leb i input) [
  | true ↦ let (input', m') = divide_out input i input m in factor_loop fuel (suc i) input' m'
  | false ↦ m
]

unfoldable pub get_prime_factor_exponents : ℕ → PrimeFactorExponents
unfolding factor_loop
get_prime_factor_exponents input = factor_loop (suc input) 2 input []

abbrev sign_changed : ℤ → ℤ
sign_changed (pos zero) = pos 0
sign_changed (pos (suc n)) = negsuc n
sign_changed (negsuc n) = pos (suc n)

unfoldable pub change_signs : PrimeFactorExponents → PrimeFactorExponents
change_signs [] = []
change_signs ((prime, exponent) ∷ m) = (prime, sign_changed exponent) ∷ change_signs m

factors_44100 :
    get_prime_factor_exponents 44100 ≡ (2, pos 2) ∷ (3, pos 2) ∷ (5, pos 2) ∷ (7, pos 2) ∷ []
unfolding get_prime_factor_exponents
factors_44100 = refl
