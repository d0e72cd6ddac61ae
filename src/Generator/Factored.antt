-- ===== src/Generator/Factored.antt =====
-- The factorization gives prime factors with exponents that multiply to the number.
use native.Mathlib.Nat.{
  dvd_trans, dvd_of_mod-eq-zero, mod-eq-zero_of_dvd, pow-succ', pow-zero, mul-one, mod_self,
  div-lt_self, div-le_self, mod-add-div', mul_assoc, mul_left_comm, dvd-mul_right_of_dvd,
}
use streaming_protocol_lt.Base.{
  ℕ, zero, suc, ◌+◌, ◌*◌, ◌/◌, ◌%◌, ◌^◌, ◌≤◌, ◌<◌, ◌≡◌, ◌≢◌, refl, ap, sym, ◌∙◌, true, false, [],
  ◌∷◌, eqb, leb, arith, Bool-cases, eqb_iff, inl, inr,
}
use streaming_protocol_lt.Base.Int.{ℤ, pos, negsuc}
use streaming_protocol_lt.Generator.Factors.{
  PrimeFactorExponents, count_factor, divide_out, factor_loop, get_prime_factor_exponents,
  change_signs,
}

abbrev exponent : ℤ → ℕ
exponent (pos n) = n
exponent (negsuc n) = 0

-- The product of the powers.
pub product : PrimeFactorExponents → ℕ
product [] = 1
product ((p, e) ∷ m) = p ^ exponent e * product m

-- Greater than 1, with no divisor in between.
abbrev IsPrime : ℕ → Type 0
IsPrime p = (2 ≤ p) × ((d : ℕ) → 2 ≤ d → d < p → p % d ≢ 0)

-- Each number is a prime with an exponent that is not negative.
pub AllPrime : PrimeFactorExponents → Type 0
AllPrime [] = Unit
AllPrime ((p, pos n) ∷ m) = IsPrime p × AllPrime m
AllPrime ((p, negsuc n) ∷ m) = ⊥

-- No number below i divides n.
abbrev Rough : ℕ → ℕ → Type 0
Rough i n = (d : ℕ) → 2 ≤ d → d < i → n % d ≢ 0

mod_trans : (a b d : ℕ) → a % b ≡ 0 → b % d ≡ 0 → a % d ≡ 0
mod_trans a b d h k =
    mod-eq-zero_of_dvd d (dvd_trans d (dvd_of_mod-eq-zero d k) (dvd_of_mod-eq-zero b h))

pow-one : (i : ℕ) → i ^ 1 ≡ i
pow-one i = pow-succ' i 0 ∙ ap (λ (x : ℕ). i * x) (pow-zero i) ∙ mul-one i

shift : (j n p : ℕ) → j ^ suc n * p ≡ j * (j ^ n * p)
shift j n p = ap (λ (x : ℕ). x * p) (pow-succ' j n) ∙ mul_assoc j (j ^ n) p

product-count_factor :
    (i : ℕ) (m : PrimeFactorExponents) → AllPrime m → product (count_factor i m) ≡ i * product m
unfolding product count_factor AllPrime
product-count_factor i [] h = ap (λ (x : ℕ). x * 1) (pow-one i)
product-count_factor i ((j, pos n) ∷ m) (q, h) = elim (Bool-cases (eqb j i)) [
  | inl e ↦
      rw e (shift j n (product m) ∙ ap (λ (x : ℕ). x * (j ^ n * product m)) ((eqb_iff j i).0 e))
  | inr e ↦
      rw e (
        ap (λ (x : ℕ). j ^ n * x) (product-count_factor i m h)
        ∙ mul_left_comm (j ^ n) i (product m))
]
product-count_factor i ((j, negsuc n) ∷ m) h = absurd h

AllPrime-count_factor :
    (i : ℕ) (m : PrimeFactorExponents) → IsPrime i → AllPrime m → AllPrime (count_factor i m)
unfolding count_factor AllPrime
AllPrime-count_factor i [] p h = (p, tt)
AllPrime-count_factor i ((j, pos n) ∷ m) p (q, h) = elim (Bool-cases (eqb j i)) [
  | inl e ↦ rw e (q, h)
  | inr e ↦ rw e (q, AllPrime-count_factor i m p h)
]
AllPrime-count_factor i ((j, negsuc n) ∷ m) p h = absurd h

-- What the inner loop leaves of a number that has no smaller divisor.
divide_out_lem :
    (fuel i n : ℕ) (m : PrimeFactorExponents)
    → 2 ≤ i
    → 0 < n
    → n ≤ fuel
    → Rough i n
    → AllPrime m
    → let r = divide_out fuel i n m in
      (r.0 * product r.1 ≡ n * product m) × (0 < r.0) × (r.0 ≤ n) × Rough (suc i) r.0 × AllPrime r.1
unfolding divide_out
divide_out_lem zero i n m two positive enough rough h = absurd (omega (arith, positive, enough))
divide_out_lem (suc fuel) i n m two positive enough rough h = elim (Bool-cases (eqb (n % i) 0)) [
  | inl e ↦
      let (whole, left, less, rest, prime) =
        divide_out_lem fuel i (n / i) (count_factor i m) two (left_over (divides e))
          (fewer (divides e)) (still_rough (divides e))
          (AllPrime-count_factor i m (i_prime (divides e)) h) in
      rw (divide_out, e)
        (whole ∙ regroup (divides e), left, omega (arith, less, div-le_self n i), rest, prime)
  | inr e ↦ rw (divide_out, e) (refl, positive, omega arith, rougher e, h)
]
  where
    divides : eqb (n % i) 0 ≡ true → n % i ≡ 0
    divides e = (eqb_iff (n % i) 0).0 e

    -- i divides n, so its divisors do.
    i_prime : n % i ≡ 0 → IsPrime i
    i_prime z = (two, λ d low high k. rough d low high (mod_trans n i d z k))

    whole_again : n % i ≡ 0 → n / i * i ≡ n
    whole_again z = omega (arith, mod-add-div' n i, z)

    still_rough : n % i ≡ 0 → Rough i (n / i)
    still_rough z d low high k = rough d low high (
        ap (λ (x : ℕ). x % d) (sym (whole_again z))
        ∙ mod-eq-zero_of_dvd d (dvd-mul_right_of_dvd d (dvd_of_mod-eq-zero d k) i))

    left_over : n % i ≡ 0 → 0 < n / i
    left_over z = grind (arith, whole_again z)

    fewer : n % i ≡ 0 → n / i ≤ fuel
    fewer z = omega (arith, div-lt_self positive two, enough)

    regroup : n % i ≡ 0 → n / i * product (count_factor i m) ≡ n * product m
    regroup z =
        ap (λ (x : ℕ). n / i * x) (product-count_factor i m h)
        ∙ sym (mul_assoc (n / i) i (product m))
        ∙ ap (λ (x : ℕ). x * product m) (whole_again z)

    rougher : eqb (n % i) 0 ≡ false → Rough (suc i) n
    rougher e d low high z = elim (Bool-cases (eqb d i)) [
      | inl same ↦ ground (arith, e, same, z)
      | inr other ↦ rough d low (ground (arith, other, high)) z
    ]

-- A positive number below i without a divisor below i is 1.
Rough-one : (i n : ℕ) → 0 < n → n < i → Rough i n → n ≡ 1
Rough-one i zero positive low rough = absurd (omega (arith, positive))
Rough-one i (suc zero) positive low rough = refl
Rough-one i (suc (suc n)) positive low rough =
    absurd (rough (suc (suc n)) (omega arith) low (mod_self (suc (suc n))))

-- What the outer loop gives of a number that has no divisor below i.
factor_loop_lem :
    (fuel i n : ℕ) (m : PrimeFactorExponents)
    → 2 ≤ i
    → 0 < n
    → n < fuel + i
    → Rough i n
    → AllPrime m
    → (product (factor_loop fuel i n m) ≡ n * product m) × AllPrime (factor_loop fuel i n m)
unfolding factor_loop
factor_loop_lem zero i n m two positive enough rough h =
    (rw (Rough-one i n positive (omega (arith, enough)) rough) (omega arith), h)
factor_loop_lem (suc fuel) i n m two positive enough rough h = elim (Bool-cases (leb i n)) [
  | inl e ↦
      let (whole, left, less, rest, prime) =
        divide_out_lem n i n m two positive (omega arith) rough h in
      let (result, primes) =
        factor_loop_lem fuel (suc i) (divide_out n i n m).0 (divide_out n i n m).1
          (omega (arith, two)) left (omega (arith, less, enough)) rest prime in
      rw (factor_loop, e) (result ∙ whole, primes)
  | inr e ↦
      rw (factor_loop, e) (rw (Rough-one i n positive (ground (arith, e)) rough) (omega arith), h)
]

-- The factors of a positive number are primes with exponents that are not negative, and the product of their
-- powers is the number.
pub get_prime_factor_exponents-AllPrime :
    (input : ℕ)
    → 0 < input
    → (product (get_prime_factor_exponents input) ≡ input)
      × AllPrime (get_prime_factor_exponents input)
unfolding get_prime_factor_exponents AllPrime product
get_prime_factor_exponents-AllPrime input positive =
    let (result, primes) =
      factor_loop_lem (suc input) 2 input [] (omega arith) positive (omega arith) nothing_below
        tt in
    (result ∙ omega arith, primes)
  where
    nothing_below : Rough 2 input
    nothing_below d low high z = absurd (omega (arith, low, high))

-- Changing the signs twice changes nothing.
change_signs-change_signs : (m : PrimeFactorExponents) → change_signs (change_signs m) ≡ m
unfolding change_signs
change_signs-change_signs [] = refl
change_signs-change_signs ((p, pos zero) ∷ m) =
    ap (λ r. (p, pos 0) ∷ r) (change_signs-change_signs m)
change_signs-change_signs ((p, pos (suc n)) ∷ m) =
    ap (λ r. (p, pos (suc n)) ∷ r) (change_signs-change_signs m)
change_signs-change_signs ((p, negsuc n) ∷ m) =
    ap (λ r. (p, negsuc n) ∷ r) (change_signs-change_signs m)
