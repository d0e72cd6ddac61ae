-- ===== src/Base/Result.antt =====
-- How a call ends: it returns, it returns its error code early (-1), it throws, or it runs into a
-- failed assertion of the JSON library. Methods that change an object and may end early keep what
-- was written before, so the object comes back beside every result.
use mathlib.Core.Option.{Option, none, some}
use mathlib.Core.Path.{◌≡◌, refl}

-- The exceptions that the program's handlers tell apart: those of nlohmann::json, `std::logic_error`
-- (std::stoul and std::stoi throw its children) and `std::runtime_error`.
pub data Exception : Type 0 where
  json_exception logic_error runtime_error : Exception

pub data Result {ℓ} (A : Type ℓ) : Type ℓ where
  ok : A → Result A
  fails : Result A
  throws : Exception → Result A
  aborts : Result A

infixl 5 ◌>>=◌
abbrev pub ◌>>=◌ {ℓ κ} : {A : Type ℓ} {B : Type κ} → Result A → (A → Result B) → Result B
ok a >>= f = f a
fails >>= f = fails
throws e >>= f = throws e
aborts >>= f = aborts

-- A method on an object of type S.
abbrev pub Method : Type 0 → Type 0 → Type 0
Method S A = S → Result A × S

abbrev pub then_run : {S A B : Type 0} → Result A × S → (A → Method S B) → Result B × S
then_run (ok a, s) f = f a s
then_run (fails, s) f = (fails, s)
then_run (throws e, s) f = (throws e, s)
then_run (aborts, s) f = (aborts, s)

-- Where the second part returns, so did the first.
pub then_run-ok :
    {S A B : Type 0} (m : Result A × S) (f : A → Method S B) (b : B)
    → (then_run m f).0 ≡ ok b
    → (a : A) × (m.0 ≡ ok a) × (then_run m f ≡ f a m.1)
then_run-ok (ok a, s) f b h = (a, refl, refl)
then_run-ok (fails, s) f b h = cc
then_run-ok (throws e, s) f b h = cc
then_run-ok (aborts, s) f b h = cc

-- Statements one after the other.
infixl 5 ◌>>◌
abbrev pub ◌>>◌ : {S A B : Type 0} → Method S A → Method S B → Method S B
◌>>◌ m k s = then_run (m s) (λ _. k)

-- A field that is there is converted and written; one that is not there changes nothing.
abbrev pub write : {S A : Type 0} → Result A → (A → S → S) → Method S (Unit {0})
write (ok a) f s = (ok tt, f a s)
write fails f s = (fails, s)
write (throws e) f s = (throws e, s)
write aborts f s = (aborts, s)

abbrev pub skip : {S : Type 0} → Method S (Unit {0})
skip s = (ok tt, s)

abbrev pub if_found : {S J : Type 0} → Option J → (J → Method S (Unit {0})) → Method S (Unit {0})
if_found none f s = (ok tt, s)
if_found (some j) f s = f j s
