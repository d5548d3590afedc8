-- ===== src/Common/Fallible.antt =====
-- Go's `(value, error)` results.
use mathlib.Core.Path.{◌≡◌, refl}
use mathlib.Core.Logic.{◌⊎◌, inl, inr}
use mathlib.Core.Bool.{Bool, true, false}

pub data Result {ℓ κ} (E : Type ℓ) (A : Type κ) : Type (ℓ ⊔ κ) where
  err : E → Result E A
  ok : A → Result E A

-- `if !test { return e }`.
abbrev pub guard {ε} : {E : Type ε} → Bool → E → Result E (Unit {0})
guard false failure = err failure
guard true failure = ok tt

module _ {ε κ μ} {E : Type ε} {A : Type κ} {B : Type μ} where
  infixl 5 ◌>>=◌
  -- `v, err := m; if err != nil { return err }`, and the rest of the function.
  abbrev pub ◌>>=◌ : Result E A → (A → Result E B) → Result E B
  err failure >>= rest = err failure
  ok v >>= rest = rest v

  pub >>=-eq-ok :
      (m : Result E A) (rest : A → Result E B) {b : B}
      → (m >>= rest) ≡ ok b
      → (v : A) × (m ≡ ok v) × (rest v ≡ ok b)
  >>=-eq-ok (err failure) rest same = cc
  >>=-eq-ok (ok v) rest same = (v, refl, same)

-- The same of a call with an error only.
infixl 5 ◌>>◌
abbrev pub ◌>>◌ {ε μ} : {E : Type ε} {B : Type μ} → Result E (Unit {0}) → Result E B → Result E B
checked >> rest = checked >>= λ _. rest

pub guard-eq-ok {ε} :
    {E : Type ε} (test : Bool) (failure : E) {u : Unit {0}}
    → guard test failure ≡ ok u
    → test ≡ true
guard-eq-ok true failure h = refl
guard-eq-ok false failure h = cc

pub ok-injective {ε κ} :
    {E : Type ε} {A : Type κ} {a b : A} (same : ◌≡◌ {A = Result E A} (ok a) (ok b)) → a ≡ b
ok-injective same = cc

pub Result-cases {ε κ} :
    {E : Type ε} {A : Type κ} (r : Result E A) → ((e : E) × (r ≡ err e)) ⊎ ((a : A) × (r ≡ ok a))
Result-cases (err e) = inl (e, refl)
Result-cases (ok a) = inr (a, refl)
