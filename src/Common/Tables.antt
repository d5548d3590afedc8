-- ===== src/Common/Tables.antt =====
-- Tables as lists of rows: what a SELECT, an UPDATE and a DELETE with a WHERE do.
use mathlib.Core.Path.{◌≡◌, refl, subst}
use mathlib.Core.Bool.{Bool, true, false}
use native.Mathlib.Omega.{arith}
use mathlib.Core.List.{List, [], ◌∷◌}
use mathlib.Core.Option.{Option, none, some}
use mathlib.Core.Option.{some-injective}
use Prim.Native.Nat.{ℕ, suc}
use mathlib.Core.Logic.{inl, inr}
use khans_bike.Common.Tests.{if◌then◌else◌, Bool-cases}
use khans_bike.Common.Lists.{All, any}

module _ {ℓ} {A : Type ℓ} where
  -- SELECT ... WHERE p, the first row (`:one`).
  abbrev pub find_row : (A → Bool) → List A → Option A
  find_row p [] = none
  find_row p (x ∷ xs) = let rest = find_row p xs in if p x then some x else rest

  -- UPDATE ... SET f WHERE p.
  abbrev pub update_rows : (A → Bool) → (A → A) → List A → List A
  update_rows p f [] = []
  update_rows p f (x ∷ xs) = (if p x then f x else x) ∷ update_rows p f xs

  -- DELETE ... WHERE p.
  abbrev pub delete_rows : (A → Bool) → List A → List A
  delete_rows p [] = []
  delete_rows p (x ∷ xs) = let rest = delete_rows p xs in if p x then rest else x ∷ rest

  -- The rows that a statement with `:execrows` touches.
  abbrev pub count_rows : (A → Bool) → List A → ℕ
  count_rows p [] = 0
  count_rows p (x ∷ xs) = let rest = count_rows p xs in if p x then suc rest else rest

module _ {ℓ κ} {A : Type ℓ} (P : A → Type κ) where
  found :
      (p : A → Bool) (x a : A) (rest : Option A)
      → P x
      → (rest ≡ some a → (p a ≡ true) × P a)
      → (b : Bool) → p x ≡ b
      → (if b then some x else rest) ≡ some a
      → (p a ≡ true) × P a
  found p x a rest px later true t e =
      subst (λ y. (p y ≡ true) × P y) (some-injective _ _ e) (t, px)
  found p x a rest px later false t e = later e

  -- The row found meets the condition, and what holds of the whole table.
  pub find_row-All :
      (p : A → Bool) (xs : List A) (a : A) → All P xs → find_row p xs ≡ some a → (p a ≡ true) × P a
  find_row-All p [] a h e = cc
  find_row-All p (x ∷ xs) a (px, h) e =
      found p x a (find_row p xs) px (find_row-All p xs a h) (p x) refl e

  updated :
      (p : A → Bool) (f : A → A) (x : A)
      → (p x ≡ true → P (f x))
      → (p x ≡ false → P x)
      → (b : Bool) → p x ≡ b
      → P (if b then f x else x)
  updated p f x hit other true e = hit e
  updated p f x hit other false e = other e

  -- What an UPDATE leaves true, row by row.
  pub update_rows-All :
      (Q : A → Type κ) (p : A → Bool) (f : A → A) (xs : List A)
      → ((x : A) → Q x → p x ≡ true → P (f x))
      → ((x : A) → Q x → p x ≡ false → P x)
      → All Q xs
      → All P (update_rows p f xs)
  update_rows-All Q p f [] hit other h = tt
  update_rows-All Q p f (x ∷ xs) hit other (qx, h) =
      (updated p f x (hit x qx) (other x qx) (p x) refl, update_rows-All Q p f xs hit other h)

  deleted :
      (p : A → Bool) (x : A) (rest : List A)
      → (p x ≡ false → P x)
      → All P rest
      → (b : Bool) → p x ≡ b
      → All P (if b then rest else x ∷ rest)
  deleted p x rest other h true e = h
  deleted p x rest other h false e = (other e, h)

  -- What a DELETE leaves.
  pub delete_rows-All :
      (p : A → Bool) (xs : List A) → ((x : A) → p x ≡ false → P x) → All P (delete_rows p xs)
  delete_rows-All p [] other = tt
  delete_rows-All p (x ∷ xs) other =
      deleted p x (delete_rows p xs) (other x) (delete_rows-All p xs other) (p x) refl

  pub find_row-none :
      (p : A → Bool) (xs : List A) → ((x : A) → P x → p x ≡ false) → All P xs → find_row p xs ≡ none
  find_row-none p [] other h = refl
  find_row-none p (x ∷ xs) other (px, h) = rw (other x px) (find_row-none p xs other h)

  pub All-pure : ((x : A) → P x) → (xs : List A) → All P xs
  All-pure f [] = tt
  All-pure f (x ∷ xs) = (f x, All-pure f xs)

module _ {ℓ} {A : Type ℓ} (q : A → Bool) (f : A → A) where
  abbrev pub updated_row : Option A → Option A
  updated_row none = none
  updated_row (some x) = some (if q x then f x else x)

  -- A SELECT after an UPDATE that keeps what the SELECT tests finds the same row, updated.
  pub find_row-update_rows :
      (p : A → Bool)
      → ((x : A) → p (f x) ≡ p x)
      → (xs : List A) → find_row p (update_rows q f xs) ≡ updated_row (find_row p xs)
  find_row-update_rows p same [] = refl
  find_row-update_rows p same (x ∷ xs) = elim (Bool-cases (q x)) [
    | inl hit ↦ elim (Bool-cases (p x)) [
      | inl y ↦ rw (hit, same x, y) (rw hit refl)
      | inr n ↦ rw (hit, same x, n) (find_row-update_rows p same xs)
    ]
    | inr miss ↦ elim (Bool-cases (p x)) [
      | inl y ↦ rw (miss, y) (rw miss refl)
      | inr n ↦ rw (miss, n) (find_row-update_rows p same xs)
    ]
  ]

module _ {ℓ} {A : Type ℓ} (p : A → Bool) where
  pub any-All : (xs : List A) → any p xs ≡ false → All (λ x. p x ≡ false) xs
  any-All [] h = tt
  any-All (x ∷ xs) h = elim (Bool-cases (p x)) [
    | inl y ↦ cc
    | inr n ↦ (n, any-All xs (ground arith))
  ]

  -- A row that a SELECT finds is none of those that are not there.
  pub find_row-any :
      (q : A → Bool) (xs : List A) (a : A) → any p xs ≡ false → find_row q xs ≡ some a → p a ≡ false
  find_row-any q xs a h e = (find_row-All (λ x. p x ≡ false) q xs a (any-All xs h) e).1

-- A row that EXISTS finds.
pub any-some {ℓ κ} :
    {A : Type ℓ} (P : A → Type κ) (p : A → Bool) (xs : List A)
    → All P xs
    → any p xs ≡ true
    → (x : A) × P x × (p x ≡ true)
any-some P p [] h e = cc
any-some P p (x ∷ xs) (px, h) e = elim (Bool-cases (p x)) [
  | inl y ↦ (x, px, y)
  | inr n ↦ any-some P p xs h (ground arith)
]
