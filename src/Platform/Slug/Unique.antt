-- ===== src/Platform/Slug/Unique.antt =====
-- internal/platform/slug.go: UniqueSlug ends, with a candidate that is not taken.
use native.Mathlib.Nat.{le_refl}
use mathlib.Core.Path.{subst}
use khans_bike.Common.{
  ℕ_discrete, ℕ, zero, suc, ◌+◌, ◌≤◌, ◌<◌, ◌≡◌, ◌≢◌, refl, inl, inr, [], ◌∷◌, ◌++◌, List, Bool,
  true, false, Option, some, arith, leb, if◌then◌else◌, ap, sym, ◌∙◌, Bool-cases, length, any,
  length-append,
}
use khans_bike.Common.Text.{Text, is_empty, codes, text_eq, text_eq→eq}
use khans_bike.Platform.Money.{format_nat, value, is_digits}
use khans_bike.Platform.Money.Digits.{value-format_nat, is_digits-format_nat}
use khans_bike.Platform.Slug.{slugify, slugify_with_suffix, candidate, unique_from, unique_slug}

pub format_nat-injective : (a b : ℕ) → format_nat a ≡ format_nat b → a ≡ b
format_nat-injective a b h = sym (value-format_nat a) ∙ ap (value 0) h ∙ value-format_nat b

append_cancel : (s t u : Text) → s ++ t ≡ s ++ u → t ≡ u
append_cancel [] t u h = h
append_cancel (c ∷ s) t u h = append_cancel s t u (ground arith)

append_longer : (s : Text) (c : ℕ) (t : Text) → s ≢ s ++ c ∷ t
append_longer s c t h =
    let e : length s ≡ length (s ++ c ∷ t) = ap length h in omega (arith, length-append s (c ∷ t))

is_empty-append : (s : Text) (c : ℕ) (t : Text) → is_empty (s ++ c ∷ t) ≡ false
is_empty-append [] c t = refl
is_empty-append (d ∷ s) c t = refl

is_empty-format_nat : (n : ℕ) → is_empty (format_nat n) ≡ false
unfolding is_digits
is_empty-format_nat n = ground (arith, is_digits-format_nat n)

-- The candidates of a name, by the slug of the name.
abbrev candidate_of : Text → ℕ → Text
candidate_of [] n = if leb n 1 then codes "item-" ++ format_nat n else format_nat n
candidate_of (c ∷ s) n = if leb n 1 then c ∷ s else c ∷ s ++ b'-' ∷ format_nat n

is_digits-head : (c : ℕ) (t : Text) → is_digits (c ∷ t) ≡ true → c ≢ b'i'
unfolding is_digits
is_digits-head c t h e = ground arith

digit_first : (n : ℕ) (t : Text) → format_nat n ≢ b'i' ∷ t
digit_first n t h = is_digits-head b'i' t (sym (ap is_digits h) ∙ is_digits-format_nat n) refl

candidate_of-first : (s : Text) (b : ℕ) → 1 < b → candidate_of s 1 ≢ candidate_of s b
candidate_of-first [] b h e = digit_first b (codes "tem-" ++ format_nat 1) (ground arith)
candidate_of-first (c ∷ s) b h e = append_longer (c ∷ s) b'-' (format_nat b) (ground arith)

candidate_of-later : (s : Text) (a b : ℕ) → 1 < a → a < b → candidate_of s a ≢ candidate_of s b
candidate_of-later [] a b h k e = ground (arith, format_nat-injective a b)
candidate_of-later (c ∷ s) a b h k e = ground (
  arith,
  append_cancel (c ∷ s) (b'-' ∷ format_nat a) (b'-' ∷ format_nat b),
  format_nat-injective a b,
)

-- No two rounds of the loop try the same text.
candidate_of-ne : (s : Text) (a b : ℕ) → 0 < a → a < b → candidate_of s a ≢ candidate_of s b
candidate_of-ne s zero b h k = absurd (omega arith)
candidate_of-ne s (suc zero) b h k = candidate_of-first s b k
candidate_of-ne s (suc (suc a)) b h k = candidate_of-later s (suc (suc a)) b (omega arith) k

candidate_by_slug : Text → ℕ → Text
candidate_by_slug base n =
    let slug =
      if leb n 1
      then base
      else if is_empty base
      then format_nat n
      else base ++ b'-' ∷ format_nat n in
    if is_empty slug then codes "item-" ++ format_nat n else slug

candidate_by_slug-candidate_of :
    (base : Text) (n : ℕ) → candidate_by_slug base n ≡ candidate_of base n
unfolding candidate_by_slug
candidate_by_slug-candidate_of [] n = ground (arith, is_empty-format_nat n)
candidate_by_slug-candidate_of (c ∷ s) n =
    ground (arith, is_empty-append (c ∷ s) b'-' (format_nat n))

-- A text stands in a list.
unfoldable pub contains : Text → List Text → Bool
contains t = any (text_eq t)

remove : Text → List Text → List Text
remove t [] = []
remove t (u ∷ us) = let rest = remove t us in if text_eq t u then us else u ∷ rest

length-remove :
    (t : Text) (us : List Text) → contains t us ≡ true → length (remove t us) < length us
unfolding contains remove
length-remove t [] h = cc
length-remove t (u ∷ us) h = ground (arith, length-remove t us)

contains-remove :
    (t v : Text) (us : List Text) → t ≢ v → contains v us ≡ true → contains v (remove t us) ≡ true
unfolding contains remove
contains-remove t v [] ne h = h
contains-remove t v (u ∷ us) ne h =
    ground (arith, contains-remove t v us ne, text_eq→eq t u, text_eq→eq v u)

from_next :
    (n k : ℕ) (P : ℕ → Type 0)
    → P n
    → ((j : ℕ) → n + 1 ≤ j → j < k → P j)
    → (j : ℕ) → n ≤ j
    → j < k
    → P j
from_next n k P here later j low high = elim (ℕ_discrete n j) [
  | yes e ↦ subst P e here
  | no ne ↦ later j (omega arith) high
]

module _ (fold : Text → Option Text) where
  candidate-candidate_of :
      (name : Text) (n : ℕ) → candidate fold name n ≡ candidate_of (slugify fold name) n
  unfolding candidate slugify_with_suffix candidate_by_slug
  candidate-candidate_of name n = candidate_by_slug-candidate_of (slugify fold name) n

  candidate-ne :
      (name : Text) (a b : ℕ) → 0 < a → a < b → candidate fold name a ≢ candidate fold name b
  candidate-ne name a b h k =
      rw (candidate-candidate_of name a, candidate-candidate_of name b)
        (candidate_of-ne (slugify fold name) a b h k)

  -- The answer is the first candidate from `n` on that is not taken.
  abbrev pub IsFirstFree : Text → (Text → Bool) → ℕ → Option Text → Type 0
  IsFirstFree name exists n answer =
      (k : ℕ) × (n ≤ k)
      × (answer ≡ some (candidate fold name k))
      × (exists (candidate fold name k) ≡ false)
      × ((j : ℕ) → n ≤ j → j < k → exists (candidate fold name j) ≡ true)

  unique_from_first :
      (fuel n : ℕ) (name : Text) (exists : Text → Bool) (taken : List Text)
      → 0 < n
      → length taken < fuel
      → ((m : ℕ)
          → n ≤ m
          → exists (candidate fold name m) ≡ true
          → contains (candidate fold name m) taken ≡ true)
      → IsFirstFree name exists n (unique_from fold fuel n name exists)
  unfolding unique_from
  unique_from_first zero n name exists taken p h within = absurd (omega arith)
  unique_from_first (suc fuel) n name exists taken p h within =
      elim (Bool-cases (exists (candidate fold name n))) [
        | inr free ↦ (n, le_refl n, rw free, free, λ j a b. absurd (omega arith))
        | inl used ↦
            let c = candidate fold name n in
            let here = within n (le_refl n) used in
            let (k, low, answer, free, before) =
              unique_from_first fuel (n + 1) name exists (remove c taken) (omega arith)
                (omega (arith, length-remove c taken here))
                (λ m a b.
                  contains-remove c (candidate fold name m) taken
                    (candidate-ne name n m p (omega arith)) (within m (omega arith) b)) in
            (
              k,
              omega arith,
              rw used answer,
              free,
              from_next n k (λ j. exists (candidate fold name j) ≡ true) used before,
            )
      ]

  -- UniqueSlug ends and answers with the first of its candidates that does not exist yet, if every
  -- candidate that exists stands in a list: one round more than the list is long is enough.
  pub unique_slug_first :
      (name : Text) (exists : Text → Bool) (taken : List Text)
      → ((m : ℕ)
          → exists (candidate fold name m) ≡ true
          → contains (candidate fold name m) taken ≡ true)
      → IsFirstFree name exists 1 (unique_slug fold (length taken + 1) name exists)
  unfolding unique_slug
  unique_slug_first name exists taken within =
      unique_from_first (length taken + 1) 1 name exists taken (omega arith) (omega arith)
        (λ m low. within m)
