-- ===== src/Common/Trim.antt =====
-- Facts about strings.TrimSpace that the parsers and the slugs share.
use mathlib.Core.Path.{◌≡◌, refl, ap, ◌∙◌}
use mathlib.Core.Logic.{inl, inr}
use khans_bike.Common.Tests.{Bool-cases}
use mathlib.Core.Bool.{Bool, true, false, not}
use mathlib.Core.List.{[], ◌∷◌, ◌++◌}
use native.Mathlib.Omega.{arith}
use khans_bike.Common.Lists.{all}
use khans_bike.Common.Text.{Text, trim_left, cons_kept, trim_right, trim_func}
use Prim.Native.Nat.{ℕ}

module _ (cut : ℕ → Bool) where
  abbrev pub keeps : Text → Bool
  keeps = all (λ c. not (cut c))

  pub trim_left_id : (s : Text) → keeps s ≡ true → trim_left cut s ≡ s
  trim_left_id [] h = refl
  trim_left_id (c ∷ s) h = ground arith

  pub cons_kept_id : (c : ℕ) (s : Text) → cut c ≡ false → cons_kept cut c s ≡ c ∷ s
  cons_kept_id c [] h = rw h
  cons_kept_id c (d ∷ s) h = refl

  pub trim_right_id : (s : Text) → keeps s ≡ true → trim_right cut s ≡ s
  trim_right_id [] h = refl
  trim_right_id (c ∷ s) h = ground (arith, trim_right_id s, cons_kept_id c s)

  -- A text with nothing to cut is left as it is.
  pub trim_func_id : (s : Text) → keeps s ≡ true → trim_func cut s ≡ s
  trim_func_id s h = rw (trim_left_id s h) (trim_right_id s h)

  pub keeps-append : (s t : Text) → keeps s ≡ true → keeps t ≡ true → keeps (s ++ t) ≡ true
  keeps-append [] t h k = k
  keeps-append (c ∷ s) t h k = ground (arith, keeps-append s t)

trim_right_idem : (cut : ℕ → Bool) (s : Text) → trim_right cut (trim_right cut s) ≡ trim_right cut s
trim_right_idem cut [] = refl
trim_right_idem cut (c ∷ s) = kept_again cut c (trim_right cut s) (trim_right_idem cut s)
  where
    kept_again :
        (cut : ℕ → Bool) (c : ℕ) (t : Text)
        → trim_right cut t ≡ t
        → trim_right cut (cons_kept cut c t) ≡ cons_kept cut c t
    kept_again cut c [] h = ground arith
    kept_again cut c (d ∷ t) h = rw h refl

-- The first rune stays if it is not one to cut.
trim_left-trim_right :
    (cut : ℕ → Bool) (s : Text)
    → trim_left cut (trim_right cut (trim_left cut s)) ≡ trim_right cut (trim_left cut s)
trim_left-trim_right cut [] = refl
trim_left-trim_right cut (c ∷ s) = elim (Bool-cases (cut c)) [
  | inl y ↦ rw y (trim_left-trim_right cut s)
  | inr n ↦ rw n (first_stays cut c (trim_right cut s) n)
]
  where
    first_stays :
        (cut : ℕ → Bool) (c : ℕ) (t : Text)
        → cut c ≡ false
        → trim_left cut (cons_kept cut c t) ≡ cons_kept cut c t
    first_stays cut c [] h = ground arith
    first_stays cut c (d ∷ t) h = rw h refl

-- Trimming twice is trimming once.
pub trim_func_idem : (cut : ℕ → Bool) (s : Text) → trim_func cut (trim_func cut s) ≡ trim_func cut s
trim_func_idem cut s =
    ap (trim_right cut) (trim_left-trim_right cut s) ∙ trim_right_idem cut (trim_left cut s)
