-- ===== src/Taxonomy/Labels.antt =====
-- The slugs of internal/service/taxonomy.go and their ltree labels: every slug that a category gets is
-- made of lowercase letters, digits and hyphens, and on those the label determines the slug.
use khans_bike.Common.{
  ℕ, zero, suc, ◌+◌, ◌≡◌, refl, inl, inr, [], ◌∷◌, ◌++◌, Bool, true, false, ◌||◌, Option, some,
  arith, all,
}
use khans_bike.Common.Text.{Text, codes}
use khans_bike.Platform.Money.{format_nat, is_digit, digits_only}
use khans_bike.Platform.Money.Digits.{digits_only-format_nat}
use khans_bike.Platform.Slug.{
  is_hyphen, is_slug_char, slugify, slugify_with_suffix, candidate, unique_from,
}
use khans_bike.Platform.Slug.Shape.{
  start, word, dash, fail, SlugState, slug_run, matches_slug, IsSlug, slugify-IsSlug,
}
use khans_bike.Service.Validation.{slug_base, free_slug}
use khans_bike.Taxonomy.Paths.{ltree_label, no_dot}

abbrev plain_char : ℕ → Bool
plain_char c = is_slug_char c || is_hyphen c

abbrev pub is_plain : Text → Bool
is_plain = all plain_char

pub ltree_label-injective :
    (s t : Text) → is_plain s ≡ true → is_plain t ≡ true → ltree_label s ≡ ltree_label t → s ≡ t
ltree_label-injective [] [] h k e = refl
ltree_label-injective [] (d ∷ t) h k e = cc
ltree_label-injective (c ∷ s) [] h k e = cc
ltree_label-injective (c ∷ s) (d ∷ t) h k e = ground (arith, ltree_label-injective s t)

pub no_dot-ltree_label : (s : Text) → is_plain s ≡ true → no_dot (ltree_label s) ≡ true
no_dot-ltree_label [] h = refl
no_dot-ltree_label (c ∷ s) h = ground (arith, no_dot-ltree_label s)

fail_stays : (s : Text) → slug_run fail s ≡ fail
fail_stays [] = refl
fail_stays (c ∷ s) = fail_stays s

run-plain : (q : SlugState) (s : Text) → slug_run q s ≡ word → is_plain s ≡ true
run-plain q [] h = refl
run-plain start (c ∷ s) h = ground (arith, fail_stays s, run-plain word s)
run-plain word (c ∷ s) h = ground (arith, fail_stays s, run-plain word s, run-plain dash s)
run-plain dash (c ∷ s) h = ground (arith, fail_stays s, run-plain word s)
run-plain fail (c ∷ s) h = ground (arith, fail_stays s)

pub matches_slug-plain : (s : Text) → matches_slug s ≡ true → is_plain s ≡ true
unfolding matches_slug
matches_slug-plain s h = run-plain start s (ground arith)

digits-plain : (s : Text) → digits_only s ≡ true → is_plain s ≡ true
unfolding is_digit
digits-plain [] h = refl
digits-plain (c ∷ s) h = ground (arith, digits-plain s)

plain-append : (s t : Text) → is_plain s ≡ true → is_plain t ≡ true → is_plain (s ++ t) ≡ true
plain-append [] t h k = k
plain-append (c ∷ s) t h k = ground (arith, plain-append s t)

IsSlug-plain : (s : Text) → IsSlug s → is_plain s ≡ true
IsSlug-plain s (inl e) = rw e refl
IsSlug-plain s (inr m) = matches_slug-plain s m

nat-plain : (n : ℕ) → is_plain (format_nat n) ≡ true
nat-plain n = digits-plain (format_nat n) (digits_only-format_nat n)

module _ (fold : Text → Option Text) where
  candidate-plain : (name : Text) (n : ℕ) → is_plain (candidate fold name n) ≡ true
  unfolding candidate slugify_with_suffix
  candidate-plain name n =
      let base = slugify fold name in
      ground (
        arith,
        IsSlug-plain base (slugify-IsSlug fold name),
        nat-plain n,
        plain-append base (b'-' ∷ format_nat n),
        plain-append (codes "item-") (format_nat n),
      )

  unique_from-plain :
      (fuel n : ℕ) (name : Text) (taken : Text → Bool) (s : Text)
      → unique_from fold fuel n name taken ≡ some s
      → (is_plain s ≡ true) × (taken s ≡ false)
  unfolding unique_from
  unique_from-plain zero n name taken s h = cc
  unique_from-plain (suc fuel) n name taken s h =
      ground (arith, candidate-plain name n, unique_from-plain fuel (n + 1) name taken s)

  -- A derived slug is plain, and free.
  pub free_slug-plain :
      (fuel : ℕ) (name : Text) (taken : Text → Bool) (s : Text)
      → free_slug fold fuel name taken ≡ some s
      → (is_plain s ≡ true) × (taken s ≡ false)
  unfolding free_slug
  free_slug-plain fuel name taken s h = unique_from-plain fuel 1 (slug_base fold name) taken s h
