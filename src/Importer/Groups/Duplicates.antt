-- ===== src/Importer/Groups/Duplicates.antt =====
-- internal/importer/sheet.go: which rows of a group groupRows skips.
use khans_bike.Common.{
  ℕ, ◌+◌, ◌≡◌, refl, Bool, true, false, Option, none, some, List, [], ◌∷◌, map, any, All,
  Bool-cases, inl, inr, ltb, ap, ◌∙◌,
}
use mathlib.Core.Path.{subst}
use khans_bike.Common.Text.{Text, text_eq, text_eq→eq}
use khans_bike.Domain.Status.{is_skip}
use khans_bike.Importer.Staging.{StagedRow, Proposal, add_issue}
use khans_bike.Importer.Groups.{
  first_with, rename, set_sku, skip_row, dedupe, repeats, join_row, count_sku,
}

abbrev pub skipped : StagedRow → Bool
skipped r = is_skip r.decision

first_with-any :
    (sig : Text) (seen : List (Text × ℕ))
    → (first_with sig seen ≡ none → any (λ k. text_eq k sig) (map (λ e. e.0) seen) ≡ false)
      × ((i : ℕ)
          → first_with sig seen ≡ some i
          → any (λ k. text_eq k sig) (map (λ e. e.0) seen) ≡ true)
unfolding first_with
first_with-any sig [] = (λ e. refl, λ i e. cc)
first_with-any sig ((s, k) ∷ seen) =
    let (absent, present) = first_with-any sig seen in
    elim (Bool-cases (text_eq s sig)) [
      | inl y ↦ rw y (λ e. cc, λ i e. refl)
      | inr n ↦ rw n (absent, present)
    ]

rename-skipped : (skus : List (Text × ℕ)) (r : StagedRow) → skipped (rename skus r) ≡ skipped r
unfolding rename set_sku add_issue
rename-skipped skus r = elim (Bool-cases (ltb 0 (count_sku r.proposal.sku skus))) [
  | inl y ↦ rw y refl
  | inr n ↦ rw n refl
]

skip_row-skipped : (r : StagedRow) → skipped (skip_row r) ≡ true
unfolding skip_row add_issue
skip_row-skipped r = refl

repeats-ext :
    (ks ls sigs : List Text)
    → ((t : Text) → any (λ k. text_eq k t) ks ≡ any (λ k. text_eq k t) ls)
    → repeats ks sigs ≡ repeats ls sigs
unfolding repeats
repeats-ext ks ls [] h = refl
repeats-ext ks ls (s ∷ sigs) h = rw (h s) (
    ap (λ t. any (λ k. text_eq k s) ls ∷ t)
      (repeats-ext (s ∷ ks) (s ∷ ls) sigs (λ t. rw (h t) refl)))

-- A text that is there already adds nothing.
again :
    (sig : Text) (known : List Text)
    → any (λ k. text_eq k sig) known ≡ true
    → (t : Text) → any (λ k. text_eq k t) known ≡ any (λ k. text_eq k t) (sig ∷ known)
again sig known h t = elim (Bool-cases (text_eq sig t)) [
  | inl y ↦
      let there : any (λ k. text_eq k t) known ≡ true =
        subst (λ x. any (λ k. text_eq k x) known ≡ true) (text_eq→eq sig t y) h in
      rw (there, y) refl
  | inr n ↦ rw n refl
]

join_row-skipped :
    (sig : Text) (known : List Text) (o : Option ℕ) (r r' : StagedRow)
    (others later : List StagedRow × List ℕ) (sigs : List Text)
    → (o ≡ none → any (λ k. text_eq k sig) known ≡ false)
    → ((i : ℕ) → o ≡ some i → any (λ k. text_eq k sig) known ≡ true)
    → skipped r' ≡ false
    → map skipped others.0 ≡ repeats known sigs
    → map skipped later.0 ≡ repeats (sig ∷ known) sigs
    → map skipped (join_row o r r' others later).0 ≡ repeats known (sig ∷ sigs)
unfolding join_row repeats
join_row-skipped sig known none r r' others later sigs absent present k a b =
    rw (absent refl, k) (ap (λ t. false ∷ t) b)
join_row-skipped sig known (some j) r r' others later sigs absent present k a b =
    rw (present j refl, skip_row-skipped r)
      (ap (λ t. true ∷ t)
        (a ∙ repeats-ext known (sig ∷ known) sigs (again sig known (present j refl))))

module _ (signature : Proposal → Text) where
  abbrev pub signatures : List StagedRow → List Text
  signatures = map (λ r. signature r.proposal)

  dedupe_from :
      (i : ℕ) (seen skus : List (Text × ℕ)) (rows : List StagedRow)
      → All (λ r. skipped r ≡ false) rows
      → map skipped (dedupe signature i seen skus rows).0
        ≡ repeats (map (λ e. e.0) seen) (signatures rows)
  unfolding dedupe
  dedupe_from i seen skus [] h = unfold repeats in refl
  dedupe_from i seen skus (r ∷ rows) (k, h) =
      let sig = signature r.proposal in
      let r' = rename skus r in
      let sku = r'.proposal.sku in
      let (absent, present) = first_with-any sig seen in
      join_row-skipped sig (map (λ e. e.0) seen) (first_with sig seen) r r' _ _ (signatures rows)
        absent present (rename-skipped skus r ∙ k) (dedupe_from (i + 1) seen skus rows h)
        (dedupe_from (i + 1) ((sig, i) ∷ seen) ((sku, count_sku sku skus + 1) ∷ skus) rows h)

  -- Of a group's rows, none of which is skipped before, groupRows skips exactly those whose signature
  -- an earlier row of the group has.
  pub dedupe-repeats :
      (rows : List StagedRow)
      → All (λ r. skipped r ≡ false) rows
      → map skipped (dedupe signature 0 [] [] rows).0 ≡ repeats [] (signatures rows)
  dedupe-repeats rows h = dedupe_from 0 [] [] rows h
