-- ===== src/Importer/Reviewable.antt =====
-- internal/importer/importer.go: what Stage leaves a reviewer with, row by row.
use khans_bike.Common.{
  ℕ, ◌≡◌, refl, Bool, true, false, not, ◌&&◌, Option, none, some, List, [], ◌∷◌, map, arith, All,
  Bool-cases, inl, inr, All-imp,
}
use khans_bike.Common.Text.{Text}
use khans_bike.Domain.Status.{
  Decision, pending, accept, skip, merge, other_decision, is_skip, is_accept, is_merge, error,
}
use khans_bike.Importer.Staging.{
  StagedRow, VariantRow, add_issue, has_issue, match_with, match_row, point_at, match_existing,
  matching, hold_back, settle_rows, row_codes, group_targets, target_of,
}

abbrev pub has_value : Option ℕ → Bool
has_value none = false
has_value (some _) = true

-- A row that names an existing variant also names its product, and a merge row names a variant.
abbrev pub IsLinked : StagedRow → Type 0
IsLinked r =
    (is_merge r.decision ≡ true → has_value r.proposal.target_variant_id ≡ true)
    × (has_value r.proposal.target_variant_id ≡ true → has_value r.target ≡ true)

-- What a batch in review holds: linked rows, of which none with errors is accepted.
abbrev pub IsReviewable : StagedRow → Type 0
IsReviewable r = IsLinked r × (is_accept r.decision ≡ true → has_issue error r ≡ false)

-- A row as the workbook gave it.
abbrev pub IsFresh : StagedRow → Type 0
IsFresh r = (is_merge r.decision ≡ false) × (r.proposal.target_variant_id ≡ none)

module _ (P Q : StagedRow → Type 0) (f : StagedRow → StagedRow) where
  All-map :
      ((r : StagedRow) → P r → Q (f r)) → (rows : List StagedRow) → All P rows → All Q (map f rows)
  All-map step [] h = tt
  All-map step (r ∷ rows) (p, h) = (step r p, All-map step rows h)

match_with-IsLinked :
    (vs : List VariantRow) (r : StagedRow) → IsFresh r → IsLinked (match_with vs r)
unfolding match_with add_issue
match_with-IsLinked [] r (a, b) = (λ m. cc, λ m. cc)
match_with-IsLinked (v ∷ []) r (a, b) = (λ _. refl, λ _. refl)
match_with-IsLinked (v ∷ w ∷ vs) r (a, b) = (λ m. cc, λ m. cc)

match_row-IsLinked :
    (variants : List VariantRow) (r : StagedRow) → IsFresh r → IsLinked (match_row variants r)
unfolding match_row
match_row-IsLinked variants r (a, b) = elim (Bool-cases (is_accept r.decision)) [
  | inl y ↦ rw y (match_with-IsLinked (matching r.proposal variants) r (a, b))
  | inr n ↦ rw n (λ m. cc, λ m. cc)
]

point_at-IsLinked : (o : Option ℕ) (r : StagedRow) → IsLinked r → IsLinked (point_at o r)
unfolding point_at add_issue
point_at-IsLinked none r h = h
point_at-IsLinked (some p) r (m, t) = elim (Bool-cases (is_accept r.decision)) [
  | inl y ↦ rw y (m, λ _. refl)
  | inr n ↦ rw n (m, t)
]

hold_back-IsReviewable : (r : StagedRow) → IsLinked r → IsReviewable (hold_back r)
unfolding hold_back has_issue
hold_back-IsReviewable r (m, t) =
    elim (Bool-cases (has_issue error r && not (is_skip r.decision))) [
      | inl y ↦ rw y ((λ k. cc, t), λ k. cc)
      | inr n ↦ rw n ((m, t), λ k. accepted r.decision k n)
    ]
  where
    accepted :
        (d : Decision)
        → is_accept d ≡ true
        → (has_issue error r && not (is_skip d)) ≡ false
        → has_issue error r ≡ false
    accepted accept k e = ground arith
    accepted pending k e = cc
    accepted skip k e = cc
    accepted merge k e = cc
    accepted (other_decision t) k e = cc

fresh-IsLinked : (r : StagedRow) → IsFresh r → IsLinked r
fresh-IsLinked r (a, b) = (λ m. cc, λ m. cc)

match_existing-IsLinked :
    (list_variants : List Text → List VariantRow) (rows : List StagedRow)
    → All IsFresh rows
    → All IsLinked (match_existing list_variants rows)
unfolding match_existing
match_existing-IsLinked list_variants rows h = by_codes (row_codes rows)
  where
    by_codes :
        (wanted : List Text)
        → All IsLinked (
            let variants = list_variants wanted in
            let targets = group_targets variants rows [] in
            elim wanted [
              | [] ↦ rows
              | _ ∷ _ ↦
                  map
                    (λ r. point_at (target_of r.proposal.group_key targets) r)
                    (map (match_row variants) rows)
            ])
    by_codes [] = All-imp IsFresh IsLinked fresh-IsLinked rows h
    by_codes (c ∷ cs) =
        let variants = list_variants (c ∷ cs) in
        All-map IsLinked IsLinked _ (λ r l. point_at-IsLinked _ r l) (map (match_row variants) rows)
          (All-map IsFresh IsLinked (match_row variants) (match_row-IsLinked variants) rows h)

-- Whatever variants the query answers with, each row that Stage stores names a product if it names a
-- variant, names a variant if it is to be merged, and has no errors if it is accepted.
pub settle_rows-IsReviewable :
    (list_variants : List Text → List VariantRow) (rows : List StagedRow)
    → All IsFresh rows
    → All IsReviewable (settle_rows list_variants rows)
unfolding settle_rows
settle_rows-IsReviewable list_variants rows h =
    All-map IsLinked IsReviewable hold_back hold_back-IsReviewable
      (match_existing list_variants rows) (match_existing-IsLinked list_variants rows h)
