-- ===== src/Importer/Commit/Applied.antt =====
-- internal/importer/importer.go: the rows that a commit of a reviewed batch applies.
use khans_bike.Common.{
  ℕ, ◌+◌, ◌≤◌, ◌≡◌, ◌≢◌, refl, ◌∙◌, inl, inr, Bool, true, false, Option, none, List, [], ◌∷◌,
  length, arith, All, All-imp, Bool-cases, Result, Result-cases, ok, err, ok-injective, count_rows,
}
use khans_bike.Common.Text.{Text}
use khans_bike.Domain.Status.{is_merge}
use khans_bike.Importer.Review.{ImportRow, Batch, commit}
use khans_bike.Importer.Requests.{IsInReview, ReviewRequest, DeletesOnly, names_gone, reviewed}
use khans_bike.Importer.Ready.{committed_rows, forget_products, forget_products-spared}
use khans_bike.Importer.Commit.Safe.{Safe, AreReady, AreReady-rows_of, Safe-apply_group}
use khans_bike.Importer.Commit.{
  Services, Committer, Failure, service_error, nil_dereference, panicked, is_applied, group_keys,
  rows_of, last_target, variant_inputs, merge_row, merge_rows, place_variants, set_targets,
  add_rows, apply_group, at_first, apply_groups, apply,
}
use khans_bike.Importer.Commit.Grouped.{rows_under, is_fresh, rows_under-group_keys}

fresh_at_start :
    (rows : List ImportRow) → count_rows (is_fresh []) rows ≡ count_rows is_applied rows
fresh_at_start [] = refl
fresh_at_start (r ∷ rows) = ground (arith, fresh_at_start rows)

at_first-ok :
    {A E : Type 0} (rows : List ImportRow) (r : Result (Failure E) A) (a : A)
    → at_first rows r ≡ ok a
    → r ≡ ok a
unfolding at_first
at_first-ok rows (ok b) a h = let e = ok-injective h in rw e refl
at_first-ok rows (err nil_dereference) a h = cc
at_first-ok [] (err (service_error e)) a h = cc
at_first-ok (r ∷ rows) (err (service_error e)) a h = cc

at_first-Safe :
    {A E : Type 0} (rows : List ImportRow) (r : Result (Failure E) A)
    → Safe r
    → (rows ≡ [] → (a : A) × (r ≡ ok a))
    → at_first rows r ≢ err panicked
unfolding at_first
at_first-Safe rows (ok b) safe done h = cc
at_first-Safe rows (err nil_dereference) safe done h = safe refl
at_first-Safe [] (err (service_error e)) safe done h = let (a, same) = done refl in cc
at_first-Safe (r ∷ rows) (err (service_error e)) safe done h = cc

module _ {E S Document : Type 0} (services : Services E S Document) (lower : Text → Text)
    (public : Bool) where
  -- A row is merged or kept as an addition.
  merge_rows-length :
      (rows : List ImportRow) (target : Option ℕ) (c : Committer S)
      (merged : Option ℕ × List ImportRow × ℕ × Committer S)
      → merge_rows services lower public rows target c ≡ ok merged
      → merged.2 + length merged.1 ≡ length rows
  unfolding merge_rows
  merge_rows-length [] target c merged h = let e = ok-injective h in rw⁻¹ e refl
  merge_rows-length (r ∷ rows) target c merged h =
      let target' = last_target r.row.target target in
      elim (Bool-cases (is_merge r.row.decision)) [
        | inl y ↦ elim (Result-cases (merge_row services lower public r c)) [
          | inl (e, no_) ↦ ground arith
          | inr (c', yes_) ↦
              elim (Result-cases (merge_rows services lower public rows target' c')) [
                | inl (e, no_) ↦ ground arith
                | inr (rest, did) ↦ ground (arith, merge_rows-length rows target' c' rest did)
              ]
        ]
        | inr n ↦ elim (Result-cases (merge_rows services lower public rows target' c)) [
          | inl (e, no_) ↦ ground arith
          | inr (rest, did) ↦ ground (arith, merge_rows-length rows target' c rest did)
        ]
      ]

  add_rows-length :
      (target : Option ℕ) (rows : List ImportRow) (applied : ℕ) (c : Committer S)
      (added : ℕ × Bool × Committer S)
      → add_rows services lower public target rows applied c ≡ ok added
      → added.0 ≡ applied + length rows
  unfolding add_rows
  add_rows-length target [] applied c added h = ground (arith, ok-injective h)
  add_rows-length target (r ∷ rows) applied c added h =
      elim (Result-cases (variant_inputs services lower public (r ∷ rows) c)) [
        | inl (e, no_) ↦ ground arith
        | inr (made, yes_) ↦
            elim (Result-cases
              (place_variants services lower public target r.row.proposal made.0 made.1)) [
                | inl (e, no_) ↦ ground arith
                | inr (placed, did) ↦
                    elim (Result-cases
                      (set_targets services lower public placed.0 (r ∷ rows) placed.2)) [
                        | inl (e, no_) ↦ ground arith
                        | inr (c', set) ↦ ground arith
                      ]
              ]
      ]

  apply_group-length :
      (rows : List ImportRow) (c : Committer S) (group : ℕ × Bool × Committer S)
      → apply_group services lower public rows c ≡ ok group
      → group.0 ≡ length rows
  unfolding apply_group
  apply_group-length rows c group h =
      elim (Result-cases (merge_rows services lower public rows none c)) [
        | inl (e, no_) ↦ ground arith
        | inr (merged, did) ↦
            let added : add_rows services lower public merged.0 merged.1 merged.2 merged.3
                ≡ ok group =
              ground arith in
            omega (
              arith,
              add_rows-length merged.0 merged.1 merged.2 merged.3 group added,
              merge_rows-length rows none c merged did,
            )
      ]

  no_rows :
      (rows : List ImportRow) (c : Committer S)
      → rows ≡ []
      → (a : ℕ × Bool × Committer S) × (apply_group services lower public rows c ≡ ok a)
  unfolding apply_group merge_rows add_rows
  no_rows [] c e = ((0, false, c), refl)
  no_rows (r ∷ rows) c e = cc

  apply_groups-count :
      (keys : List Text) (rows : List ImportRow) (c : Committer S) (answer : ℕ × ℕ × Committer S)
      → apply_groups services lower public keys rows c ≡ ok answer
      → (answer.1 ≡ rows_under keys rows) × (answer.0 ≤ length keys)
  unfolding apply_groups
  apply_groups-count [] rows c answer h = ground arith
  apply_groups-count (key ∷ keys) rows c answer h =
      elim (Result-cases
        (at_first (rows_of key rows) (apply_group services lower public (rows_of key rows) c))) [
          | inl (e, no_) ↦ ground arith
          | inr (group, did) ↦
              elim (Result-cases (apply_groups services lower public keys rows group.2)) [
                | inl (e, no_) ↦ ground arith
                | inr (rest, others) ↦
                    let count = apply_group-length (rows_of key rows) c group (
                      at_first-ok (rows_of key rows)
                        (apply_group services lower public (rows_of key rows) c) group did) in
                    let (applied, created) = apply_groups-count keys rows group.2 rest others in
                    (ground arith, ground arith)
              ]
        ]

  apply_groups-safe :
      (keys : List Text) (rows : List ImportRow) (c : Committer S)
      → AreReady rows
      → apply_groups services lower public keys rows c ≢ err panicked
  unfolding apply_groups
  apply_groups-safe [] rows c ready h = cc
  apply_groups-safe (key ∷ keys) rows c ready h =
      let group = apply_group services lower public (rows_of key rows) c in
      elim (Result-cases (at_first (rows_of key rows) group)) [
        | inl (e, no_) ↦
            at_first-Safe (rows_of key rows) group
              (Safe-apply_group services lower public (rows_of key rows) c
                (AreReady-rows_of key rows ready))
              (no_rows (rows_of key rows) c) (ground arith)
        | inr (done, did) ↦
            elim (Result-cases (apply_groups services lower public keys rows done.2)) [
              | inl (e, no_) ↦ apply_groups-safe keys rows done.2 ready (ground arith)
              | inr (rest, others) ↦ ground arith
            ]
      ]

  -- A commit that a reviewer's requests lead to, on a batch as Stage leaves it, never panics while it
  -- writes the products, whatever the services answer, provided that no product that a row of the
  -- batch points at is deleted before the commit has listed the rows; and if it succeeds, the
  -- number of rows that it reports is the number of rows that were accepted or merged, and it creates
  -- no more products than those rows have groups. The products `deleted` go between the commit's
  -- change of status and its list of the rows.
  pub commit-apply :
      (ts : List ReviewRequest) (deleted : List ℕ) (gone : ℕ → Bool) (b b' : Batch)
      (c : Committer S)
      → IsInReview b.rows
      → commit (reviewed ts b) (reviewed ts b) ≡ ok b'
      → All (DeletesOnly gone) ts
      → All (λ p. gone p ≡ true) deleted
      → All (λ r. names_gone gone r.row.target ≡ false) b.rows
      → (apply services lower public (forget_products deleted b'.rows) c ≢ err panicked)
        × ((created applied : ℕ) (c' : Committer S)
            → apply services lower public (forget_products deleted b'.rows) c
              ≡ ok (created, applied, c')
            → (applied ≡ count_rows is_applied b'.rows)
              × (created ≤ length (group_keys [] b'.rows)))
  unfolding apply
  commit-apply ts deleted gone b b' c fine h only goes spared =
      let fit = committed_rows ts b b' fine h gone only spared in
      let ready = All-imp _ _ (λ r f. f.0) b'.rows fit in
      let kept =
        forget_products-spared gone deleted b'.rows goes (All-imp _ _ (λ r f. f.1) b'.rows fit) in
      rw kept (
        apply_groups-safe (group_keys [] b'.rows) b'.rows c ready,
        λ created applied c' did.
            let (count, bound) =
              apply_groups-count (group_keys [] b'.rows) b'.rows c (created, applied, c') did in
            (count ∙ rows_under-group_keys [] b'.rows ∙ fresh_at_start b'.rows, bound),
      )
