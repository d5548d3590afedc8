-- ===== src/Importer/Ready.antt =====
-- internal/importer/importer.go: the rows that a Commit at the end of a review finds.
use khans_bike.Common.{
  ℕ, ◌≡◌, refl, Bool, true, false, not, ◌&&◌, ◌||◌, Option, none, some, List, [], ◌∷◌, arith, any,
  any-All, ◌⊎◌, All, All-imp, Bool-cases, inl, inr, ok, find_row, count_rows, ◌==◌, ap, ==→eq,
}
use khans_bike.Domain.Status.{
  committed, Decision, pending, accept, skip, merge, other_decision, is_accept, is_merge,
  is_pending, error,
}
use khans_bike.Importer.Staging.{StagedRow, has_issue}
use khans_bike.Importer.Reviewable.{has_value, IsReviewable}
use khans_bike.Importer.Review.{ImportRow, Batch, names_product, forget_product, commit}
use khans_bike.Importer.Closing.{commit_lem}
use khans_bike.Importer.Requests.{
  names_gone, NamesBoth, IsStored, IsUnderReview, IsInReview, ReviewRequest, reviewed, DeletesOnly,
  close_batch-rows, reviewed-IsUnderReview,
}

-- What Commit asks of a row: it is decided, without errors if it is accepted, and with the variant
-- that is to be updated if it is merged.
abbrev pub row_is_decided : StagedRow → Bool
row_is_decided r =
    not (is_pending r.decision)
    && not (is_accept r.decision && has_issue error r)
    && (not (is_merge r.decision) || has_value r.proposal.target_variant_id)

-- And with the product, which applyGroup dereferences.
abbrev pub row_is_ready : StagedRow → Bool
row_is_ready r = row_is_decided r && (not (is_merge r.decision) || has_value r.target)

decided_if :
    (r : StagedRow) (d : Decision)
    → is_pending d ≡ false
    → (is_merge d ≡ true → has_value r.proposal.target_variant_id ≡ true)
    → (is_accept d ≡ true → has_issue error r ≡ false)
    → (not (is_pending d)
        && not (is_accept d && has_issue error r)
        && (not (is_merge d) || has_value r.proposal.target_variant_id))
      ≡ true
decided_if r pending k m a = cc
decided_if r accept k m a = rw (a refl) refl
decided_if r merge k m a = rw (m refl) refl
decided_if r skip k m a = refl
decided_if r (other_decision w) k m a = refl

product_if :
    (r : StagedRow)
    → (is_merge r.decision ≡ true → has_value r.proposal.target_variant_id ≡ true)
    → (has_value r.proposal.target_variant_id ≡ true → has_value r.target ≡ true)
    → (not (is_merge r.decision) || has_value r.target) ≡ true
product_if r m t = elim (Bool-cases (is_merge r.decision)) [
  | inl y ↦ ground (arith, t (m y))
  | inr n ↦ rw n refl
]

none_pending :
    (Link : Option ℕ → Option ℕ → Type 0) (rows all_rows : List ImportRow)
    → count_rows (λ r. is_pending r.row.decision) rows ≡ 0
    → All (IsStored Link all_rows) rows
    → All (λ r. row_is_decided r.row ≡ true) rows
none_pending Link [] all_rows n h = tt
none_pending Link (r ∷ rows) all_rows n ((found, m, a, l), h) =
    elim (Bool-cases (is_pending r.row.decision)) [
      | inl y ↦ ground arith
      | inr k ↦
          (decided_if r.row r.row.decision k m a, none_pending Link rows all_rows (ground arith) h)
    ]

-- Decided rows that name both are ready.
decided-ready :
    (gone : ℕ → Bool) (rows all_rows : List ImportRow)
    → All (λ r. row_is_decided r.row ≡ true) rows
    → All (IsStored (NamesBoth gone) all_rows) rows
    → All (λ r. (row_is_ready r.row ≡ true) × (names_gone gone r.row.target ≡ false)) rows
decided-ready gone [] all_rows d h = tt
decided-ready gone (r ∷ rows) all_rows (now, d) ((found, m, a, (t, spared)), h) =
    ((rw now (product_if r.row m t), spared), decided-ready gone rows all_rows d h)

module _ (ts : List ReviewRequest) (b b' : Batch) (fine : IsInReview b.rows)
    (done : commit (reviewed ts b) (reviewed ts b) ≡ ok b') where
  settled :
      (Link : Option ℕ → Option ℕ → Type 0)
      → IsUnderReview Link (reviewed ts b).rows
      → IsUnderReview Link b'.rows × All (λ r. row_is_decided r.row ≡ true) b'.rows
  settled Link h =
      let now = reviewed ts b in
      let (_, counted, closing) = commit_lem now now b' done in
      rw (close_batch-rows committed now b' closing)
        (h, none_pending Link now.rows now.rows (ground (arith, counted)) h)

  pub committed_rows :
      (gone : ℕ → Bool)
      → All (DeletesOnly gone) ts
      → All (λ r. names_gone gone r.row.target ≡ false) b.rows
      → All (λ r. (row_is_ready r.row ≡ true) × (names_gone gone r.row.target ≡ false)) b'.rows
  committed_rows gone only spared =
      let (under, decided) = settled (NamesBoth gone) (
        reviewed-IsUnderReview (NamesBoth gone) gone (λ v t named (l, s). cc) ts b only
          (with_spared b.rows b.rows fine spared)) in
      decided-ready gone b'.rows b'.rows decided under
    where
      with_spared :
          (rows all_rows : List ImportRow)
          → All (λ r. (find_row (λ k. k.id == r.id) all_rows ≡ some r) × IsReviewable r.row) rows
          → All (λ r. names_gone gone r.row.target ≡ false) rows
          → All (IsStored (NamesBoth gone) all_rows) rows
      with_spared [] all_rows h s = tt
      with_spared (r ∷ rows) all_rows ((found, ((m, t), a)), h) (here, s) =
          ((found, m, a, (t, here)), with_spared rows all_rows h s)

  -- After any requests of a reviewer on a batch whose rows are found under their ids and are as Stage
  -- leaves them, and any deletions of products meanwhile, a commit that succeeds finds every row
  -- decided, no accepted row with errors, and a variant for every row to be merged; and either a row of
  -- the batch points at a product that may have been deleted, or there is also a product for every
  -- row to be merged.
  pub commit-row_is_ready :
      (gone : ℕ → Bool)
      → All (DeletesOnly gone) ts
      → All (λ r. row_is_decided r.row ≡ true) b'.rows
        × ((any (λ r. names_gone gone r.row.target) b.rows ≡ true)
            ⊎ All (λ r. row_is_ready r.row ≡ true) b'.rows)
  commit-row_is_ready gone only = (
    (settled (λ v t. Unit {0})
        (reviewed-IsUnderReview (λ v t. Unit {0}) gone (λ v t named l. tt) ts b only
          (All-imp _ (IsStored (λ v t. Unit {0}) b.rows)
            (λ r (found, ((m, t), a)). (found, m, a, tt)) b.rows fine))).1,
    elim (Bool-cases (any (λ r. names_gone gone r.row.target) b.rows)) [
      | inl hit ↦ inl hit
      | inr none_hit ↦ inr (
          All-imp _ _ (λ r h. h.0) b'.rows
            (committed_rows gone only
              (any-All (λ r. names_gone gone r.row.target) b.rows none_hit)))
    ],
  )

-- The rows after more products are deleted.
abbrev pub forget_products : List ℕ → List ImportRow → List ImportRow
forget_products [] rows = rows
forget_products (p ∷ products) rows = forget_products products (forget_product p rows)

-- Deletions of products that no row points at change nothing.
module _ (gone : ℕ → Bool) where
  forget_product-spared :
      (product : ℕ) (rows : List ImportRow)
      → gone product ≡ true
      → All (λ r. names_gone gone r.row.target ≡ false) rows
      → forget_product product rows ≡ rows
  unfolding forget_product
  forget_product-spared product [] may h = refl
  forget_product-spared product (r ∷ rows) may (spared, h) =
      rw (other r.row.target spared) (ap (λ xs. r ∷ xs) (forget_product-spared product rows may h))
    where
      other : (t : Option ℕ) → names_gone gone t ≡ false → names_product product t ≡ false
      other none s = refl
      other (some p) s = elim (Bool-cases (p == product)) [
        | inl same ↦ cc (ap gone (==→eq p product same), may, s)
        | inr apart ↦ apart
      ]

  pub forget_products-spared :
      (products : List ℕ) (rows : List ImportRow)
      → All (λ p. gone p ≡ true) products
      → All (λ r. names_gone gone r.row.target ≡ false) rows
      → forget_products products rows ≡ rows
  forget_products-spared [] rows may h = refl
  forget_products-spared (p ∷ products) rows (now, may) h =
      rw (forget_product-spared p rows now h) (forget_products-spared products rows may h)
