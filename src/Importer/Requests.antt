-- ===== src/Importer/Requests.antt =====
-- internal/importer/importer.go: what SetDecision, Abort and Commit, and the deletion of a product, leave
-- of the staged rows of a batch that one person at a time reviews.
use khans_bike.Common.{
  ℕ, ◌≡◌, refl, Bool, true, false, Option, none, some, List, [], ◌∷◌, arith, All, Bool-cases, inl,
  inr, Result, ok, err, find_row, update_rows, ◌==◌, update_rows-All, ap, sym, ◌∙◌,
  find_row-update_rows, ==→eq,
}
use mathlib.Core.Option.{some-injective}
use khans_bike.Domain.Status.{
  BatchStatus, reviewing, committed, aborted, is_open, Decision, pending, accept, skip, merge,
  other_decision, is_accept, is_merge, error,
}
use khans_bike.Importer.Staging.{StagedRow, has_issue}
use khans_bike.Importer.Reviewable.{has_value, IsReviewable}
use khans_bike.Importer.Review.{
  ImportRow, Batch, ReviewError, Review, decide, abort_batch, commit_batch, delete_product,
  names_product, points_at, forget_product, set_status, is_dry_run, decide_row, check_decision,
  set_decision, close_batch, abort, commit, apply_review, after_review,
}
use khans_bike.Importer.Closing.{set_decision_lem, commit_lem}

-- The products that may be deleted while a batch is in review.
abbrev pub names_gone : (ℕ → Bool) → Option ℕ → Bool
names_gone gone none = false
names_gone gone (some p) = gone p

-- A row that names an existing variant names its product, which is not one that goes.
abbrev pub NamesBoth : (ℕ → Bool) → Option ℕ → Option ℕ → Type 0
NamesBoth gone variant target =
    (has_value variant ≡ true → has_value target ≡ true) × (names_gone gone target ≡ false)

-- A row that its id finds, that names a variant if it is to be merged and has no errors if it is
-- accepted; `Link` is what its variant and its product keep.
abbrev pub IsStored : (Option ℕ → Option ℕ → Type 0) → List ImportRow → ImportRow → Type 0
IsStored Link rows r =
    (find_row (λ k. k.id == r.id) rows ≡ some r)
    × (is_merge r.row.decision ≡ true → has_value r.row.proposal.target_variant_id ≡ true)
    × (is_accept r.row.decision ≡ true → has_issue error r.row ≡ false)
    × Link r.row.proposal.target_variant_id r.row.target

abbrev pub IsUnderReview : (Option ℕ → Option ℕ → Type 0) → List ImportRow → Type 0
IsUnderReview Link rows = All (IsStored Link rows) rows

-- A batch whose rows are found under their ids and are as Stage leaves them.
abbrev pub IsInReview : List ImportRow → Type 0
IsInReview rows = All (λ r. (find_row (λ k. k.id == r.id) rows ≡ some r) × IsReviewable r.row) rows

check_decision-merge :
    (d : Decision) (r : StagedRow)
    → check_decision d r ≡ ok tt
    → is_merge d ≡ true
    → has_value r.proposal.target_variant_id ≡ true
unfolding check_decision
check_decision-merge merge r c k = ground arith
check_decision-merge accept r c k = cc
check_decision-merge skip r c k = cc
check_decision-merge pending r c k = cc
check_decision-merge (other_decision t) r c k = cc

check_decision-accept :
    (d : Decision) (r : StagedRow)
    → check_decision d r ≡ ok tt
    → is_accept d ≡ true
    → has_issue error r ≡ false
unfolding check_decision
check_decision-accept accept r c k = ground arith
check_decision-accept merge r c k = cc
check_decision-accept skip r c k = cc
check_decision-accept pending r c k = cc
check_decision-accept (other_decision t) r c k = cc

has_issue-decision :
    (d : Decision) (r : StagedRow) → has_issue error (record r { decision = d }) ≡ has_issue error r
unfolding has_issue
has_issue-decision d r = refl

module _ (Link : Option ℕ → Option ℕ → Type 0) where
  decide_row-IsUnderReview :
      (id : ℕ) (d : Decision) (rows : List ImportRow) (r : ImportRow)
      → find_row (λ k. k.id == id) rows ≡ some r
      → check_decision d r.row ≡ ok tt
      → IsUnderReview Link rows
      → IsUnderReview Link (decide_row id d rows)
  unfolding decide_row
  decide_row-IsUnderReview id d rows r hit c h =
      let here = λ (k : ImportRow). k.id == id in
      let put = λ (k : ImportRow). record k { row = record (k.row) { decision = d } } in
      update_rows-All (IsStored Link (update_rows here put rows)) (IsStored Link rows) here put rows
        (λ x (found, m, a, l) e.
          let same : x ≡ r =
            some-injective _ _
              (sym found ∙ ap (λ n. find_row (λ k. k.id == n) rows) (==→eq x.id id e) ∙ hit) in
          let c' : check_decision d x.row ≡ ok tt = rw same c in
          (
            find_row-update_rows here put (λ k. k.id == x.id) (λ y. refl) rows ∙ rw (found, e) refl,
            check_decision-merge d x.row c',
            (λ k. has_issue-decision d x.row ∙ check_decision-accept d x.row c' k),
            l,
          ))
        (λ x (found, m, a, l) e. (
          find_row-update_rows here put (λ k. k.id == x.id) (λ y. refl) rows ∙ rw (found, e) refl,
          m,
          a,
          l,
        ))
        h

  -- A deleted product.
  forget_product-IsUnderReview :
      (product : ℕ) (rows : List ImportRow)
      → ((v t : Option ℕ) → names_product product t ≡ true → Link v t → Link v none)
      → IsUnderReview Link rows
      → IsUnderReview Link (forget_product product rows)
  unfolding forget_product has_issue
  forget_product-IsUnderReview product rows loses h =
      let put = λ (k : ImportRow). record k { row = record (k.row) { target = none } } in
      let here = points_at product in
      update_rows-All (IsStored Link (update_rows here put rows)) (IsStored Link rows) here put rows
        (λ x (found, m, a, l) e. (
          find_row-update_rows here put (λ k. k.id == x.id) (λ y. refl) rows ∙ rw (found, e) refl,
          m,
          a,
          loses x.row.proposal.target_variant_id x.row.target e l,
        ))
        (λ x (found, m, a, l) e. (
          find_row-update_rows here put (λ k. k.id == x.id) (λ y. refl) rows ∙ rw (found, e) refl,
          m,
          a,
          l,
        ))
        h

reviewing-rows : (b : Batch) → (set_status reviewing is_dry_run b).0.rows ≡ b.rows
unfolding set_status
reviewing-rows b = ground arith

pub close_batch-rows :
    (to : BatchStatus) (b b' : Batch) → close_batch to b ≡ ok b' → b'.rows ≡ b.rows
unfolding close_batch set_status
close_batch-rows to b b' h = elim (Bool-cases (is_open b.status)) [
  | inl y ↦ ground arith
  | inr n ↦ ground arith
]

-- What one reviewer asks for, each transaction on the batch as the one before has left it; and the
-- deletion of a product by somebody else.
pub data ReviewRequest : Type 0 where
  set_row : ℕ → Decision → ReviewRequest
  give_up commit_now : ReviewRequest
  product_gone : ℕ → ReviewRequest

unfoldable pub as_review : ReviewRequest → Batch → Review
as_review (set_row id d) b = decide id d b
as_review give_up b = abort_batch
as_review commit_now b = commit_batch b
as_review (product_gone product) b = delete_product product

unfoldable pub reviewed : List ReviewRequest → Batch → Batch
reviewed [] b = b
reviewed (t ∷ ts) b = reviewed ts (after_review b (apply_review (as_review t b) b))

-- The deletions of a history are of products that may go.
abbrev pub DeletesOnly : (ℕ → Bool) → ReviewRequest → Type 0
DeletesOnly gone (product_gone product) = gone product ≡ true
DeletesOnly gone _ = Unit {0}

module _ (Link : Option ℕ → Option ℕ → Type 0) (gone : ℕ → Bool)
    (loses : (v t : Option ℕ) → names_gone gone t ≡ true → Link v t → Link v none) where
  after_IsUnderReview :
      (b : Batch) (res : Result ReviewError Batch)
      → IsUnderReview Link b.rows
      → ((b' : Batch) → res ≡ ok b' → IsUnderReview Link b'.rows)
      → IsUnderReview Link (after_review b res).rows
  after_IsUnderReview b (ok b') h k = k b' refl
  after_IsUnderReview b (err e) h k = h

  product_goes :
      (product : ℕ)
      → gone product ≡ true
      → (v t : Option ℕ) → names_product product t ≡ true
      → Link v t
      → Link v none
  product_goes product may v none named l = cc
  product_goes product may v (some p) named l =
      loses v (some p) (ap gone (==→eq p product named) ∙ may) l

  request-IsUnderReview :
      (t : ReviewRequest) (b : Batch)
      → DeletesOnly gone t
      → IsUnderReview Link b.rows
      → IsUnderReview Link (after_review b (apply_review (as_review t b) b)).rows
  unfolding apply_review as_review
  request-IsUnderReview (set_row id d) b only h =
      after_IsUnderReview b (set_decision id d b b) h (λ b' e.
        let (_, (r, hit, c), w) = set_decision_lem id d b b b' e in
        rw (w, reviewing-rows (record b { rows = decide_row id d b.rows }))
          (decide_row-IsUnderReview Link id d b.rows r hit c h))
  request-IsUnderReview give_up b only h =
      unfold abort in
      after_IsUnderReview b (close_batch aborted b) h
        (λ b' e. rw (close_batch-rows aborted b b' e) h)
  request-IsUnderReview commit_now b only h =
      after_IsUnderReview b (commit b b) h
        (λ b' e. rw (close_batch-rows committed b b' (commit_lem b b b' e).2) h)
  request-IsUnderReview (product_gone product) b only h =
      forget_product-IsUnderReview Link product b.rows (product_goes product only) h

  pub reviewed-IsUnderReview :
      (ts : List ReviewRequest) (b : Batch)
      → All (DeletesOnly gone) ts
      → IsUnderReview Link b.rows
      → IsUnderReview Link (reviewed ts b).rows
  unfolding reviewed
  reviewed-IsUnderReview [] b only h = h
  reviewed-IsUnderReview (t ∷ ts) b (now, only) h =
      reviewed-IsUnderReview ts (after_review b (apply_review (as_review t b) b)) only
        (request-IsUnderReview t b now h)
