-- ===== src/Importer/Review.antt =====
-- internal/importer/importer.go: SetDecision, Abort and Commit on a batch in review, with the
-- statements of db/queries/imports.sql. What committing writes to the products is in Importer/Commit.
-- A transaction reads the batch first (`seen`) and writes later, when others may have changed it.
use khans_bike.Common.{
  ℕ, suc, Bool, true, false, not, ◌&&◌, Option, none, some, List, [], ◌∷◌, if◌then◌else◌, Result,
  ok, err, ◌>>=◌, guard, find_row, update_rows, count_rows, ◌==◌, ltb,
}
use khans_bike.Domain.Status.{
  BatchStatus, dry_run, reviewing, committed, aborted, is_open, Decision, decision_is_valid,
  is_accept, is_merge, is_pending, error,
}
use khans_bike.Importer.Staging.{StagedRow, has_issue}
use khans_bike.Importer.Reviewable.{has_value}

-- A staged row under the id that it is stored with.
pub record ImportRow : Type 0 where
  pub id : ℕ
  pub row : StagedRow

pub record Batch : Type 0 where
  pub status : BatchStatus
  pub rows : List ImportRow

pub data ReviewError : Type 0 where
  unknown_decision batch_closed row_not_found row_has_errors nothing_to_merge undecided :
      ReviewError

-- SetImportBatchStatus: the batch, and whether its status was one of those expected.
unfoldable pub set_status : BatchStatus → (BatchStatus → Bool) → Batch → Batch × Bool
set_status to from b = if from b.status then (record b { status = to }, true) else (b, false)

abbrev pub is_dry_run : BatchStatus → Bool
is_dry_run dry_run = true
is_dry_run _ = false

-- SetImportRowDecision.
unfoldable pub decide_row : ℕ → Decision → List ImportRow → List ImportRow
decide_row id d =
    update_rows (λ r. r.id == id) (λ r. record r { row = record (r.row) { decision = d } })

-- The switch of SetDecision.
unfoldable pub check_decision : Decision → StagedRow → Result ReviewError (Unit {0})
check_decision d r =
    if is_accept d && has_issue error r
    then err row_has_errors
    else if is_merge d && not (has_value r.proposal.target_variant_id)
    then err nothing_to_merge
    else ok tt

unfoldable pub set_decision : ℕ → Decision → Batch → Batch → Result ReviewError Batch
set_decision id d seen b = guard (decision_is_valid d) unknown_decision >>= λ _.
    guard (is_open seen.status) batch_closed >>= λ _. elim (find_row (λ r. r.id == id) seen.rows) [
      | none ↦ err row_not_found
      | some r ↦ check_decision d r.row >>= λ _.
          ok (set_status reviewing is_dry_run (record b { rows = decide_row id d b.rows })).0
    ]

unfoldable pub close_batch : BatchStatus → Batch → Result ReviewError Batch
close_batch to b =
    let (b', moved) = set_status to is_open b in if moved then ok b' else err batch_closed

-- Abort.
unfoldable pub abort : Batch → Result ReviewError Batch
abort b = close_batch aborted b

-- Commit up to the change of status: no row that was read may be pending.
unfoldable pub commit : Batch → Batch → Result ReviewError Batch
commit seen b = guard (is_open seen.status) batch_closed >>= λ _.
    guard (not (ltb 0 (count_rows (λ r. is_pending r.row.decision) seen.rows))) undecided >>= λ _.
    close_batch committed b

-- DELETE FROM products: target_product_id of import_rows is ON DELETE SET NULL.
abbrev pub names_product : ℕ → Option ℕ → Bool
names_product product none = false
names_product product (some p) = p == product

abbrev pub points_at : ℕ → ImportRow → Bool
points_at product r = names_product product r.row.target

unfoldable pub forget_product : ℕ → List ImportRow → List ImportRow
forget_product product =
    update_rows (points_at product) (λ r. record r { row = record (r.row) { target = none } })

-- A transaction, with the batch that it has read before; a product may be deleted meanwhile.
pub data Review : Type 0 where
  decide : ℕ → Decision → Batch → Review
  abort_batch : Review
  commit_batch : Batch → Review
  delete_product : ℕ → Review

unfoldable pub apply_review : Review → Batch → Result ReviewError Batch
apply_review (decide id d seen) b = set_decision id d seen b
apply_review abort_batch b = abort b
apply_review (commit_batch seen) b = commit seen b
apply_review (delete_product product) b = ok (record b { rows = forget_product product b.rows })

abbrev pub is_closing : Review → Bool
is_closing (decide _ _ _) = false
is_closing (delete_product _) = false
is_closing _ = true

-- A failed transaction changes nothing.
abbrev pub after_review : Batch → Result ReviewError Batch → Batch
after_review b (ok b') = b'
after_review b (err _) = b

abbrev pub succeeded : Result ReviewError Batch → Bool
succeeded (ok _) = true
succeeded (err _) = false

unfoldable pub reviews : List Review → Batch → Batch
reviews [] b = b
reviews (t ∷ ts) b = reviews ts (after_review b (apply_review t b))

-- How many commits and aborts of a history succeed.
unfoldable pub count_closings : List Review → Batch → ℕ
count_closings [] b = 0
count_closings (t ∷ ts) b =
    let rest = count_closings ts (after_review b (apply_review t b)) in
    if is_closing t && succeeded (apply_review t b) then suc rest else rest
