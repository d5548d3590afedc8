-- ===== src/Importer/Closing.antt =====
-- internal/importer/importer.go: what the review of a batch guarantees to its commit.
use khans_bike.Common.{
  ℕ, ◌≤◌, ◌≡◌, refl, true, false, not, ◌&&◌, some, List, [], ◌∷◌, arith, Bool-cases, inl, inr,
  Result, ok, err, guard, find_row, count_rows, ◌==◌, ltb, Option-cases, >>=-eq-ok,
}
use khans_bike.Domain.Status.{
  BatchStatus, reviewing, committed, aborted, is_open, Decision, decision_is_valid, is_pending,
}
use khans_bike.Importer.Review.{
  ImportRow, Batch, ReviewError, Review, decide, abort_batch, commit_batch, delete_product,
  set_status, is_dry_run, decide_row, check_decision, set_decision, close_batch, abort, commit,
  apply_review, is_closing, after_review, succeeded, count_closings, batch_closed, unknown_decision,
  undecided,
}

closed_close_batch :
    (to : BatchStatus) (b : Batch) → is_open b.status ≡ false → close_batch to b ≡ err batch_closed
unfolding close_batch set_status
closed_close_batch to b h = rw h refl

-- What a decision that is recorded had to pass, and what it writes.
pub set_decision_lem :
    (id : ℕ) (d : Decision) (seen b b' : Batch)
    → set_decision id d seen b ≡ ok b'
    → (is_open seen.status ≡ true)
      × ((r : ImportRow) × (find_row (λ k. k.id == id) seen.rows ≡ some r)
          × (check_decision d r.row ≡ ok tt))
      × (b' ≡ (set_status reviewing is_dry_run (record b { rows = decide_row id d b.rows })).0)
unfolding set_decision
set_decision_lem id d seen b b' h =
    let (_, valid, h') = >>=-eq-ok (guard (decision_is_valid d) unknown_decision) _ h in
    let (_, is_on, h2) = >>=-eq-ok (guard (is_open seen.status) batch_closed) _ h' in
    elim (Option-cases (find_row (λ k. k.id == id) seen.rows)) [
      | inl missing ↦ ground arith
      | inr (r, hit) ↦ ground arith
    ]

after_closed :
    (b : Batch) (res : Result ReviewError Batch)
    → is_open b.status ≡ false
    → ((b' : Batch) → res ≡ ok b' → is_open b'.status ≡ false)
    → is_open (after_review b res).status ≡ false
after_closed b (ok b') h k = k b' refl
after_closed b (err e) h k = h

reviewing_closed :
    (b : Batch)
    → is_open b.status ≡ false
    → is_open (set_status reviewing is_dry_run b).0.status ≡ false
unfolding set_status is_open
reviewing_closed b h = ground arith

closed_commit : (seen b : Batch) → is_open b.status ≡ false → succeeded (commit seen b) ≡ false
unfolding commit
closed_commit seen b h = elim (Bool-cases (is_open seen.status)) [
  | inl y ↦
      elim (Bool-cases (not (ltb 0 (count_rows (λ r. is_pending r.row.decision) seen.rows)))) [
        | inl z ↦ rw (y, z, closed_close_batch committed b h) refl
        | inr z ↦ rw (y, z) refl
      ]
  | inr n ↦ rw n refl
]

failed_keeps :
    (b : Batch) (res : Result ReviewError Batch) → succeeded res ≡ false → after_review b res ≡ b
failed_keeps b (ok b') h = cc
failed_keeps b (err e) h = refl

-- No transaction changes the status of a closed batch, and none closes it again.
closed_apply_review :
    (t : Review) (b : Batch)
    → is_open b.status ≡ false
    → (is_open (after_review b (apply_review t b)).status ≡ false)
      × ((is_closing t && succeeded (apply_review t b)) ≡ false)
unfolding apply_review
closed_apply_review (decide id d seen) b h = (
  after_closed b (set_decision id d seen b) h
      (λ b' e. let (_, _, w) = set_decision_lem id d seen b b' e in rw w (reviewing_closed _ h)),
  refl,
)
closed_apply_review abort_batch b h = unfold abort in rw (closed_close_batch aborted b h) (h, refl)
closed_apply_review (commit_batch seen) b h =
    (rw (failed_keeps b (commit seen b) (closed_commit seen b h)) h, closed_commit seen b h)
closed_apply_review (delete_product product) b h = (h, refl)

none_closes : (ts : List Review) (b : Batch) → is_open b.status ≡ false → count_closings ts b ≡ 0
unfolding count_closings
none_closes [] b h = refl
none_closes (t ∷ ts) b h =
    let (still, none_now) = closed_apply_review t b h in rw none_now (none_closes ts _ still)

close_batch-closed :
    (to : BatchStatus) (b b' : Batch)
    → is_open to ≡ false
    → close_batch to b ≡ ok b'
    → is_open b'.status ≡ false
unfolding close_batch set_status
close_batch-closed to b b' h e = elim (Bool-cases (is_open b.status)) [
  | inl y ↦ ground arith
  | inr n ↦ ground arith
]

pub commit_lem :
    (seen b b' : Batch)
    → commit seen b ≡ ok b'
    → (is_open seen.status ≡ true)
      × (ltb 0 (count_rows (λ r. is_pending r.row.decision) seen.rows) ≡ false)
      × (close_batch committed b ≡ ok b')
unfolding commit
commit_lem seen b b' h =
    let (_, is_on, h') = >>=-eq-ok (guard (is_open seen.status) batch_closed) _ h in
    let (_, settled, h2) =
      >>=-eq-ok
        (guard (not (ltb 0 (count_rows (λ r. is_pending r.row.decision) seen.rows))) undecided) _
        h' in
    (ground arith, ground arith, h2)

succeeded_closed :
    (b : Batch) (res : Result ReviewError Batch)
    → succeeded res ≡ true
    → ((b' : Batch) → res ≡ ok b' → is_open b'.status ≡ false)
    → is_open (after_review b res).status ≡ false
succeeded_closed b (ok b') h k = k b' refl
succeeded_closed b (err e) h k = cc

closing_closes :
    (t : Review) (b : Batch)
    → (is_closing t && succeeded (apply_review t b)) ≡ true
    → is_open (after_review b (apply_review t b)).status ≡ false
unfolding apply_review is_open
closing_closes (decide id d seen) b h = cc
closing_closes abort_batch b h =
    unfold abort in
    succeeded_closed b (close_batch aborted b) h (λ b' e. close_batch-closed aborted b b' refl e)
closing_closes (commit_batch seen) b h =
    succeeded_closed b (commit seen b) h
      (λ b' e. close_batch-closed committed b b' refl (commit_lem seen b b' e).2)
closing_closes (delete_product product) b h = cc

-- However transactions interleave, at most one commit or abort of a batch succeeds.
pub count_closings_le : (ts : List Review) (b : Batch) → count_closings ts b ≤ 1
unfolding count_closings
count_closings_le [] b = omega arith
count_closings_le (t ∷ ts) b = elim (Bool-cases (is_closing t && succeeded (apply_review t b))) [
  | inl won ↦
      rw won
        (omega (arith, none_closes ts (after_review b (apply_review t b)) (closing_closes t b won)))
  | inr lost ↦ rw lost (count_closings_le ts (after_review b (apply_review t b)))
]
