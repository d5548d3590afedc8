-- ===== src/Jobs/Queue.antt =====
-- db/queries/jobs.sql on the whole table. A statement is one atomic step, as in Postgres, and the
-- rows that another transaction holds are an argument of the claim (SKIP LOCKED).
use khans_bike.Common.{
  any, ℕ, ◌+◌, Bool, not, ◌&&◌, ◌||◌, Option, none, some, List, [], ◌∷◌, ◌++◌, ltb, leb, ◌==◌,
  if◌then◌else◌,
}
use khans_bike.Common.Text.{Text, text_eq}
use khans_bike.Jobs.Rows.{
  Job, is_queued, is_done, is_failure, new_job, claim_row, complete_row, retry_row, fail_row,
  is_stuck, reap_row,
}

-- UPDATE jobs SET ... WHERE ...
unfoldable pub update_where : (Job → Bool) → (Job → Job) → List Job → List Job
update_where p f [] = []
update_where p f (j ∷ js) = (if p j then f j else j) ∷ update_where p f js

-- DELETE FROM jobs WHERE ...
unfoldable pub delete_where : (Job → Bool) → List Job → List Job
delete_where p [] = []
delete_where p (j ∷ js) = let rest = delete_where p js in if p j then rest else j ∷ rest

abbrev pub has_id : ℕ → Job → Bool
has_id id j = j.id == id

-- The rows that the claim's subquery selects from.
unfoldable pub is_runnable : ℕ → (ℕ → Bool) → Job → Bool
is_runnable now locked j = is_queued j.state && leb j.run_after now && not (locked j.id)

-- ORDER BY run_after LIMIT 1; of rows due at one time the first of the table is taken.
unfoldable pub earlier : Job → Option Job → Job
earlier j none = j
earlier j (some k) = if leb j.run_after k.run_after then j else k

unfoldable pub oldest : (Job → Bool) → List Job → Option Job
unfolding earlier
oldest p [] = none
oldest p (j ∷ js) = let rest = oldest p js in if p j then some (earlier j rest) else rest

-- ClaimJob: the claimed row and the table; `none` is pgx.ErrNoRows.
unfoldable pub claim_job : ℕ → Text → (ℕ → Bool) → List Job → Option (Job × List Job)
claim_job now worker locked jobs = elim (oldest (is_runnable now locked) jobs) [
  | none ↦ none
  | some j ↦ some (claim_row now worker j, update_where (has_id j.id) (claim_row now worker) jobs)
]

-- What any client of the queue can do.
pub data Op : Type 0 where
  enqueue : ℕ → Text → Text → Op
  claim : Text → (ℕ → Bool) → Op
  complete : ℕ → Op
  retry : ℕ → ℕ → Text → Op
  fail : ℕ → Text → Op
  reap : Op
  discard_queued : Text → Op
  delete_finished : Op

-- Retention: a week and thirty days.
abbrev pub week : ℕ
week = 604800000

abbrev pub month : ℕ
month = 2592000000

unfoldable pub is_outdated : ℕ → Job → Bool
is_outdated now j =
    is_done j.state && ltb (j.updated_at + week) now
    || is_failure j.state && ltb (j.updated_at + month) now

unfoldable pub after_claim : List Job → Option (Job × List Job) → List Job
after_claim jobs none = jobs
after_claim jobs (some (_, jobs')) = jobs'

-- An insert of an id that is there breaks the primary key and changes nothing.
unfoldable pub step : ℕ → Op → List Job → List Job
step now (enqueue id kind payload) jobs =
    if any (has_id id) jobs then jobs else jobs ++ new_job now id kind payload ∷ []
step now (claim worker locked) jobs = after_claim jobs (claim_job now worker locked jobs)
step now (complete id) jobs = update_where (has_id id) (complete_row now) jobs
step now (retry id jitter e) jobs = update_where (has_id id) (retry_row now jitter e) jobs
step now (fail id e) jobs = update_where (has_id id) (fail_row now e) jobs
step now reap jobs = update_where (is_stuck now) (reap_row now) jobs
step now (discard_queued kind) jobs =
    delete_where (λ j. text_eq j.kind kind && is_queued j.state) jobs
step now delete_finished jobs = delete_where (is_outdated now) jobs

-- A history of the queue.
unfoldable pub run : List (ℕ × Op) → List Job → List Job
run [] jobs = jobs
run ((now, op) ∷ ops) jobs = run ops (step now op jobs)
