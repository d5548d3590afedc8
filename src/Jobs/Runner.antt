-- ===== src/Jobs/Runner.antt =====
-- internal/jobs/runner.go: ProcessNext and run. A handler is Go code registered under a job's kind; its
-- outcome is what it returned. The wait of a retry draws on random(), the argument `jitter`.
use khans_bike.Common.{ℕ, suc, Bool, true, false, Option, none, some, List, [], ◌∷◌, if◌then◌else◌}
use khans_bike.Common.Text.{Text}
use khans_bike.Jobs.Rows.{Job, complete_row, retry_row, fail_row}
use khans_bike.Jobs.Queue.{claim_job, update_where, has_id}

-- What a handler does: return nil, return an error marked Permanent, return another error, or panic.
pub data Return : Type 0 where
  returned_nil : Return
  returned_permanent : Text → Return
  returned_error : Text → Return
  panicked : Text → Return

abbrev pub Handlers : Type 0
Handlers = Text → Option (Text → Return)

-- The error that `run` gives to ProcessNext; a panic is recovered into an error that is retried.
pub data RunError : Type 0 where
  permanent : Text → RunError
  retryable : Text → RunError

unfoldable pub outcome : Return → Option RunError
outcome returned_nil = none
outcome (returned_permanent e) = some (permanent e)
outcome (returned_error e) = some (retryable e)
outcome (panicked e) = some (retryable e)

unfoldable pub run_job : Handlers → Text → Job → Option RunError
unfolding outcome
run_job handlers no_handler job = elim (handlers job.kind) [
  | none ↦ some (permanent no_handler)
  | some h ↦ outcome (h job.payload)
]

-- The switch of ProcessNext, on the job's row.
unfoldable pub settle_row : ℕ → ℕ → Option RunError → Job → Job
settle_row now jitter none = complete_row now
settle_row now jitter (some (permanent e)) = fail_row now e
settle_row now jitter (some (retryable e)) = retry_row now jitter e

-- ProcessNext over a queue whose statements succeed: whether a job was found, and the table. The job
-- is claimed at `now` and settled at `later`.
unfoldable pub process_next :
    Handlers → Text → ℕ → ℕ → ℕ → Text → (ℕ → Bool) → List Job → Bool × List Job
process_next handlers no_handler now later jitter worker locked jobs =
    elim (claim_job now worker locked jobs) [
      | none ↦ (false, jobs)
      | some (job, jobs') ↦ (
        true,
        update_where (has_id job.id) (settle_row later jitter (run_job handlers no_handler job))
            jobs',
      )
    ]

-- A call of ProcessNext: when it claims, when it settles, who calls it, and which rows are locked.
pub record Call : Type 0 where
  pub claimed_at : ℕ
  pub settled_at : ℕ
  pub jitter : ℕ
  pub worker : Text
  pub locked : ℕ → Bool

-- Calls one after the other: how many found a job, and the table.
abbrev pub count_call : Bool → ℕ × List Job → ℕ × List Job
count_call found (n, jobs) = (if found then suc n else n, jobs)

unfoldable pub process_all : Handlers → Text → List Call → List Job → ℕ × List Job
process_all handlers no_handler [] jobs = (0, jobs)
process_all handlers no_handler (c ∷ calls) jobs =
    let (found, jobs') =
      process_next handlers no_handler c.claimed_at c.settled_at c.jitter c.worker c.locked jobs in
    count_call found (process_all handlers no_handler calls jobs')
