-- ===== src/Examples/Jobs.antt =====
-- Runs of the job queue, and its theorems at them.
use mathlib.Core.List.Memᴰ.{head}
use khans_bike.Common.{
  ℕ, ◌+◌, ◌≡◌, ◌≢◌, refl, Bool, true, false, any, count_rows, none, some, List, [], ◌∷◌, arith,
}
use khans_bike.Common.Text.{Text, codes}
use khans_bike.Jobs.Rows.{Job, queued, claim_row, retry_row, requeued, backoff}
use khans_bike.Jobs.Queue.{
  Op, enqueue, claim, complete, retry, claim_job, run, is_runnable, oldest, update_where, earlier,
  has_id,
}
use khans_bike.Jobs.Sound.{IsTable}
use khans_bike.Jobs.Claims.{run-IsTable, claim_job-ClaimsOldest, ClaimsOldest, claim_job_exclusive}
use khans_bike.Jobs.Drained.{claim_times, claim_times-drained, is_due}
use khans_bike.Jobs.Runner.{
  Handlers, panicked, Call, process_all, process_next, settle_row, run_job, outcome,
}

abbrev kind : Text
kind = codes "media.process"

abbrev worker : Text
worker = codes "worker-1"

abbrev free : ℕ → Bool
free _ = false

abbrev waiting : ℕ → ℕ → Job
waiting due id = record {
  id = id;
  kind = kind;
  payload = [];
  state = queued;
  attempts = 0;
  max_attempts = 5;
  run_after = due;
  locked_by = none;
  locked_at = none;
  last_error = none;
  updated_at = due;
}

abbrev first_job : Job
first_job = waiting 10 1

abbrev second_job : Job
second_job = waiting 5 2

abbrev two_jobs : List Job
two_jobs = first_job ∷ second_job ∷ []

abbrev history : List (ℕ × Op)
history =
    (1, enqueue 1 kind [])
    ∷ (2, claim worker free)
    ∷ (3, retry 1 0 kind)
    ∷ (400000, claim worker free)
    ∷ (400001, complete 1)
    ∷ []

run-IsTable_example : IsTable (run history [])
run-IsTable_example = run-IsTable history [] (tt, tt)

claim_job-ClaimsOldest_example :
    ClaimsOldest 20 worker free two_jobs (claim_job 20 worker free two_jobs)
claim_job-ClaimsOldest_example = claim_job-ClaimsOldest 20 worker free two_jobs

-- The two tables after one claim and after two.
abbrev claimed_second : List Job
claimed_second = first_job ∷ claim_row 20 worker second_job ∷ []

abbrev claimed_both : List Job
claimed_both = claim_row 30 worker first_job ∷ claim_row 20 worker second_job ∷ []

claims_second :
    claim_job 20 worker free two_jobs ≡ some (claim_row 20 worker second_job, claimed_second)
unfolding claim_job is_runnable oldest update_where earlier claim_row
claims_second = refl

claims_first :
    claim_job 30 worker free claimed_second ≡ some (claim_row 30 worker first_job, claimed_both)
unfolding claim_job is_runnable oldest update_where earlier claim_row
claims_first = refl

claim_job_exclusive_example :
    (claim_row 30 worker first_job).id ≢ (claim_row 20 worker second_job).id
claim_job_exclusive_example =
    claim_job_exclusive 20 worker free two_jobs claimed_second (claim_row 20 worker second_job)
      claims_second 30 worker free claimed_both (claim_row 30 worker first_job) claims_first

-- Two jobs that panic each time, one of them on its last attempt.
abbrev crashing : Handlers
crashing _ = some (λ payload. panicked (codes "boom"))

abbrev last_try : Job
last_try = record (waiting 10 1) { attempts = 4 }

abbrev call_at : ℕ → Call
call_at now = record {
  claimed_at = now;
  settled_at = now + 1;
  jitter = 0;
  worker = worker;
  locked = free;
}

abbrev calls : List Call
calls = call_at 20 ∷ call_at 30 ∷ call_at 40 ∷ []

-- Both jobs are found once, and the third call finds none that is due.
two_found : (process_all crashing [] calls (last_try ∷ second_job ∷ [])).0 ≡ 2
unfolding process_all process_next claim_job is_runnable oldest update_where earlier claim_row
    settle_row retry_row requeued backoff run_job outcome
two_found = refl

first_is_due : is_due 30 first_job ≡ true
unfolding is_runnable
first_is_due = refl

two_due : count_rows (is_due 30) two_jobs ≡ 2
unfolding is_runnable
two_due = refl

claim_times-drained_example :
    any (has_id first_job.id) (claim_times 30 (worker ∷ worker ∷ []) two_jobs) ≡ true
claim_times-drained_example =
    claim_times-drained 30 (worker ∷ worker ∷ []) two_jobs first_job (head refl) first_is_due
      (omega (arith, two_due))
