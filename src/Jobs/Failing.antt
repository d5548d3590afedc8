-- ===== src/Jobs/Failing.antt =====
-- internal/jobs/runner.go: ProcessNext on jobs whose handlers fail or panic each time.
use mathlib.Core.List.{Memᴰ}
use khans_bike.Common.{
  ℕ, suc, ◌+◌, ◌-◌, ◌<◌, Bool, some, List, [], ◌∷◌, ◌≡◌, ◌⊎◌, if◌then◌else◌, All,
}
use khans_bike.Common.Text.{Text}
use khans_bike.Jobs.Queue.{update_where, has_id}
use khans_bike.Jobs.Rows.{Job, queued, dead, claim_row, retry_row}
use khans_bike.Jobs.Runner.{Handlers, retryable, run_job}
use khans_bike.Jobs.Sound.{Distinct}

-- The attempts that are left of a job, and of all jobs.
abbrev pub left : Job → ℕ
left j = j.max_attempts - j.attempts

abbrev pub all_left : List Job → ℕ
all_left [] = 0
all_left (j ∷ jobs) = left j + all_left jobs

-- An update of one row of a table with distinct ids.
module _ (k : Job) (f : Job → Job) where
  abbrev updated : List Job → List Job
  updated jobs = update_where (has_id k.id) f jobs

module _ (handlers : Handlers) (no_handler : Text) where
  -- The job's handler returns an error that is not permanent, or panics.
  abbrev pub Fails : Job → Type 0
  Fails j = (e : Text) × (run_job handlers no_handler j ≡ some (retryable e))

  -- A job that fails is queued as long as an attempt is left, and dead after the last.
  abbrev pub IsTried : Job → Type 0
  IsTried j =
      Fails j
      × ((j.state ≡ queued) × (j.attempts < j.max_attempts)
          ⊎ (j.state ≡ dead) × (j.attempts ≡ j.max_attempts))

  abbrev tried : ℕ → ℕ → Text → ℕ → Text → Job → Job
  tried now later worker jitter e j = retry_row later jitter e (claim_row now worker j)

  -- What a call leaves.
  IsCalled : List Job → Bool × List Job → Type 0
  IsCalled jobs (found, jobs') =
      Distinct jobs'
      × All IsTried jobs'
      × ((if found then suc (all_left jobs') else all_left jobs') ≡ all_left jobs)
