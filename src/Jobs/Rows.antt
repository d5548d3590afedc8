-- ===== src/Jobs/Rows.antt =====
-- db/queries/jobs.sql, row by row: what each statement does to a row that it updates. Times are in
-- milliseconds; `now()` is an argument.
use khans_bike.Common.{
  ℕ, ◌+◌, ◌*◌, ◌^◌, Bool, true, false, ◌&&◌, Option, none, some, ltb, leb, if◌then◌else◌,
}
use khans_bike.Common.Text.{Text, codes}

-- job_state.
pub data JobState : Type 0 where
  queued running done failed dead : JobState

abbrev pub is_queued : JobState → Bool
is_queued queued = true
is_queued _ = false

abbrev pub is_running : JobState → Bool
is_running running = true
is_running _ = false

abbrev pub is_done : JobState → Bool
is_done done = true
is_done _ = false

-- `state IN ('failed', 'dead')`.
abbrev pub is_failure : JobState → Bool
is_failure failed = true
is_failure dead = true
is_failure _ = false

pub record Job : Type 0 where
  pub id : ℕ
  pub kind : Text
  pub payload : Text
  pub state : JobState
  pub attempts : ℕ
  pub max_attempts : ℕ
  pub run_after : ℕ
  pub locked_by : Option Text
  pub locked_at : Option ℕ
  pub last_error : Option Text
  pub updated_at : ℕ

-- defaultMaxAttempts.
abbrev pub default_max_attempts : ℕ
default_max_attempts = 5

-- EnqueueJob, as Queries.Enqueue calls it: to run at once.
unfoldable pub new_job : ℕ → ℕ → Text → Text → Job
new_job now id kind payload = record {
  id = id;
  kind = kind;
  payload = payload;
  state = queued;
  attempts = 0;
  max_attempts = default_max_attempts;
  run_after = now;
  locked_by = none;
  locked_at = none;
  last_error = none;
  updated_at = now;
}

-- ClaimJob.
unfoldable pub claim_row : ℕ → Text → Job → Job
claim_row now worker j = record j {
  state = running;
  locked_by = some worker;
  locked_at = some now;
  attempts = j.attempts + 1;
  updated_at = now;
}

-- CompleteJob.
unfoldable pub complete_row : ℕ → Job → Job
complete_row now j = record j { state = done; locked_by = none; locked_at = none; updated_at = now }

-- CASE WHEN attempts >= max_attempts THEN 'dead' ELSE 'queued'.
unfoldable pub requeued : Job → JobState
requeued j = if leb j.max_attempts j.attempts then dead else queued

-- The wait before a retry: 2 ^ attempts seconds times a factor in [0.5, 1.5), whose random part is
-- `jitter` thousandths.
unfoldable pub backoff : ℕ → ℕ → ℕ
backoff attempts jitter = 2 ^ attempts * (500 + jitter)

-- RetryJob.
unfoldable pub retry_row : ℕ → ℕ → Text → Job → Job
unfolding requeued
retry_row now jitter last_error j = record j {
  state = requeued j;
  run_after = now + backoff j.attempts jitter;
  locked_by = none;
  locked_at = none;
  last_error = some last_error;
  updated_at = now;
}

-- FailJob.
unfoldable pub fail_row : ℕ → Text → Job → Job
fail_row now last_error j = record j {
  state = failed;
  locked_by = none;
  locked_at = none;
  last_error = some last_error;
  updated_at = now;
}

-- The lease: ten minutes.
abbrev pub lease : ℕ
lease = 600000

-- The WHERE clause and the SET clause of ReapStuckJobs.
unfoldable pub is_stuck : ℕ → Job → Bool
is_stuck now j = elim j.locked_at [
  | none ↦ false
  | some at ↦ is_running j.state && ltb (at + lease) now
]

unfoldable pub reap_row : ℕ → Job → Job
unfolding requeued
reap_row now j = record j {
  state = requeued j;
  locked_by = none;
  locked_at = none;
  last_error = some (codes "lease expired: worker stopped before finishing");
  updated_at = now;
}
