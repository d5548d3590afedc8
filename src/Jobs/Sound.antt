-- ===== src/Jobs/Sound.antt =====
-- The invariant of the job table, kept by every statement in any order from any number of workers.
use khans_bike.Common.{
  ℕ, ◌≤◌, ◌<◌, ◌≡◌, ◌≢◌, refl, sym, ◌∙◌, Bool, true, false, none, List, [], ◌∷◌, arith,
  if◌then◌else◌, All,
}
use khans_bike.Common.Text.{Text}
use khans_bike.Jobs.Rows.{
  Job, queued, running, dead, new_job, claim_row, complete_row, retry_row, fail_row, reap_row,
}
use khans_bike.Jobs.Queue.{update_where, delete_where}

-- A job has an attempt left while it is queued, is locked exactly while it runs, and dies only when its
-- attempts are used up.
pub record IsSound (j : Job) : Type 0 where
  pub bounded : j.attempts ≤ j.max_attempts
  pub queued_left : j.state ≡ queued → j.attempts < j.max_attempts
  pub running_tried : j.state ≡ running → 0 < j.attempts
  pub running_locked : j.state ≡ running → j.locked_at ≢ none
  pub idle_unlocked : j.state ≢ running → (j.locked_at ≡ none) × (j.locked_by ≡ none)
  pub dead_spent : j.state ≡ dead → j.attempts ≡ j.max_attempts

pub new_job-IsSound : (now id : ℕ) (kind payload : Text) → IsSound (new_job now id kind payload)
unfolding new_job
new_job-IsSound now id kind payload = ground arith

pub claim_row-IsSound :
    (now : ℕ) (worker : Text) (j : Job)
    → j.state ≡ queued
    → IsSound j
    → IsSound (claim_row now worker j)
unfolding claim_row
claim_row-IsSound now worker j q s = ground arith

pub complete_row-IsSound : (now : ℕ) (j : Job) → IsSound j → IsSound (complete_row now j)
unfolding complete_row
complete_row-IsSound now j s = ground arith

pub retry_row-IsSound :
    (now jitter : ℕ) (e : Text) (j : Job) → IsSound j → IsSound (retry_row now jitter e j)
unfolding retry_row
retry_row-IsSound now jitter e j s = ground arith

pub fail_row-IsSound : (now : ℕ) (e : Text) (j : Job) → IsSound j → IsSound (fail_row now e j)
unfolding fail_row
fail_row-IsSound now e j s = ground arith

pub reap_row-IsSound : (now : ℕ) (j : Job) → IsSound j → IsSound (reap_row now j)
unfolding reap_row
reap_row-IsSound now j s = ground arith

-- The table: sound rows with different ids, which is the primary key.
abbrev pub Fresh : ℕ → List Job → Type 0
Fresh id = All (λ j. j.id ≢ id)

abbrev pub Distinct : List Job → Type 0
Distinct [] = Unit
Distinct (j ∷ js) = Fresh j.id js × Distinct js

abbrev pub IsTable : List Job → Type 0
IsTable jobs = Distinct jobs × All IsSound jobs

module _ (p : Job → Bool) (f : Job → Job) (keeps : (j : Job) → (f j).id ≡ j.id) where
  Fresh-update_where : (id : ℕ) (js : List Job) → Fresh id js → Fresh id (update_where p f js)
  unfolding update_where
  Fresh-update_where id [] h = tt
  Fresh-update_where id (j ∷ js) (ne, h) = (λ e. ne (kept (p j) ∙ e), Fresh-update_where id js h)
    where
      kept : (b : Bool) → j.id ≡ (if b then f j else j).id
      kept true = sym (keeps j)
      kept false = refl

  pub Distinct-update_where : (js : List Job) → Distinct js → Distinct (update_where p f js)
  unfolding update_where
  Distinct-update_where [] h = tt
  Distinct-update_where (j ∷ js) (ne, h) = (by_test (p j), Distinct-update_where js h)
    where
      by_test : (b : Bool) → Fresh (if b then f j else j).id (update_where p f js)
      by_test true = rw (keeps j) (Fresh-update_where j.id js ne)
      by_test false = Fresh-update_where j.id js ne

  IsSound-update_where :
      ((j : Job) → IsSound j → IsSound (f j))
      → (js : List Job) → All IsSound js
      → All IsSound (update_where p f js)
  unfolding update_where
  IsSound-update_where sound [] h = tt
  IsSound-update_where sound (j ∷ js) (s, h) = (by_test (p j), IsSound-update_where sound js h)
    where
      by_test : (b : Bool) → IsSound (if b then f j else j)
      by_test true = sound j s
      by_test false = s

  pub IsTable-update_where :
      ((j : Job) → IsSound j → IsSound (f j))
      → (js : List Job) → IsTable js
      → IsTable (update_where p f js)
  IsTable-update_where sound js (d, s) =
      (Distinct-update_where js d, IsSound-update_where sound js s)

module _ (p : Job → Bool) where
  All-delete_where : (P : Job → Type 0) (js : List Job) → All P js → All P (delete_where p js)
  unfolding delete_where
  All-delete_where P [] h = tt
  All-delete_where P (j ∷ js) (s, h) = by_test (p j) (All-delete_where P js h)
    where
      by_test :
          (b : Bool)
          → All P (delete_where p js)
          → All P (if b then delete_where p js else j ∷ delete_where p js)
      by_test true r = r
      by_test false r = (s, r)

  Distinct-delete_where : (js : List Job) → Distinct js → Distinct (delete_where p js)
  unfolding delete_where
  Distinct-delete_where [] h = tt
  Distinct-delete_where (j ∷ js) (ne, h) = by_test (p j) (Distinct-delete_where js h)
    where
      by_test :
          (b : Bool)
          → Distinct (delete_where p js)
          → Distinct (if b then delete_where p js else j ∷ delete_where p js)
      by_test true r = r
      by_test false r = (All-delete_where (λ k. k.id ≢ j.id) js ne, r)

  pub IsTable-delete_where : (js : List Job) → IsTable js → IsTable (delete_where p js)
  IsTable-delete_where js (d, s) = (Distinct-delete_where js d, All-delete_where IsSound js s)
