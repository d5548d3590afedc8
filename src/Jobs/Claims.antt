-- ===== src/Jobs/Claims.antt =====
-- db/queries/jobs.sql: the table stays in order, and a claimed job is not claimed again.
use mathlib.Core.Option.{some-injective}
use khans_bike.Common.{
  any, ℕ, ◌≡◌, ◌≢◌, refl, sym, ap, ◌∙◌, inl, inr, Bool, true, false, Option, none, some, List, [],
  ◌∷◌, ◌++◌, arith, ◌==◌, if◌then◌else◌, All, All-append, Bool-cases, ==_iff,
}
use khans_bike.Common.Text.{Text}
use khans_bike.Jobs.Rows.{
  Job, queued, new_job, claim_row, complete_row, retry_row, fail_row, is_stuck, reap_row,
}
use khans_bike.Jobs.Queue.{
  Op, enqueue, claim, complete, retry, fail, reap, discard_queued, delete_finished, update_where,
  has_id, is_runnable, oldest, claim_job, after_claim, step, run,
}
use khans_bike.Jobs.Sound.{
  Fresh, Distinct, IsSound, IsTable, claim_row-IsSound, complete_row-IsSound, retry_row-IsSound,
  fail_row-IsSound, reap_row-IsSound, new_job-IsSound, Distinct-update_where, IsTable-update_where,
  IsTable-delete_where,
}
use khans_bike.Jobs.Pick.{Oldest, oldest-Oldest, oldest-none, unique_row, All-Memᴰ}

-- Claiming the picked row.
claimed-IsSound :
    (now : ℕ) (worker : Text) (k : Job) (js : List Job)
    → k.state ≡ queued
    → All IsSound js
    → All (λ r. r.id ≡ k.id → r ≡ k) js
    → All IsSound (update_where (has_id k.id) (claim_row now worker) js)
unfolding update_where
claimed-IsSound now worker k [] q s u = tt
claimed-IsSound now worker k (j ∷ js) q (sj, s) (uj, u) =
    (by_test (j.id == k.id) refl, claimed-IsSound now worker k js q s u)
  where
    by_test : (b : Bool) → (j.id == k.id) ≡ b → IsSound (if b then claim_row now worker j else j)
    by_test true e =
        claim_row-IsSound now worker j (ap Job.state (uj ((==_iff j.id k.id).0 e)) ∙ q) sj
    by_test false e = sj

pub runnable_queued :
    (now : ℕ) (locked : ℕ → Bool) (j : Job) → is_runnable now locked j ≡ true → j.state ≡ queued
unfolding is_runnable
runnable_queued now locked j h = ground arith

claim_row-id : (now : ℕ) (worker : Text) (j : Job) → (claim_row now worker j).id ≡ j.id
unfolding claim_row
claim_row-id now worker j = refl

claim_of :
    (now : ℕ) (worker : Text) (locked : ℕ → Bool) (jobs : List Job) (r : Option Job)
    → oldest (is_runnable now locked) jobs ≡ r
    → IsTable jobs
    → IsTable (after_claim jobs (claim_job now worker locked jobs))
unfolding claim_job after_claim
claim_of now worker locked jobs none e t = rw (e, claim_job, after_claim) t
claim_of now worker locked jobs (some k) e (d, s) =
    let (mem, runnable, least) = oldest-Oldest (is_runnable now locked) jobs k e in
    rw (e, claim_job, after_claim)
      (
        Distinct-update_where (has_id k.id) (claim_row now worker) (claim_row-id now worker) jobs d,
        claimed-IsSound now worker k jobs (runnable_queued now locked k runnable) s
            (unique_row jobs k d mem),
      )

claim-IsTable :
    (now : ℕ) (worker : Text) (locked : ℕ → Bool) (jobs : List Job)
    → IsTable jobs
    → IsTable (after_claim jobs (claim_job now worker locked jobs))
claim-IsTable now worker locked jobs =
    claim_of now worker locked jobs (oldest (is_runnable now locked) jobs) refl

Fresh-any : (id : ℕ) (jobs : List Job) → any (has_id id) jobs ≡ false → Fresh id jobs
Fresh-any id [] h = tt
Fresh-any id (j ∷ js) h = (λ e. ground (arith, e), Fresh-any id js (ground arith))

Distinct-append :
    (jobs : List Job) (k : Job) → Fresh k.id jobs → Distinct jobs → Distinct (jobs ++ k ∷ [])
Distinct-append [] k f d = (tt, tt)
Distinct-append (j ∷ js) k (ne, f) (fresh, d) = (
  All-append (λ r. r.id ≢ j.id) js (k ∷ []) fresh ((λ e. ne (sym e)), tt),
  Distinct-append js k f d,
)

new_job-id : (now id : ℕ) (kind payload : Text) → (new_job now id kind payload).id ≡ id
unfolding new_job
new_job-id now id kind payload = refl

enqueue-IsTable :
    (now id : ℕ) (kind payload : Text) (jobs : List Job)
    → IsTable jobs
    → IsTable (step now (enqueue id kind payload) jobs)
unfolding step
enqueue-IsTable now id kind payload jobs (d, s) = elim (Bool-cases (any (has_id id) jobs)) [
  | inl there ↦ rw there (d, s)
  | inr free ↦
      let k = new_job now id kind payload in
      let fresh : Fresh k.id jobs = rw (new_job-id now id kind payload) (Fresh-any id jobs free) in
      rw free (
        Distinct-append jobs k fresh d,
        All-append IsSound jobs (k ∷ []) s (new_job-IsSound now id kind payload, tt),
      )
]

step-IsTable : (now : ℕ) (op : Op) (jobs : List Job) → IsTable jobs → IsTable (step now op jobs)
step-IsTable now (enqueue id kind payload) jobs t = enqueue-IsTable now id kind payload jobs t
step-IsTable now (claim worker locked) jobs t =
    unfold step in claim-IsTable now worker locked jobs t
step-IsTable now (complete id) jobs t =
    unfold step complete_row in
    IsTable-update_where (has_id id) (complete_row now) (λ j. refl) (complete_row-IsSound now) jobs
      t
step-IsTable now (retry id jitter e) jobs t =
    unfold step retry_row in
    IsTable-update_where (has_id id) (retry_row now jitter e) (λ j. refl)
      (retry_row-IsSound now jitter e) jobs t
step-IsTable now (fail id e) jobs t =
    unfold step fail_row in
    IsTable-update_where (has_id id) (fail_row now e) (λ j. refl) (fail_row-IsSound now e) jobs t
step-IsTable now reap jobs t =
    unfold step reap_row in
    IsTable-update_where (is_stuck now) (reap_row now) (λ j. refl) (reap_row-IsSound now) jobs t
step-IsTable now (discard_queued kind) jobs t = unfold step in IsTable-delete_where _ jobs t
step-IsTable now delete_finished jobs t = unfold step in IsTable-delete_where _ jobs t

-- Every history of the queue, from any table in order, ends in a table in order.
pub run-IsTable : (ops : List (ℕ × Op)) (jobs : List Job) → IsTable jobs → IsTable (run ops jobs)
unfolding run
run-IsTable [] jobs t = t
run-IsTable ((now, op) ∷ ops) jobs t =
    run-IsTable ops (step now op jobs) (step-IsTable now op jobs t)

-- What a claim does: it takes a queued job that is due and held by nobody else, none of which is due
-- earlier, and gives it to the worker with one more attempt counted. Nothing is found only if no job
-- is runnable.
abbrev pub ClaimsOldest : ℕ → Text → (ℕ → Bool) → List Job → Option (Job × List Job) → Type 0
ClaimsOldest now worker locked jobs none = All (λ r. is_runnable now locked r ≡ false) jobs
ClaimsOldest now worker locked jobs (some (job, _)) =
    (k : Job) × Oldest (is_runnable now locked) jobs k × (job ≡ claim_row now worker k)

claim_by :
    (now : ℕ) (worker : Text) (locked : ℕ → Bool) (jobs : List Job) (r : Option Job)
    → oldest (is_runnable now locked) jobs ≡ r
    → ClaimsOldest now worker locked jobs (claim_job now worker locked jobs)
unfolding claim_job
claim_by now worker locked jobs none e = rw (e, claim_job) (oldest-none _ jobs e)
claim_by now worker locked jobs (some k) e = rw (e, claim_job) (k, oldest-Oldest _ jobs k e, refl)

-- ClaimJob takes a queued job that is due and not held by another transaction, none of which is due
-- earlier, and claims it for the worker; it finds nothing only if no job is runnable.
pub claim_job-ClaimsOldest :
    (now : ℕ) (worker : Text) (locked : ℕ → Bool) (jobs : List Job)
    → ClaimsOldest now worker locked jobs (claim_job now worker locked jobs)
claim_job-ClaimsOldest now worker locked jobs =
    claim_by now worker locked jobs (oldest (is_runnable now locked) jobs) refl

-- Rows of a table after a claim of `id`: none of that id is queued any more.
not_queued :
    (now : ℕ) (worker : Text) (id : ℕ) (js : List Job)
    → All (λ r. r.id ≡ id → r.state ≢ queued) (update_where (has_id id) (claim_row now worker) js)
unfolding update_where
not_queued now worker id [] = tt
not_queued now worker id (j ∷ js) = (by_test (j.id == id) refl, not_queued now worker id js)
  where
    by_test :
        (b : Bool)
        → (j.id == id) ≡ b
        → (if b then claim_row now worker j else j).id ≡ id
        → (if b then claim_row now worker j else j).state ≢ queued
    by_test true e i q = unfold claim_row in cc
    by_test false e i q = ground arith

-- A claimed row and the table behind it, from the claim's answer.
abbrev Claimed : ℕ → Text → (ℕ → Bool) → List Job → Job → List Job → Type 0
Claimed now worker locked jobs a jobs' =
    (k : Job) × Oldest (is_runnable now locked) jobs k
    × (a ≡ claim_row now worker k)
    × (jobs' ≡ update_where (has_id k.id) (claim_row now worker) jobs)

claim_result :
    (now : ℕ) (worker : Text) (locked : ℕ → Bool) (jobs jobs' : List Job) (a : Job) (r : Option Job)
    → oldest (is_runnable now locked) jobs ≡ r
    → claim_job now worker locked jobs ≡ some (a, jobs')
    → Claimed now worker locked jobs a jobs'
unfolding claim_job
claim_result now worker locked jobs jobs' a none e h = absurd (none_some (rw (e, claim_job) at h))
  where
    none_some : ◌≡◌ {A = Option (Job × List Job)} none (some (a, jobs')) → ⊥
    none_some p = cc
claim_result now worker locked jobs jobs' a (some k) e h =
    let p = some-injective _ _ (rw (e, claim_job) at h) in
    (k, oldest-Oldest _ jobs k e, sym (ap (λ t. t.0) p), sym (ap (λ t. t.1) p))

pub claim_job-Claimed :
    (now : ℕ) (worker : Text) (locked : ℕ → Bool) (jobs jobs' : List Job) (a : Job)
    → claim_job now worker locked jobs ≡ some (a, jobs')
    → Claimed now worker locked jobs a jobs'
claim_job-Claimed now worker locked jobs jobs' a =
    claim_result now worker locked jobs jobs' a (oldest (is_runnable now locked) jobs) refl

-- Two claims in a row, by any workers at any times, never give out one job twice.
pub claim_job_exclusive :
    (now : ℕ) (worker : Text) (locked : ℕ → Bool) (jobs jobs' : List Job) (a : Job)
    → claim_job now worker locked jobs ≡ some (a, jobs')
    → (now' : ℕ) (worker' : Text) (locked' : ℕ → Bool) (jobs'' : List Job) (b : Job)
    → claim_job now' worker' locked' jobs' ≡ some (b, jobs'')
    → b.id ≢ a.id
claim_job_exclusive now worker locked jobs jobs' a h now' worker' locked' jobs'' b h' same =
    let (k, first, ea, et) = claim_job-Claimed now worker locked jobs jobs' a h in
    let (k', (mem, runnable, least), eb, _) =
      claim_job-Claimed now' worker' locked' jobs' jobs'' b h' in
    let idle : All (λ r. r.id ≡ k.id → r.state ≢ queued) jobs' =
      rw et (not_queued now worker k.id jobs) in
    let id_k : k'.id ≡ k.id =
      sym (claim_row-id now' worker' k')
      ∙ ap Job.id (sym eb)
      ∙ same
      ∙ ap Job.id ea
      ∙ claim_row-id now worker k in
    All-Memᴰ (λ r. r.id ≡ k.id → r.state ≢ queued) jobs' k' idle mem id_k
      (runnable_queued now' locked' k' runnable)
