-- ===== src/Jobs/Drained.antt =====
-- internal/store/gen/jobs.sql.go: workers that claim one job after the other while no job is added.
use mathlib.Core.List.{Memᴰ}
use mathlib.Core.List.Memᴰ.{head, tail}
use khans_bike.Common.{
  ℕ, suc, ◌≤◌, ◌<◌, Bool, true, false, ◌==◌, Option, none, some, List, [], ◌∷◌, ◌≡◌, refl, sym, ap,
  ◌∙◌, inl, inr, arith, any, count_rows, length, Bool-cases, Option-cases, ==_refl,
}
use khans_bike.Common.Text.{Text}
use khans_bike.Jobs.Pick.{oldest-none, oldest-Oldest, All-Memᴰ}
use khans_bike.Jobs.Queue.{update_where, has_id, is_runnable, oldest, claim_job}
use khans_bike.Jobs.Rows.{Job, claim_row}

-- The jobs that are handed out, and no row is held by another transaction.
abbrev none_locked : ℕ → Bool
none_locked id = false

abbrev pub is_due : ℕ → Job → Bool
is_due now j = is_runnable now none_locked j

abbrev pub handed : Option (Job × List Job) → (List Job → List Job) → List Job
handed none rest = []
handed (some (j, jobs)) rest = j ∷ rest jobs

unfoldable pub claim_times : ℕ → List Text → List Job → List Job
claim_times now [] jobs = []
claim_times now (worker ∷ workers) jobs =
    handed (claim_job now worker none_locked jobs) (claim_times now workers)

claim_job-some :
    (now : ℕ) (worker : Text) (jobs : List Job) (k : Job)
    → oldest (is_due now) jobs ≡ some k
    → claim_job now worker none_locked jobs
      ≡ some (claim_row now worker k, update_where (has_id k.id) (claim_row now worker) jobs)
unfolding claim_job
claim_job-some now worker jobs k picked = rw (claim_job, picked) refl

claimed_is_not_due :
    (now : ℕ) (worker : Text) (j : Job) → is_due now (claim_row now worker j) ≡ false
unfolding is_runnable claim_row
claimed_is_not_due now worker j = refl

-- A claim leaves fewer jobs to claim.
module _ (now id : ℕ) (worker : Text) where
  count-le :
      (jobs : List Job)
      → count_rows (is_due now) (update_where (has_id id) (claim_row now worker) jobs)
        ≤ count_rows (is_due now) jobs
  unfolding update_where
  count-le [] = omega arith
  count-le (j ∷ jobs) = elim (Bool-cases (j.id == id)) [
    | inl hit ↦ rw hit (ground (arith, count-le jobs, claimed_is_not_due now worker j))
    | inr miss ↦ rw miss (ground (arith, count-le jobs))
  ]

  count-lt :
      (j : Job) (jobs : List Job)
      → Memᴰ j jobs
      → (j.id == id) ≡ true
      → is_due now j ≡ true
      → count_rows (is_due now) (update_where (has_id id) (claim_row now worker) jobs)
        < count_rows (is_due now) jobs
  unfolding update_where
  count-lt j [] m own due = elim m [ ]
  count-lt j (k ∷ jobs) (head same) own due =
      let own' : (k.id == id) ≡ true = ap (λ x. x.id == id) (sym same) ∙ own in
      let due' : is_due now k ≡ true = ap (is_due now) (sym same) ∙ due in
      rw own' (ground (arith, due', count-le jobs, claimed_is_not_due now worker k))
  count-lt j (k ∷ jobs) (tail m) own due = elim (Bool-cases (k.id == id)) [
    | inl hit ↦ rw hit (ground (arith, count-lt j jobs m own due, claimed_is_not_due now worker k))
    | inr miss ↦ rw miss (ground (arith, count-lt j jobs m own due))
  ]

  kept :
      (j : Job) (jobs : List Job)
      → Memᴰ j jobs
      → (j.id == id) ≡ false
      → Memᴰ j (update_where (has_id id) (claim_row now worker) jobs)
  unfolding update_where
  kept j [] m other = elim m [ ]
  kept j (k ∷ jobs) (head same) other =
      let other' : (k.id == id) ≡ false = ap (λ x. x.id == id) (sym same) ∙ other in
      rw other' (head same)
  kept j (k ∷ jobs) (tail m) other = tail (kept j jobs m other)

count-pos :
    (now : ℕ) (j : Job) (jobs : List Job)
    → Memᴰ j jobs
    → is_due now j ≡ true
    → 0 < count_rows (is_due now) jobs
count-pos now j [] m due = elim m [ ]
count-pos now j (k ∷ jobs) (head same) due =
    let due' : is_due now k ≡ true = ap (is_due now) (sym same) ∙ due in ground (arith, due')
count-pos now j (k ∷ jobs) (tail m) due = ground (arith, count-pos now j jobs m due)

-- A claim that hands out a job that is not the one in question leaves that one to be claimed.
claims_later :
    (now : ℕ) (worker : Text) (workers : List Text) (jobs : List Job) (j : Job)
    → ((jobs' : List Job)
        → Memᴰ j jobs'
        → count_rows (is_due now) jobs' ≤ length workers
        → any (has_id j.id) (claim_times now workers jobs') ≡ true)
    → Memᴰ j jobs
    → is_due now j ≡ true
    → count_rows (is_due now) jobs ≤ suc (length workers)
    → any (has_id j.id) (claim_times now (worker ∷ workers) jobs) ≡ true
unfolding claim_times claim_row
claims_later now worker workers jobs j later m due few =
    elim (Option-cases (oldest (is_runnable now none_locked) jobs)) [
      | inl none_due ↦
          let idle =
            All-Memᴰ (λ r. is_due now r ≡ false) jobs j (oldest-none (is_due now) jobs none_due)
              m in
          absurd (ground (arith, due, idle))
      | inr (k, picked) ↦
          let (here, runnable, _) = oldest-Oldest (is_due now) jobs k picked in
          let fewer = count-lt now k.id worker k jobs here (==_refl k.id) runnable in
          let jobs' = update_where (has_id k.id) (claim_row now worker) jobs in
          rw (claim_job-some now worker jobs k picked) (elim (Bool-cases (k.id == j.id)) [
            | inl own ↦ ground (arith, own)
            | inr other ↦
                let rest =
                  later jobs' (kept now k.id worker j jobs m (ground (arith, other)))
                    (omega (arith, fewer, few)) in
                ground (arith, rest)
          ])
    ]

-- While no job is added and none is held by another transaction, every job that is due at a time is
-- handed out by one of as many claims at that time as there are jobs due.
pub claim_times-drained :
    (now : ℕ) (workers : List Text) (jobs : List Job) (j : Job)
    → Memᴰ j jobs
    → is_due now j ≡ true
    → count_rows (is_due now) jobs ≤ length workers
    → any (has_id j.id) (claim_times now workers jobs) ≡ true
claim_times-drained now [] jobs j m due few =
    absurd (omega (arith, few, count-pos now j jobs m due))
claim_times-drained now (worker ∷ workers) jobs j m due few =
    claims_later now worker workers jobs j
      (λ jobs' m' few'. claim_times-drained now workers jobs' j m' due few') m due few
