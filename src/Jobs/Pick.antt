-- ===== src/Jobs/Pick.antt =====
-- db/queries/jobs.sql, the subquery of ClaimJob: the row that a claim picks.
use mathlib.Core.Path.{subst}
use mathlib.Core.Option.{some-injective}
use mathlib.Core.List.{Memᴰ}
use mathlib.Core.List.Memᴰ.{cases_cons}
use native.Mathlib.Nat.{le_refl, le_trans}
use khans_bike.Common.{
  ◌≤◌, ◌≡◌, ◌≢◌, refl, sym, ap, ◌∙◌, inl, inr, Bool, true, false, Option, none, some, List, [], ◌∷◌,
  arith, leb, if◌then◌else◌, All, All-imp, leb→le,
}
use khans_bike.Jobs.Rows.{Job}
use khans_bike.Jobs.Queue.{oldest, earlier}
use khans_bike.Jobs.Sound.{Distinct}

-- The row that the claim picks.
abbrev pub Oldest : (Job → Bool) → List Job → Job → Type 0
Oldest p js k = Memᴰ k js × (p k ≡ true) × All (λ r. p r ≡ true → k.run_after ≤ r.run_after) js

none_step :
    (p : Job → Bool) (j : Job) (js : List Job)
    → (oldest p js ≡ none → All (λ r. p r ≡ false) js)
    → (b : Bool) → p j ≡ b
    → (if b then some (earlier j (oldest p js)) else oldest p js) ≡ none
    → All (λ r. p r ≡ false) (j ∷ js)
none_step p j js rest true e h = cc
none_step p j js rest false e h = (e, rest h)

pub oldest-none : (p : Job → Bool) (js : List Job) → oldest p js ≡ none → All (λ r. p r ≡ false) js
unfolding oldest
oldest-none p [] h = tt
oldest-none p (j ∷ js) h = none_step p j js (oldest-none p js) (p j) refl h

none_before :
    (p : Job → Bool) (j : Job) (js : List Job)
    → All (λ r. p r ≡ false) js
    → All (λ r. p r ≡ true → j.run_after ≤ r.run_after) js
none_before p j js =
    All-imp (λ r. p r ≡ false) (λ r. p r ≡ true → j.run_after ≤ r.run_after) (λ r h k. cc) js

head_picked :
    (p : Job → Bool) (j m : Job) (js : List Job)
    → p j ≡ true
    → Oldest p js m
    → (b : Bool) → leb j.run_after m.run_after ≡ b
    → Oldest p (j ∷ js) (if b then j else m)
head_picked p j m js pj (mem, pm, least) true e =
    let low : j.run_after ≤ m.run_after = leb→le _ _ e in
    (
      Memᴰ.head refl,
      pj,
      (
        λ _. le_refl _,
        All-imp (λ r. p r ≡ true → m.run_after ≤ r.run_after)
            (λ r. p r ≡ true → j.run_after ≤ r.run_after) (λ r h k. le_trans low (h k)) js least,
      ),
    )
head_picked p j m js pj (mem, pm, least) false e = (Memᴰ.tail mem, pm, (λ _. ground arith, least))

oldest_of :
    (p : Job → Bool) (j : Job) (js : List Job) (k : Job)
    → p j ≡ true
    → ((m : Job) → oldest p js ≡ some m → Oldest p js m)
    → (r : Option Job) → oldest p js ≡ r
    → some (earlier j r) ≡ some k
    → Oldest p (j ∷ js) k
unfolding earlier
oldest_of p j js k pj rest none e h =
    subst (Oldest p (j ∷ js)) (some-injective _ _ h)
      (Memᴰ.head refl, pj, (λ _. le_refl _, none_before p j js (oldest-none p js e)))
oldest_of p j js k pj rest (some m) e h =
    subst (Oldest p (j ∷ js)) (some-injective _ _ h)
      (head_picked p j m js pj (rest m e) (leb j.run_after m.run_after) refl)

oldest_step :
    (p : Job → Bool) (j : Job) (js : List Job) (k : Job)
    → ((m : Job) → oldest p js ≡ some m → Oldest p js m)
    → (b : Bool) → p j ≡ b
    → (if b then some (earlier j (oldest p js)) else oldest p js) ≡ some k
    → Oldest p (j ∷ js) k
oldest_step p j js k rest false e h =
    let (mem, pk, least) = rest k h in (Memᴰ.tail mem, pk, (λ pj. cc, least))
oldest_step p j js k rest true e h = oldest_of p j js k e rest (oldest p js) refl h

pub oldest-Oldest :
    (p : Job → Bool) (js : List Job) (k : Job) → oldest p js ≡ some k → Oldest p js k
unfolding oldest
oldest-Oldest p [] k h = cc
oldest-Oldest p (j ∷ js) k h = oldest_step p j js k (oldest-Oldest p js) (p j) refl h

pub All-Memᴰ : (P : Job → Type 0) (js : List Job) (k : Job) → All P js → Memᴰ k js → P k
All-Memᴰ P [] k h m = elim m [ ]
All-Memᴰ P (j ∷ js) k (pj, h) m = elim (cases_cons m) [
  | inl e ↦ subst P (sym e) pj
  | inr later ↦ All-Memᴰ P js k h later
]

pub unique_row :
    (js : List Job) (k : Job) → Distinct js → Memᴰ k js → All (λ r. r.id ≡ k.id → r ≡ k) js
unique_row [] k d m = tt
unique_row (j ∷ js) k (ne, d) m = elim (cases_cons m) [
  | inl e ↦ (
    λ _. sym e,
    All-imp (λ r. r.id ≢ j.id) (λ r. r.id ≡ k.id → r ≡ k) (λ r h i. absurd (h (i ∙ ap Job.id e))) js
        ne,
  )
  | inr later ↦ (λ i. absurd (fresh_row later i), unique_row js k d later)
]
  where
    fresh_row : Memᴰ k js → j.id ≡ k.id → ⊥
    fresh_row m i = All-Memᴰ (λ r. r.id ≢ j.id) js k ne m (sym i)
