-- ===== src/Importer/Distance/Least.antt =====
-- internal/importer/cells.go: levenshtein is the least number of edits.
use mathlib.Core.List.{reverse, reverse-reverse, reverse-cons}
use mathlib.Core.Path.{subst, subst₂}
use khans_bike.Common.{
  append-nil, append_assoc, Bool-cases, ==_iff, ℕ, suc, ◌+◌, ◌≤◌, ◌≡◌, refl, ap, ◌∙◌, ◌⊎◌, inl, inr,
  min, [], ◌∷◌, ◌++◌, List, arith, ◌==◌, if◌then◌else◌, length,
}
use khans_bike.Common.Text.{Text}
use khans_bike.Importer.Distance.{first_row, fill_row, rows_from, last_entry, levenshtein}
use khans_bike.Importer.Distance.Script.{Edits, Edits-reverse, done, keep, change, drop, insert}

-- The distance by recursion on both texts.
edit : Text → Text → ℕ
edit [] t = length t
edit (c ∷ s) [] = suc (length s)
edit (c ∷ s) (d ∷ t) =
    let changed = edit s t + (if c == d then 0 else 1) in
    let dropped = edit s (d ∷ t) + 1 in
    let inserted = edit (c ∷ s) t + 1 in min (min dropped inserted) changed

edit-nil : (s : Text) → edit s [] ≡ length s
unfolding edit
edit-nil [] = refl
edit-nil (c ∷ s) = refl

-- No script is shorter.
edit-le : {s t : Text} {n : ℕ} → Edits s t n → edit s t ≤ n
unfolding edit
edit-le done = omega arith
edit-le (keep c e) = ground (arith, edit-le e)
edit-le (change c d e) = ground (arith, edit-le e)
edit-le (drop c {s} {t = []} e) = omega (arith, edit-le e, edit-nil s)
edit-le (drop c {t = d ∷ t} e) = ground (arith, edit-le e)
edit-le (insert d {s = []} e) = omega (arith, edit-le e)
edit-le (insert d {s = c ∷ s} e) = ground (arith, edit-le e)

-- Some script is that short.
insert_all : (t : Text) → Edits [] t (length t)
insert_all [] = done
insert_all (d ∷ t) = insert d (insert_all t)

drop_all : (s : Text) → Edits s [] (length s)
drop_all [] = done
drop_all (c ∷ s) = drop c (drop_all s)

min_either : (a b : ℕ) → (min a b ≡ a) ⊎ (min a b ≡ b)
min_either a b = ground arith

min_of : (P : ℕ → Type 0) {a b : ℕ} → P a → P b → P (min a b)
min_of P {a} {b} p q = elim (min_either a b) [ inl e ↦ rw e p | inr e ↦ rw e q ]

keep_or_change :
    (c d : ℕ) {s t : Text} {n : ℕ}
    → Edits s t n
    → Edits (c ∷ s) (d ∷ t) (n + (if c == d then 0 else 1))
keep_or_change c d {s} {t} {n} e = elim (Bool-cases (c == d)) [
  | inl same ↦
      rw (same, ← (==_iff c d).0 same) (subst (Edits (c ∷ s) (c ∷ t)) (omega arith) (keep c e))
  | inr differs ↦ rw differs (subst (Edits (c ∷ s) (d ∷ t)) (omega arith) (change c d e))
]

edit-Edits : (s t : Text) → Edits s t (edit s t)
unfolding edit
edit-Edits [] t = insert_all t
edit-Edits (c ∷ s) [] = drop_all (c ∷ s)
edit-Edits (c ∷ s) (d ∷ t) =
    min_of (Edits (c ∷ s) (d ∷ t))
      (min_of (Edits (c ∷ s) (d ∷ t))
        (subst (Edits (c ∷ s) (d ∷ t)) (omega arith) (drop c (edit-Edits s (d ∷ t))))
        (subst (Edits (c ∷ s) (d ∷ t)) (omega arith) (insert d (edit-Edits (c ∷ s) t))))
      (keep_or_change c d (edit-Edits s t))

-- The row of distances from `ra` (the read runes of `a`, backwards) to each beginning of `b`.
row : Text → Text → Text → List ℕ
row ra rb [] = edit ra rb ∷ []
row ra rb (d ∷ b) = edit ra rb ∷ row ra (d ∷ rb) b

first_row-row : (rb b : Text) → first_row (length rb) b ≡ row [] rb b
unfolding first_row row edit
first_row-row rb [] = refl
first_row-row rb (d ∷ b) =
    ap (λ r. length rb ∷ r) (ap (λ k. first_row k b) (omega arith) ∙ first_row-row (d ∷ rb) b)

edit-cons :
    (c d : ℕ) (s t : Text)
    → edit (c ∷ s) (d ∷ t)
      ≡ min (min (edit s (d ∷ t) + 1) (edit (c ∷ s) t + 1)) (edit s t + (if c == d then 0 else 1))
unfolding edit
edit-cons c d s t = refl

-- The inner loop writes the next row.
fill_row-row :
    (c : ℕ) (b ra rb : Text)
    → edit (c ∷ ra) rb ∷ fill_row c b (row ra rb b) (edit (c ∷ ra) rb) ≡ row (c ∷ ra) rb b
unfolding fill_row row
fill_row-row c [] ra rb = refl
fill_row-row c (d ∷ []) ra rb = rw (← edit-cons c d ra rb)
fill_row-row c (d ∷ e ∷ b) ra rb =
    rw (← edit-cons c d ra rb) (ap (λ r. edit (c ∷ ra) rb ∷ r) (fill_row-row c (e ∷ b) ra (d ∷ rb)))

edit-start : (c : ℕ) (s : Text) → edit (c ∷ s) [] ≡ length s + 1
unfolding edit
edit-start c s = omega arith

rows_from-row :
    (a b ra : Text) → rows_from (length ra) a b (row ra [] b) ≡ row (reverse a ++ ra) [] b
unfolding rows_from
rows_from-row [] b ra = refl
rows_from-row (c ∷ a) b ra =
    let next : (length ra + 1) ∷ fill_row c b (row ra [] b) (length ra + 1) ≡ row (c ∷ ra) [] b =
      rw (← edit-start c ra) (fill_row-row c b ra []) in
    rw (next, reverse-cons c a, append_assoc (reverse a) (c ∷ []) ra)
      (ap (λ k. rows_from k a b (row (c ∷ ra) [] b)) (omega arith) ∙ rows_from-row a b (c ∷ ra))

last_entry-row : (ra rb b : Text) → last_entry (row ra rb b) ≡ edit ra (reverse b ++ rb)
unfolding last_entry row
last_entry-row ra rb [] = refl
last_entry-row ra rb (d ∷ []) = refl
last_entry-row ra rb (d ∷ e ∷ b) =
    rw (reverse-cons d (e ∷ b), append_assoc (reverse (e ∷ b)) (d ∷ []) rb)
      (last_entry-row ra (d ∷ rb) (e ∷ b))

levenshtein-edit : (a b : Text) → levenshtein a b ≡ edit (reverse a) (reverse b)
unfolding levenshtein
levenshtein-edit a b =
    ap (λ r. last_entry (rows_from 0 a b r)) (first_row-row [] b)
    ∙ ap last_entry (rows_from-row a b [])
    ∙ last_entry-row (reverse a ++ []) [] b
    ∙ ap (λ t. edit t (reverse b ++ [])) (append-nil (reverse a))
    ∙ ap (edit (reverse a)) (append-nil (reverse b))

-- The result is the number of edits of some script that turns the one text into the other, and no
-- script has fewer.
pub levenshtein_least :
    (a b : Text) → Edits a b (levenshtein a b) × ((n : ℕ) → Edits a b n → levenshtein a b ≤ n)
levenshtein_least a b = (
  rw (levenshtein-edit a b) (
      subst₂ (λ s t. Edits s t (edit (reverse a) (reverse b))) (reverse-reverse a)
        (reverse-reverse b) (Edits-reverse (edit-Edits (reverse a) (reverse b)))),
  λ n e. rw (levenshtein-edit a b) (edit-le (Edits-reverse e)),
)
