-- ===== src/Importer/Distance/Script.antt =====
-- Edit scripts, the specification of internal/importer/cells.go's levenshtein: a script turns one
-- text into another by keeping, changing, dropping and adding runes, from the front.
use khans_bike.Common.{ℕ, suc, ◌+◌, ◌≡◌, [], ◌∷◌, ◌++◌, arith, append-nil}
use mathlib.Core.List.{reverse, reverse-cons}
use mathlib.Core.Path.{subst}
use khans_bike.Common.Text.{Text}

-- `Edits s t n`: `t` is made from `s` by `n` single-rune edits.
pub data Edits : Text → Text → ℕ → Type 0 where
  done : Edits [] [] 0
  keep : (c : ℕ) {s t : Text} {n : ℕ} → Edits s t n → Edits (c ∷ s) (c ∷ t) n
  change : (c d : ℕ) {s t : Text} {n : ℕ} → Edits s t n → Edits (c ∷ s) (d ∷ t) (suc n)
  drop : (c : ℕ) {s t : Text} {n : ℕ} → Edits s t n → Edits (c ∷ s) t (suc n)
  insert : (d : ℕ) {s t : Text} {n : ℕ} → Edits s t n → Edits s (d ∷ t) (suc n)

recount : {s t : Text} {n m : ℕ} → Edits s t n → n ≡ m → Edits s t m
recount e p = subst (Edits _ _) p e

-- Scripts of two parts make a script of the whole.
pub Edits-append :
    {s t s' t' : Text} {n m : ℕ} → Edits s t n → Edits s' t' m → Edits (s ++ s') (t ++ t') (n + m)
Edits-append done f = recount f (omega arith)
Edits-append (keep c e) f = keep c (Edits-append e f)
Edits-append (change c d e) f = recount (change c d (Edits-append e f)) (omega arith)
Edits-append (drop c e) f = recount (drop c (Edits-append e f)) (omega arith)
Edits-append (insert d e) f = recount (insert d (Edits-append e f)) (omega arith)

Edits-behind :
    (s t : Text) {u v : Text} {n m : ℕ}
    → Edits (reverse s) (reverse t) n
    → Edits u v m
    → Edits (reverse s ++ u) (reverse t ++ v) (m + n)
Edits-behind s t e f = recount (Edits-append e f) (omega arith)

-- A script read from the back.
pub Edits-reverse : {s t : Text} {n : ℕ} → Edits s t n → Edits (reverse s) (reverse t) n
Edits-reverse done = done
Edits-reverse (keep c {s} {t} e) =
    rw (reverse-cons c s, reverse-cons c t)
      (recount (Edits-behind s t (Edits-reverse e) (keep c done)) (omega arith))
Edits-reverse (change c d {s} {t} e) =
    rw (reverse-cons c s, reverse-cons d t)
      (recount (Edits-behind s t (Edits-reverse e) (change c d done)) (omega arith))
Edits-reverse (drop c {s} {t} {n} e) = rw (reverse-cons c s) (
    subst (λ v. Edits (reverse s ++ c ∷ []) v (suc n)) (append-nil (reverse t))
      (recount (Edits-behind s t (Edits-reverse e) (drop c done)) (omega arith)))
Edits-reverse (insert d {s} {t} {n} e) = rw (reverse-cons d t) (
    subst (λ v. Edits v (reverse t ++ d ∷ []) (suc n)) (append-nil (reverse s))
      (recount (Edits-behind s t (Edits-reverse e) (insert d done)) (omega arith)))
