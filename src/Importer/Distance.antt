-- ===== src/Importer/Distance.antt =====
-- internal/importer/cells.go: levenshtein, with its two rows as lists.
pub mod Script
pub mod Least
use khans_bike.Common.{ℕ, zero, suc, ◌+◌, min, [], ◌∷◌, List, ◌==◌, if◌then◌else◌}
use khans_bike.Common.Text.{Text}

-- `for j := range prev { prev[j] = j }`, from `j` on.
unfoldable pub first_row : ℕ → Text → List ℕ
first_row j [] = j ∷ []
first_row j (d ∷ b) = j ∷ first_row (j + 1) b

-- The inner loop: `above` is `prev[j-1:]`, `left` is `cur[j-1]`.
unfoldable pub fill_row : ℕ → Text → List ℕ → ℕ → List ℕ
fill_row c [] above left = []
fill_row c (d ∷ b) [] left = []
fill_row c (d ∷ b) (p ∷ []) left = []
fill_row c (d ∷ b) (p ∷ q ∷ above) left =
    let cost = if c == d then 0 else 1 in
    let v = min (min (q + 1) (left + 1)) (p + cost) in v ∷ fill_row c b (q ∷ above) v

-- The outer loop; `i` counts the runes of `a` that are done.
unfoldable pub rows_from : ℕ → Text → Text → List ℕ → List ℕ
rows_from i [] b prev = prev
rows_from i (c ∷ a) b prev = rows_from (i + 1) a b ((i + 1) ∷ fill_row c b prev (i + 1))

-- `prev[len(rb)]`, the last entry of the row.
unfoldable pub last_entry : List ℕ → ℕ
last_entry [] = 0
last_entry (x ∷ []) = x
last_entry (x ∷ y ∷ xs) = last_entry (y ∷ xs)

unfoldable pub levenshtein : Text → Text → ℕ
unfolding first_row fill_row rows_from last_entry
levenshtein a b = last_entry (rows_from 0 a b (first_row 0 b))
