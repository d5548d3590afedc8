-- ===== src/Importer/Commit/Grouped.antt =====
-- internal/importer/importer.go: how often the groups that apply makes hold a row that is applied.
use khans_bike.Common.{
  ℕ, suc, ◌+◌, ◌≡◌, refl, sym, ap, ◌∙◌, inl, inr, Bool, true, false, not, ◌&&◌, List, [], ◌∷◌, any,
  length, arith, if◌then◌else◌, Bool-cases, &&-eq-true, count_rows,
}
use khans_bike.Common.Text.{Text, text_eq, text_eq→eq, text_eq_refl}
use khans_bike.Importer.Review.{ImportRow}
use khans_bike.Importer.Commit.{is_applied, group_keys, rows_of}

-- How many rows stand under a list of keys.
abbrev pub rows_under : List Text → List ImportRow → ℕ
rows_under [] rows = 0
rows_under (key ∷ keys) rows = length (rows_of key rows) + rows_under keys rows

-- How often a key stands in a list.
abbrev times : Text → List Text → ℕ
times key [] = 0
times key (k ∷ keys) = if text_eq k key then suc (times key keys) else times key keys

rows_under-none : (keys : List Text) → rows_under keys [] ≡ 0
unfolding rows_of
rows_under-none [] = refl
rows_under-none (key ∷ keys) = omega (arith, rows_under-none keys)

-- A row that is applied counts once for each time that its key stands there.
rows_under-cons :
    (keys : List Text) (r : ImportRow) (rows : List ImportRow)
    → rows_under keys (r ∷ rows)
      ≡ (if is_applied r then times r.row.proposal.group_key keys else 0) + rows_under keys rows
unfolding rows_of
rows_under-cons [] r rows = ground arith
rows_under-cons (key ∷ keys) r rows = ground (arith, rows_under-cons keys r rows)

text_eq_sym : (s t : Text) → text_eq s t ≡ false → text_eq t s ≡ false
text_eq_sym s t h = elim (Bool-cases (text_eq t s)) [
  | inr n ↦ n
  | inl y ↦ cc (text_eq→eq t s y, text_eq_refl s, h)
]

-- The applied rows whose key is not known yet.
abbrev pub is_fresh : List Text → ImportRow → Bool
is_fresh known r = is_applied r && not (any (text_eq r.row.proposal.group_key) known)

times_known :
    (key : Text) (known : List Text) (rows : List ImportRow)
    → any (text_eq key) known ≡ true
    → times key (group_keys known rows) ≡ 0
unfolding group_keys
times_known key known [] h = refl
times_known key known (r ∷ rows) h = ground (
  arith,
  text_eq→eq r.row.proposal.group_key key,
  times_known key known rows h,
  times_known key (r.row.proposal.group_key ∷ known) rows,
)

fresh_or_new :
    (key : Text) (known : List Text) (rows : List ImportRow)
    → any (text_eq key) known ≡ false
    → count_rows (is_fresh known) rows
      ≡ length (rows_of key rows) + count_rows (is_fresh (key ∷ known)) rows
unfolding rows_of
fresh_or_new key known [] h = ground arith
fresh_or_new key known (r ∷ rows) h = elim (Bool-cases (is_applied r)) [
  | inr n ↦ rw n (fresh_or_new key known rows h)
  | inl y ↦ elim (Bool-cases (text_eq key r.row.proposal.group_key)) [
    | inl same ↦
        let e : r.row.proposal.group_key ≡ key =
          sym (text_eq→eq key r.row.proposal.group_key same) in
        let missed : any (text_eq r.row.proposal.group_key) known ≡ false =
          ap (λ k. any (text_eq k) known) e ∙ h in
        let hit : text_eq r.row.proposal.group_key key ≡ true = rw e (text_eq_refl key) in
        ground (arith, fresh_or_new key known rows h)
    | inr other ↦
        let miss = text_eq_sym key r.row.proposal.group_key other in
        ground (arith, fresh_or_new key known rows h)
  ]
]

pub rows_under-group_keys :
    (known : List Text) (rows : List ImportRow)
    → rows_under (group_keys known rows) rows ≡ count_rows (is_fresh known) rows
unfolding group_keys
rows_under-group_keys known [] = refl
rows_under-group_keys known (r ∷ rows) =
    let key = r.row.proposal.group_key in
    elim (Bool-cases (is_fresh known r)) [
      | inl y ↦
          let (used, unknown) = &&-eq-true (is_applied r) (not (any (text_eq key) known)) y in
          ground (
            arith,
            rows_under-cons (key ∷ group_keys (key ∷ known) rows) r rows,
            times_known key (key ∷ known) rows,
            text_eq_refl key,
            fresh_or_new key known rows,
            rows_under-group_keys (key ∷ known) rows,
          )
      | inr n ↦ ground (
        arith,
        rows_under-cons (group_keys known rows) r rows,
        times_known key known rows,
        rows_under-group_keys known rows,
      )
    ]
