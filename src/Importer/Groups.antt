-- ===== src/Importer/Groups.antt =====
-- internal/importer/sheet.go: groupRows. The rows are shared by pointers there; a group is taken out
-- of the list here and put back in its places. The texts that groupKey and signature build by JSON
-- are parameters.
pub mod Duplicates
use khans_bike.Common.{
  ℕ, zero, suc, ◌+◌, ◌≤◌, ◌<◌, ◌≡◌, ◌≢◌, refl, Bool, true, false, not, ◌&&◌, ◌||◌, Option, none,
  some, List, [], ◌∷◌, ◌++◌, map, arith, any, All, if◌then◌else◌, Bool-cases, inl, inr, ltb, ◌==◌,
  Option-cases,
}
use khans_bike.Common.Text.{Text, text_eq, codes}
use khans_bike.Domain.Status.{
  Decision, pending, accept, skip, merge, is_skip, Severity, error, warning, info, needs_review,
}
use khans_bike.Platform.Money.{format_nat}
use khans_bike.Importer.Staging.{StagedRow, Proposal, Issue, add_issue, has_issue}

-- `!r.has(error) && r.decision != skip`: the rows that are grouped.
unfoldable pub is_grouped : StagedRow → Bool
is_grouped r = not (has_issue error r || is_skip r.decision)

-- firstBySig and skus, read with Go's default for a missing key.
unfoldable pub first_with : Text → List (Text × ℕ) → Option ℕ
first_with sig [] = none
first_with sig ((s, i) ∷ seen) =
    let rest = first_with sig seen in if text_eq s sig then some i else rest

unfoldable pub count_sku : Text → List (Text × ℕ) → ℕ
count_sku sku [] = 0
count_sku sku ((s, n) ∷ skus) = let rest = count_sku sku skus in if text_eq s sku then n else rest

unfoldable pub set_sku : Text → StagedRow → StagedRow
set_sku sku r = record r { proposal = record (r.proposal) { sku = sku } }

-- A row that is no duplicate: renamed if its SKU was met before.
unfoldable pub rename : List (Text × ℕ) → StagedRow → StagedRow
rename skus r =
    let n = count_sku r.proposal.sku skus in
    if ltb 0 n
    then set_sku (r.proposal.sku ++ codes "-" ++ format_nat (n + 1))
        (add_issue (codes "ambiguous_variant") warning (codes "sku") r)
    else r

unfoldable pub skip_row : StagedRow → StagedRow
skip_row r = add_issue (codes "duplicate_row") warning [] (record r { decision = skip })

-- `first.add("has_duplicates", ...)`, once for each flagged row.
unfoldable pub flag_rows : ℕ → List ℕ → List StagedRow → List StagedRow
flag_rows i flagged [] = []
flag_rows i flagged (r ∷ rows) =
    (if any (λ k. k == i) flagged then add_issue (codes "has_duplicates") warning [] r else r)
    ∷ flag_rows (i + 1) flagged rows

unfoldable pub wants_review : StagedRow → Bool
wants_review r = not (is_skip r.decision) && has_issue warning r

unfoldable pub send_to_review : StagedRow → StagedRow
send_to_review r = record r { proposal = record (r.proposal) { status = needs_review } }

unfoldable pub review_group : List StagedRow → List StagedRow
review_group rows = if any wants_review rows then map send_to_review rows else rows

-- The members of a group, and the list with the processed members back in their places.
unfoldable pub is_member : Text → StagedRow → Bool
is_member key r = is_grouped r && text_eq r.proposal.group_key key

unfoldable pub members : Text → List StagedRow → List StagedRow
members key [] = []
members key (r ∷ rows) = let rest = members key rows in if is_member key r then r ∷ rest else rest

unfoldable pub put_back : Text → List StagedRow → List StagedRow → List StagedRow
put_back key done [] = []
put_back key [] (r ∷ rows) = r ∷ put_back key [] rows
put_back key (d ∷ done) (r ∷ rows) =
    let replaced = put_back key done rows in
    let kept = put_back key (d ∷ done) rows in if is_member key r then d ∷ replaced else r ∷ kept

-- The keys in the order in which they first appear.
unfoldable pub key_order : List Text → List StagedRow → List Text
key_order known [] = []
key_order known (r ∷ rows) =
    let key = r.proposal.group_key in
    let rest = key_order known rows in
    let more = key_order (key ∷ known) rows in
    if is_grouped r && not (any (text_eq key) known) then key ∷ more else rest

unfoldable pub assign_key : (Proposal → Text) → StagedRow → StagedRow
assign_key group_key r =
    if is_grouped r
    then record r { proposal = record (r.proposal) { group_key = group_key r.proposal } }
    else r

-- Which texts of a list repeat an earlier one, given those met before.
unfoldable pub repeats : List Text → List Text → List Bool
repeats known [] = []
repeats known (s ∷ sigs) = any (λ k. text_eq k s) known ∷ repeats (s ∷ known) sigs

-- The two ends of the loop's body, given the rest of the loop after either.
unfoldable pub join_row :
    Option ℕ
    → StagedRow
    → StagedRow
    → List StagedRow × List ℕ
    → List StagedRow × List ℕ
    → List StagedRow × List ℕ
join_row (some first) r r' (others, flagged) later = (skip_row r ∷ others, first ∷ flagged)
join_row none r r' others (later, flagged) = (r' ∷ later, flagged)

module _ (signature : Proposal → Text) where
  -- The loop over the members of a group, from position `i` on: the rows, and the positions of those
  -- that have duplicates.
  unfoldable pub dedupe :
      ℕ → List (Text × ℕ) → List (Text × ℕ) → List StagedRow → List StagedRow × List ℕ
  dedupe i seen skus [] = ([], [])
  dedupe i seen skus (r ∷ rows) =
      let sig = signature r.proposal in
      let r' = rename skus r in
      let sku = r'.proposal.sku in
      join_row (first_with sig seen) r r' (dedupe (i + 1) seen skus rows)
        (dedupe (i + 1) ((sig, i) ∷ seen) ((sku, count_sku sku skus + 1) ∷ skus) rows)

  unfoldable pub process_group : List StagedRow → List StagedRow
  process_group members =
      let (rows, flagged) = dedupe 0 [] [] members in review_group (flag_rows 0 flagged rows)

  unfoldable pub process_groups : List Text → List StagedRow → List StagedRow
  process_groups [] rows = rows
  process_groups (key ∷ keys) rows =
      process_groups keys (put_back key (process_group (members key rows)) rows)

  unfoldable pub group_rows : (Proposal → Text) → List StagedRow → List StagedRow
  group_rows group_key rows =
      let keyed = map (assign_key group_key) rows in process_groups (key_order [] keyed) keyed
