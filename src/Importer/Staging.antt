-- ===== src/Importer/Staging.antt =====
-- internal/importer/importer.go: matchExisting and the end of Stage, with stagedRow of sheet.go and
-- the proposals of internal/domain/import.go. The texts of issue messages are left out.
use khans_bike.Common.{
  ℕ, Bool, not, ◌&&◌, ◌||◌, Option, none, some, List, [], ◌∷◌, ◌++◌, map, any, if◌then◌else◌,
}
use khans_bike.Common.Text.{Text, text_eq, is_empty, codes}
use khans_bike.Domain.Status.{
  Decision, pending, merge, is_skip, is_accept, Severity, error, warning, info, same_severity,
  ProductStatus, StockStatus,
}
use khans_bike.Domain.Price.{PriceTier}

-- ImportIssue.
pub record Issue : Type 0 where
  pub code : Text
  pub severity : Severity
  pub field : Text

-- ImportProposal; maps are association lists.
pub record Proposal : Type 0 where
  pub category_id : ℕ
  pub group_key : Text
  pub name : Text
  pub brand : Text
  pub supplier : Text
  pub summary : Text
  pub status : ProductStatus
  pub sku : Text
  pub supplier_item_no : Text
  pub model_no : Text
  pub stock_status : StockStatus
  pub prices : List (PriceTier × Text)
  pub product_attributes : List (Text × Text)
  pub variant_attributes : List (Text × Text)
  pub target_variant_id : Option ℕ

pub record StagedRow : Type 0 where
  pub sheet : Text
  pub index : ℕ
  pub raw : List (Text × Text)
  pub proposal : Proposal
  pub issues : List Issue
  pub decision : Decision
  pub target : Option ℕ

-- stagedRow.add and has.
unfoldable pub add_issue : Text → Severity → Text → StagedRow → StagedRow
add_issue code severity field r = record r {
  issues = r.issues ++ record { code = code; severity = severity; field = field } ∷ [];
}

unfoldable pub has_issue : Severity → StagedRow → Bool
has_issue severity r = any (λ i. same_severity i.severity severity) r.issues

-- A row of ListVariantsByCodes; a NULL item number reads as the empty text.
pub record VariantRow : Type 0 where
  pub id : ℕ
  pub product_id : ℕ
  pub sku : Text
  pub supplier_item_no : Text

unfoldable pub variant_matches : Proposal → VariantRow → Bool
variant_matches p v =
    text_eq v.sku p.sku
    || not (is_empty p.supplier_item_no)
      && (text_eq v.supplier_item_no p.supplier_item_no || text_eq v.sku p.supplier_item_no)

unfoldable pub matching : Proposal → List VariantRow → List VariantRow
matching p [] = []
matching p (v ∷ vs) = let rest = matching p vs in if variant_matches p v then v ∷ rest else rest

-- The SKUs and item numbers of the accepted rows that are not empty.
unfoldable pub nonempty : Text → List Text → List Text
nonempty c cs = if is_empty c then cs else c ∷ cs

unfoldable pub row_codes : List StagedRow → List Text
row_codes [] = []
row_codes (r ∷ rows) =
    let rest = row_codes rows in
    if is_accept r.decision
    then nonempty r.proposal.sku (nonempty r.proposal.supplier_item_no rest)
    else rest

-- The switch on the number of matches.
unfoldable pub match_with : List VariantRow → StagedRow → StagedRow
match_with [] r = r
match_with (m ∷ []) r = add_issue (codes "matches_existing") info (codes "sku") (record r {
  decision = merge;
  target = some m.product_id;
  proposal = record (r.proposal) { target_variant_id = some m.id };
})
match_with (_ ∷ _ ∷ _) r =
    add_issue (codes "ambiguous_match") warning (codes "sku") (record r { decision = pending })

unfoldable pub match_row : List VariantRow → StagedRow → StagedRow
match_row variants r =
    if is_accept r.decision then match_with (matching r.proposal variants) r else r

-- What a row writes to groupTarget: the key of its group and the product it matched.
unfoldable pub matched : List VariantRow → Text → List (Text × ℕ) → List (Text × ℕ)
matched (m ∷ []) key targets = (key, m.product_id) ∷ targets
matched _ key targets = targets

unfoldable pub group_targets : List VariantRow → List StagedRow → List (Text × ℕ) → List (Text × ℕ)
group_targets variants [] targets = targets
group_targets variants (r ∷ rows) targets = group_targets variants rows (
    if is_accept r.decision
    then matched (matching r.proposal variants) r.proposal.group_key targets
    else targets)

unfoldable pub target_of : Text → List (Text × ℕ) → Option ℕ
target_of key [] = none
target_of key ((k, p) ∷ targets) =
    let rest = target_of key targets in if text_eq k key then some p else rest

-- The second loop: the other accepted rows of a matched product point at it.
unfoldable pub point_at : Option ℕ → StagedRow → StagedRow
point_at none r = r
point_at (some p) r =
    if is_accept r.decision
    then add_issue (codes "adds_variant") info [] (record r { target = some p })
    else r

-- matchExisting; `list_variants` is the query.
unfoldable pub match_existing : (List Text → List VariantRow) → List StagedRow → List StagedRow
match_existing list_variants rows =
    let wanted = row_codes rows in
    let variants = list_variants wanted in
    let targets = group_targets variants rows [] in
    elim wanted [
      | [] ↦ rows
      | _ ∷ _ ↦
          map (λ r. point_at (target_of r.proposal.group_key targets) r)
            (map (match_row variants) rows)
    ]

-- The last loop of Stage: a row with errors waits for a person.
unfoldable pub hold_back : StagedRow → StagedRow
hold_back r =
    if has_issue error r && not (is_skip r.decision) then record r { decision = pending } else r

unfoldable pub settle_rows : (List Text → List VariantRow) → List StagedRow → List StagedRow
settle_rows list_variants rows = map hold_back (match_existing list_variants rows)
