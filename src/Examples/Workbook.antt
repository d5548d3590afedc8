-- ===== src/Examples/Workbook.antt =====
-- Rows of a workbook and a batch in review, and the theorems on imports at them.
use khans_bike.Common.{
  ℕ, ◌+◌, ◌≢◌, any, ◌⊎◌, err, count_rows, length, ◌≤◌, ◌≡◌, refl, Bool, true, false, Option, none,
  some, ◌==◌, List, [], ◌∷◌, ◌++◌, map, All, ok,
}
use khans_bike.Common.Text.{Text, codes}
use khans_bike.Domain.Status.{
  Decision, merge, accept, skip, pending, active, in_stock, dry_run, committed, error, is_open,
  decision_is_valid,
}
use khans_bike.Importer.Staging.{Proposal, StagedRow, VariantRow, settle_rows, has_issue, add_issue}
use khans_bike.Importer.Reviewable.{IsReviewable, settle_rows-IsReviewable}
use khans_bike.Importer.Review.{
  ImportRow, Batch, abort_batch, commit_batch, count_closings, commit, close_batch, set_status,
  set_decision, check_decision, decide_row, apply_review, forget_product,
}
use khans_bike.Importer.Commit.{
  Services, Committer, panicked, apply, apply_groups, apply_group, merge_rows, merge_row, add_rows,
  variant_inputs, variant_input, supplier_id_of, place_variants, new_product, brand_id_of,
  set_targets, at_first, rows_of, group_keys, is_applied,
}
use khans_bike.Importer.Commit.Applied.{commit-apply}
use khans_bike.Importer.Closing.{count_closings_le}
use khans_bike.Importer.Requests.{
  ReviewRequest, IsInReview, set_row, product_gone, reviewed, as_review, names_gone,
}
use khans_bike.Importer.Ready.{row_is_decided, row_is_ready, forget_products, commit-row_is_ready}
use khans_bike.Importer.Groups.{dedupe, repeats, join_row, first_with, rename, set_sku, count_sku}
use khans_bike.Importer.Groups.Duplicates.{dedupe-repeats, skipped, signatures}
use khans_bike.Platform.Money.{format_nat, digits}

abbrev proposal_of : Text → Text → Proposal
proposal_of sku model = record {
  category_id = 1;
  group_key = codes "1|grips||{}";
  name = codes "Grips";
  brand = [];
  supplier = [];
  summary = [];
  status = active;
  sku = sku;
  supplier_item_no = [];
  model_no = model;
  stock_status = in_stock;
  prices = [];
  product_attributes = [];
  variant_attributes = [];
  target_variant_id = none;
}

abbrev workbook_row : Text → Text → StagedRow
workbook_row sku model = record {
  sheet = codes "Parts";
  index = 0;
  raw = [];
  proposal = proposal_of sku model;
  issues = [];
  decision = accept;
  target = none;
}

abbrev three_rows : List StagedRow
three_rows =
    workbook_row (codes "G") (codes "1")
    ∷ workbook_row (codes "G") (codes "2")
    ∷ workbook_row (codes "G") (codes "3")
    ∷ []

abbrev model_signature : Proposal → Text
model_signature p = p.sku ++ codes "|" ++ p.model_no

-- Three different rows with one SKU: the second and the third get the same new SKU.
three_skus :
    map (λ r. r.proposal.sku) (dedupe model_signature 0 [] [] three_rows).0
    ≡ codes "G" ∷ codes "G-2" ∷ codes "G-2" ∷ []
unfolding dedupe join_row first_with rename set_sku add_issue count_sku format_nat digits
three_skus = refl

dedupe-repeats_example :
    map skipped (dedupe model_signature 0 [] [] three_rows).0
    ≡ repeats [] (signatures model_signature three_rows)
dedupe-repeats_example = dedupe-repeats model_signature three_rows (refl, (refl, (refl, tt)))

abbrev one_variant : List Text → List VariantRow
one_variant _ = record { id = 70; product_id = 7; sku = codes "G"; supplier_item_no = [] } ∷ []

settle_rows-IsReviewable_example : All IsReviewable (settle_rows one_variant three_rows)
settle_rows-IsReviewable_example =
    settle_rows-IsReviewable one_variant three_rows
      ((refl, refl), ((refl, refl), ((refl, refl), tt)))

abbrev two_stored : List ImportRow
two_stored =
    record { id = 1; row = workbook_row (codes "G") (codes "1") }
    ∷ record { id = 2; row = record (workbook_row (codes "H") (codes "2")) { decision = pending } }
    ∷ []

abbrev staged : Batch
staged = record { status = dry_run; rows = two_stored }

count_closings_le_example :
    count_closings (commit_batch staged ∷ abort_batch ∷ commit_batch staged ∷ []) staged ≤ 1
count_closings_le_example =
    count_closings_le (commit_batch staged ∷ abort_batch ∷ commit_batch staged ∷ []) staged

-- A batch with a new row, one to be decided and one that matched variant 70 of product 7.
abbrev matched_row : StagedRow
matched_row = record (workbook_row (codes "M") (codes "3")) {
  decision = merge;
  target = some 7;
  proposal = record (proposal_of (codes "M") (codes "3")) {
    group_key = codes "1|bells||{}";
    target_variant_id = some 70;
  };
}

abbrev linked_rows : Decision → Option ℕ → List ImportRow
linked_rows d t =
    record { id = 1; row = workbook_row (codes "G") (codes "1") }
    ∷ record { id = 2; row = record (workbook_row (codes "H") (codes "2")) { decision = d } }
    ∷ record { id = 3; row = record matched_row { target = t } }
    ∷ []

abbrev linked : Batch
linked = record { status = dry_run; rows = linked_rows pending (some 7) }

-- Row 2 is skipped, and product 9 is deleted, which is none of the batch.
abbrev requests : List ReviewRequest
requests = set_row 2 skip ∷ product_gone 9 ∷ []

abbrev only_nine : ℕ → Bool
only_nine p = p == 9

abbrev closed : Batch
closed = record { status = committed; rows = linked_rows skip (some 7) }

commits : commit (reviewed requests linked) (reviewed requests linked) ≡ ok closed
unfolding commit reviewed close_batch set_status is_open as_review apply_review set_decision
    decision_is_valid check_decision decide_row forget_product
commits = refl

no_issue : has_issue error (workbook_row (codes "G") (codes "1")) ≡ false
unfolding has_issue
no_issue = refl

linked_rows-IsInReview : IsInReview (linked_rows pending (some 7))
linked_rows-IsInReview = (
  (refl, ((λ m. cc, λ m. cc), λ k. no_issue)),
  ((refl, ((λ m. cc, λ m. cc), λ k. cc)), ((refl, ((λ m. refl, λ m. refl), λ k. cc)), tt)),
)

commit-row_is_ready_example :
    All (λ r. row_is_decided r.row ≡ true) closed.rows
    × ((any (λ r. names_gone only_nine r.row.target) (linked_rows pending (some 7)) ≡ true)
        ⊎ All (λ r. row_is_ready r.row ≡ true) closed.rows)
commit-row_is_ready_example =
    commit-row_is_ready requests linked closed linked_rows-IsInReview commits only_nine
      (tt, (refl, tt))

-- Services that store how many calls there were.
abbrev counting : Services Text ℕ ℕ
counting = record {
  create_brand = λ name s. ok (1, s + 1);
  create_supplier = λ name s. ok (2, s + 1);
  update_variant_in_tx = λ product variant prices stock s. ok (s + 1);
  product_document = λ product s. ok product;
  add_variants = λ document variants. document;
  update_product = λ product document s. ok (s + 1);
  create_product = λ new s. ok (3, s + 1);
  set_row_target = λ row product s. ok (s + 1);
}

abbrev at_work : Committer ℕ
at_work = record { brands = []; suppliers = []; store = 0 }

-- Row 1 makes a product and row 3 updates a variant.
applies_two :
    apply counting (λ s. s) true closed.rows at_work
    ≡ ok (1, 2, record { brands = []; suppliers = []; store = 3 })
unfolding apply apply_groups apply_group merge_rows merge_row add_rows variant_inputs variant_input
    supplier_id_of place_variants new_product brand_id_of set_targets at_first rows_of group_keys
    is_applied
applies_two = refl

commit-apply_example :
    (apply counting (λ s. s) true (forget_products (9 ∷ []) closed.rows) at_work ≢ err panicked)
    × ((created applied : ℕ) (c' : Committer ℕ)
        → apply counting (λ s. s) true (forget_products (9 ∷ []) closed.rows) at_work
          ≡ ok (created, applied, c')
        → (applied ≡ count_rows is_applied closed.rows)
          × (created ≤ length (group_keys [] closed.rows)))
commit-apply_example =
    commit-apply counting (λ s. s) true requests (9 ∷ []) only_nine linked closed at_work
      linked_rows-IsInReview commits (tt, (refl, tt)) (refl, tt) (refl, (refl, (refl, tt)))

-- When product 7 is deleted before the commit, Commit accepts the batch and applyGroup panics.
abbrev orphaned : Batch
orphaned = record { status = committed; rows = linked_rows skip none }

commits_orphan :
    commit
      (reviewed (set_row 2 skip ∷ product_gone 7 ∷ []) linked)
      (reviewed (set_row 2 skip ∷ product_gone 7 ∷ []) linked)
    ≡ ok orphaned
unfolding commit reviewed close_batch set_status is_open as_review apply_review set_decision
    decision_is_valid check_decision decide_row forget_product
commits_orphan = refl

orphan_panics : apply counting (λ s. s) true orphaned.rows at_work ≡ err panicked
unfolding apply apply_groups apply_group merge_rows merge_row add_rows variant_inputs variant_input
    supplier_id_of place_variants new_product brand_id_of set_targets at_first rows_of group_keys
    is_applied
orphan_panics = refl
