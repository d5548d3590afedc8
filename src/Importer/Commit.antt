-- ===== src/Importer/Commit.antt =====
-- internal/importer/importer.go: the committer, which applies the decided rows of a batch to the
-- products. The product and taxonomy services that it calls inside the transaction are an interface:
-- any of their calls may fail with an error of `E`, and `S` is what they store. strings.ToLower is the
-- parameter `lower`. Reading the staged rows back from JSON is left out.
pub mod Safe
pub mod Grouped
pub mod Applied
use khans_bike.Common.{
  ℕ, zero, suc, ◌+◌, Bool, true, false, not, ◌&&◌, ◌||◌, Option, none, some, List, [], ◌∷◌, ◌++◌,
  map, any, length, if◌then◌else◌, Result, ok, err, ◌>>=◌, ◌>>◌,
}
use khans_bike.Common.Text.{Text, text_eq, is_empty}
use khans_bike.Domain.Status.{Decision, is_accept, is_merge, ProductStatus, StockStatus}
use khans_bike.Domain.Price.{PriceTier}
use khans_bike.Importer.Staging.{StagedRow, Proposal}
use khans_bike.Importer.Review.{ImportRow}

-- VariantInput and ProductInput, as far as an import fills them in.
pub record VariantInput : Type 0 where
  pub sku : Text
  pub supplier_id : Option ℕ
  pub supplier_item_no : Option Text
  pub model_no : Option Text
  pub stock_status : StockStatus
  pub attributes : List (Text × Text)
  pub prices : List (PriceTier × Text)

pub record ProductInput : Type 0 where
  pub category_id : ℕ
  pub brand_id : Option ℕ
  pub name : Text
  pub summary : Option Text
  pub status : ProductStatus
  pub retail_price_is_public : Bool
  pub attributes : List (Text × Text)
  pub variants : List VariantInput

-- What the committer calls. `product_document` is GetInTx and ToInput, `add_variants` appends to the
-- variants of a document.
pub record Services (E S Document : Type 0) : Type 0 where
  pub create_brand : Text → S → Result E (ℕ × S)
  pub create_supplier : Text → S → Result E (ℕ × S)
  pub update_variant_in_tx : ℕ → ℕ → List (PriceTier × Text) → StockStatus → S → Result E S
  pub product_document : ℕ → S → Result E Document
  pub add_variants : Document → List VariantInput → Document
  pub update_product : ℕ → Document → S → Result E S
  pub create_product : ProductInput → S → Result E (ℕ × S)
  pub set_row_target : ℕ → ℕ → S → Result E S

-- The maps from lower-cased names to ids, and the store.
pub record Committer (S : Type 0) : Type 0 where
  pub brands : List (Text × ℕ)
  pub suppliers : List (Text × ℕ)
  pub store : S

-- An error of a service, or the dereference of a nil pointer, at which Go panics.
pub data Failure (E : Type 0) : Type 0 where
  service_error : E → Failure E
  nil_dereference : Failure E

-- What apply answers with: the first row of the group at fault and the error.
pub data CommitError (E : Type 0) : Type 0 where
  failed_at : ℕ → E → CommitError E
  panicked : CommitError E

abbrev pub named : Text → List (Text × ℕ) → Option ℕ
named name [] = none
named name ((k, id) ∷ ids) = let rest = named name ids in if text_eq k name then some id else rest

abbrev pub call : {A E : Type 0} → Result E A → Result (Failure E) A
call (err e) = err (service_error e)
call (ok a) = ok a

abbrev pub dereference : {A E : Type 0} → Option A → Result (Failure E) A
dereference none = err nil_dereference
dereference (some a) = ok a

abbrev pub nonempty_text : Text → Option Text
nonempty_text s = if is_empty s then none else some s

unfoldable pub is_applied : ImportRow → Bool
is_applied r = is_accept r.row.decision || is_merge r.row.decision

-- The keys of the groups in the order of their first rows, and the rows of a group.
unfoldable pub group_keys : List Text → List ImportRow → List Text
group_keys known [] = []
group_keys known (r ∷ rows) =
    let key = r.row.proposal.group_key in
    let rest = group_keys known rows in
    let more = group_keys (key ∷ known) rows in
    if is_applied r && not (any (text_eq key) known) then key ∷ more else rest

unfoldable pub rows_of : Text → List ImportRow → List ImportRow
rows_of key [] = []
rows_of key (r ∷ rows) =
    let rest = rows_of key rows in
    if is_applied r && text_eq key r.row.proposal.group_key then r ∷ rest else rest

abbrev pub last_target : Option ℕ → Option ℕ → Option ℕ
last_target none earlier = earlier
last_target (some p) earlier = some p

-- apply reports each error at the first row of its group.
unfoldable pub at_first :
    {A E : Type 0} → List ImportRow → Result (Failure E) A → Result (CommitError E) A
at_first rows (ok a) = ok a
at_first rows (err nil_dereference) = err panicked
at_first [] (err (service_error e)) = err panicked
at_first (r ∷ rows) (err (service_error e)) = err (failed_at r.id e)

module _ {E S Document : Type 0} (services : Services E S Document) (lower : Text → Text)
    (retail_prices_public : Bool) where
  -- brandID and supplierID.
  unfoldable pub brand_id_of : Text → Committer S → Result (Failure E) (Option ℕ × Committer S)
  brand_id_of name c = if is_empty name then ok (none, c) else elim (named (lower name) c.brands) [
    | some id ↦ ok (some id, c)
    | none ↦ call (services.create_brand name c.store) >>= λ made.
        ok (some made.0, record c { brands = (lower name, made.0) ∷ c.brands; store = made.1 })
  ]

  unfoldable pub supplier_id_of : Text → Committer S → Result (Failure E) (Option ℕ × Committer S)
  supplier_id_of name c =
      if is_empty name then ok (none, c) else elim (named (lower name) c.suppliers) [
        | some id ↦ ok (some id, c)
        | none ↦ call (services.create_supplier name c.store) >>= λ made. ok (
          some made.0,
          record c { suppliers = (lower name, made.0) ∷ c.suppliers; store = made.1 },
        )
      ]

  -- variantInput, for one row and for all.
  unfoldable pub variant_input :
      Proposal → Committer S → Result (Failure E) (VariantInput × Committer S)
  variant_input p c = supplier_id_of p.supplier c >>= λ found. ok (
    record {
      sku = p.sku;
      supplier_id = found.0;
      supplier_item_no = nonempty_text p.supplier_item_no;
      model_no = nonempty_text p.model_no;
      stock_status = p.stock_status;
      attributes = p.variant_attributes;
      prices = p.prices;
    },
    found.1,
  )

  unfoldable pub variant_inputs :
      List ImportRow → Committer S → Result (Failure E) (List VariantInput × Committer S)
  variant_inputs [] c = ok ([], c)
  variant_inputs (r ∷ rows) c = variant_input r.row.proposal c >>= λ first.
      variant_inputs rows first.1 >>= λ others. ok (first.0 ∷ others.0, others.1)

  -- The first loop of applyGroup: merges are written at once, the other rows are kept.
  unfoldable pub merge_row : ImportRow → Committer S → Result (Failure E) (Committer S)
  merge_row r c = dereference r.row.target >>= λ product.
      dereference r.row.proposal.target_variant_id >>= λ variant.
      call (
        services.update_variant_in_tx product variant r.row.proposal.prices
          r.row.proposal.stock_status c.store)
      >>= λ store. ok (record c { store = store })

  unfoldable pub merge_rows :
      List ImportRow
      → Option ℕ
      → Committer S
      → Result (Failure E) (Option ℕ × List ImportRow × ℕ × Committer S)
  merge_rows [] target c = ok (target, [], 0, c)
  merge_rows (r ∷ rows) target c =
      let target' = last_target r.row.target target in
      if is_merge r.row.decision
      then (merge_row r c >>= λ c'.
          merge_rows rows target' c' >>= λ rest. ok (rest.0, rest.1, rest.2 + 1, rest.3))
      else (merge_rows rows target' c >>= λ rest. ok (rest.0, r ∷ rest.1, rest.2, rest.3))

  -- The product that the additions go to, and whether it is new.
  unfoldable pub extend_product :
      ℕ → List VariantInput → Committer S → Result (Failure E) (Committer S)
  extend_product product variants c =
      call (services.product_document product c.store) >>= λ document.
      call (services.update_product product (services.add_variants document variants) c.store)
      >>= λ store. ok (record c { store = store })

  unfoldable pub new_product :
      Proposal → List VariantInput → Committer S → Result (Failure E) (ℕ × Committer S)
  new_product p variants c = brand_id_of p.brand c >>= λ brand.
      call (
        services.create_product
          (record {
            category_id = p.category_id;
            brand_id = brand.0;
            name = p.name;
            summary = nonempty_text p.summary;
            status = p.status;
            retail_price_is_public = retail_prices_public;
            attributes = p.product_attributes;
            variants = variants;
          })
          brand.1.store)
      >>= λ made. ok (made.0, record (brand.1) { store = made.1 })

  unfoldable pub place_variants :
      Option ℕ
      → Proposal
      → List VariantInput
      → Committer S
      → Result (Failure E) (ℕ × Bool × Committer S)
  place_variants (some product) p variants c =
      extend_product product variants c >>= λ c'. ok (product, false, c')
  place_variants none p variants c = new_product p variants c >>= λ made. ok (made.0, true, made.1)

  -- The last loop: SetImportRowTarget.
  unfoldable pub set_targets : ℕ → List ImportRow → Committer S → Result (Failure E) (Committer S)
  set_targets product [] c = ok c
  set_targets product (r ∷ rows) c =
      call (services.set_row_target r.id product c.store) >>= λ store.
      set_targets product rows (record c { store = store })

  -- applyGroup from `len(additions) == 0` on.
  unfoldable pub add_rows :
      Option ℕ → List ImportRow → ℕ → Committer S → Result (Failure E) (ℕ × Bool × Committer S)
  add_rows target [] applied c = ok (applied, false, c)
  add_rows target (r ∷ rows) applied c = variant_inputs (r ∷ rows) c >>= λ made.
      place_variants target r.row.proposal made.0 made.1 >>= λ placed.
      set_targets placed.0 (r ∷ rows) placed.2 >>= λ c'.
      ok (applied + length (r ∷ rows), placed.1, c')

  -- applyGroup: the number of rows applied, and whether a product was created.
  unfoldable pub apply_group :
      List ImportRow → Committer S → Result (Failure E) (ℕ × Bool × Committer S)
  apply_group rows c =
      merge_rows rows none c >>= λ merged. add_rows merged.0 merged.1 merged.2 merged.3

  -- The loop of apply over the groups.
  unfoldable pub apply_groups :
      List Text → List ImportRow → Committer S → Result (CommitError E) (ℕ × ℕ × Committer S)
  apply_groups [] rows c = ok (0, 0, c)
  apply_groups (key ∷ keys) rows c =
      at_first (rows_of key rows) (apply_group (rows_of key rows) c) >>= λ group.
      apply_groups keys rows group.2 >>= λ rest.
      ok (rest.0 + (if group.1 then 1 else 0), rest.1 + group.0, rest.2)

  -- apply: products created, rows applied, and what is stored.
  unfoldable pub apply : List ImportRow → Committer S → Result (CommitError E) (ℕ × ℕ × Committer S)
  apply rows c = apply_groups (group_keys [] rows) rows c
