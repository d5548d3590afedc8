-- ===== src/Products/Variants.antt =====
-- internal/service/products.go: what syncVariants does to the table of variants, with the statements of
-- internal/store/gen/products.sql.go and the keys of the table. The projection `attrs`, attribute
-- values and times are left out; prices are in Products/Prices.
pub mod Synced
use khans_bike.Common.{
  ℕ, ◌+◌, [], ◌∷◌, List, Bool, true, false, not, ◌||◌, ◌&&◌, ◌==◌, Option, none, some,
  if◌then◌else◌, Result, ok, err, ◌>>=◌, ◌>>◌, guard, any, find_row, update_rows, delete_rows,
}
use khans_bike.Common.Int.{ℤ, pos, wrap32}
use khans_bike.Common.Text.{Text, text_eq}
use khans_bike.Domain.Status.{StockStatus}
use khans_bike.Service.Validation.{ServiceError, not_found, conflict}

pub record ProductVariant : Type 0 where
  pub id : ℕ
  pub product_id : ℕ
  pub sku : Text
  pub supplier_id : Option ℕ
  pub supplier_item_no : Option Text
  pub model_no : Option Text
  pub name_suffix : Option Text
  pub position : ℤ
  pub stock_status : StockStatus
  pub is_default : Bool

-- validatedVariant.
pub record ValidatedVariant : Type 0 where
  pub id : ℕ
  pub is_new : Bool
  pub sku : Text
  pub supplier_id : Option ℕ
  pub supplier_item_no : Option Text
  pub model_no : Option Text
  pub name_suffix : Option Text
  pub stock_status : StockStatus
  pub is_default : Bool

abbrev pub is_variant : ℕ → ℕ → ProductVariant → Bool
is_variant id product r = r.id == id && r.product_id == product

-- `keep`: the ids that the document has from before.
unfoldable pub is_kept : List ValidatedVariant → ℕ → Bool
is_kept doc id = any (λ v. not v.is_new && v.id == id) doc

-- DeleteVariantsExcept and ClearDefaultVariant.
unfoldable pub delete_variants_except :
    ℕ → List ValidatedVariant → List ProductVariant → List ProductVariant
delete_variants_except product doc =
    delete_rows (λ r. r.product_id == product && not (is_kept doc r.id))

unfoldable pub clear_default_variant : ℕ → List ProductVariant → List ProductVariant
clear_default_variant product =
    update_rows (λ r. r.product_id == product && r.is_default)
      (λ r. record r { is_default = false })

-- The row that a variant at a position of the document is saved as.
unfoldable pub row_of : ℕ → ℕ → ValidatedVariant → ProductVariant
row_of product i v = record {
  id = v.id;
  product_id = product;
  sku = v.sku;
  supplier_id = v.supplier_id;
  supplier_item_no = v.supplier_item_no;
  model_no = v.model_no;
  name_suffix = v.name_suffix;
  position = wrap32 (pos i);
  stock_status = v.stock_status;
  is_default = v.is_default;
}

-- UNIQUE (product_id, sku) and the index ux_variant_default, against the other rows.
unfoldable pub clashes : ProductVariant → ProductVariant → Bool
clashes new r =
    not (r.id == new.id)
    && r.product_id == new.product_id
    && (text_eq r.sku new.sku || new.is_default && r.is_default)

-- CreateVariant and UpdateVariant.
unfoldable pub create_variant :
    ProductVariant → List ProductVariant → Result ServiceError (List ProductVariant)
create_variant new rows =
    guard (not (any (λ r. r.id == new.id) rows || any (clashes new) rows)) conflict
    >> ok (new ∷ rows)

unfoldable pub update_variant :
    ProductVariant → List ProductVariant → Result ServiceError (List ProductVariant)
update_variant new rows =
    guard (any (is_variant new.id new.product_id) rows) not_found
    >> guard (not (any (clashes new) rows)) conflict
    >> ok (update_rows (is_variant new.id new.product_id) (λ _. new) rows)

unfoldable pub save_variant :
    ℕ → ℕ → ValidatedVariant → List ProductVariant → Result ServiceError (List ProductVariant)
save_variant product i v rows =
    if v.is_new
    then create_variant (row_of product i v) rows
    else update_variant (row_of product i v) rows

-- The loop of syncVariants from position `i` on.
unfoldable pub save_variants :
    ℕ → ℕ → List ValidatedVariant → List ProductVariant → Result ServiceError (List ProductVariant)
save_variants product i [] rows = ok rows
save_variants product i (v ∷ doc) rows =
    save_variant product i v rows >>= save_variants product (i + 1) doc

-- syncVariants.
unfoldable pub sync_variants :
    ℕ → List ValidatedVariant → List ProductVariant → Result ServiceError (List ProductVariant)
sync_variants product doc rows =
    save_variants product 0 doc
      (clear_default_variant product (delete_variants_except product doc rows))
