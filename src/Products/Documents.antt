-- ===== src/Products/Documents.antt =====
-- internal/service/products.go: validateDocument, which checks a product document against the schema
-- of its category and gives every variant an id. The lookups of brands, suppliers and categories are
-- the fields of `Lookups`, and errors of the database are left out. `new_id` mints the id of the new
-- variant at a position.
pub mod Variants
pub mod Ids
pub mod Accepted
use khans_bike.Common.{
  ℕ, ◌+◌, [], ◌∷◌, ◌++◌, List, Bool, true, false, not, ◌||◌, ◌&&◌, ◌==◌, Option, none, some, differ,
  if◌then◌else◌, Result, ok, err, ◌>>◌, length, ltb, any, find_row, map, count_rows, concat,
}
use khans_bike.Common.Text.{Text, codes, text_eq, trim_space, is_empty}
use khans_bike.Domain.Status.{is_active, stock_is_valid}
use khans_bike.Products.Inputs.{
  VariantInput, ProductInput, VariantDocument, ValidatedDoc, default_status, status_is_valid,
  default_stock, is_dangling, field_in, variant_field, read_attributes, missing, read_prices,
  or_derived, max_product_name_len, max_summary_len, max_product_desc_len, max_sku_len,
  max_code_len, max_suffix_len, max_variants,
}
use khans_bike.Schema.Values.{Json, contains_id}
use khans_bike.Schema.Views.{CategoryAttribute, Formats}
use khans_bike.Service.Validation.{
  ServiceError, invalid, add_field, validation_err, require_text, optional_text, validate_slug,
}

pub record Lookups : Type 0 where
  pub brand_exists : ℕ → Bool
  pub supplier_exists : ℕ → Bool
  pub schema_of : ℕ → Option (List CategoryAttribute)

-- What the loops over the document remember.
pub record Seen : Type 0 where
  pub ids : List ℕ
  pub skus : List Text
  pub suppliers : List ℕ
  pub defaults : ℕ

abbrev pub contains_text : List Text → Text → Bool
contains_text texts s = any (λ t. text_eq t s) texts

abbrev pub none_seen : Seen
none_seen = record { ids = []; skus = []; suppliers = []; defaults = 0 }

abbrev pub mark_id : Option ℕ → List ℕ → List ℕ
mark_id none ids = ids
mark_id (some id) ids = id ∷ ids

-- The id of a variant, and what is wrong with it.
abbrev pub id_or_new : ℕ → Option ℕ → ℕ
id_or_new new none = new
id_or_new new (some id) = id

abbrev pub is_unset : Option ℕ → Bool
is_unset none = true
is_unset (some _) = false

abbrev pub is_wrong_id : (ℕ → Bool) → List ℕ → Option ℕ → Bool
is_wrong_id existing seen none = false
is_wrong_id existing seen (some id) = not (existing id) || contains_id seen id

-- The supplier of a variant is looked up once in a document.
abbrev pub is_unknown_supplier : (ℕ → Bool) → List ℕ → Option ℕ → Bool
is_unknown_supplier exists seen none = false
is_unknown_supplier exists seen (some id) = not (contains_id seen id) && not (exists id)

-- What the variant at a position leaves behind for the ones after it.
abbrev pub mark_seen : VariantInput → Seen → Seen
mark_seen vi seen = record {
  ids = mark_id vi.id seen.ids;
  skus = trim_space vi.sku ∷ seen.skus;
  suppliers = mark_id vi.supplier_id seen.suppliers;
  defaults = if vi.is_default then seen.defaults + 1 else seen.defaults;
}

module _ {F : Type 0} (formats : Formats F) (json : Json F Text) (upper : Text → Text)
    (new_id : ℕ → ℕ) (bindings : List CategoryAttribute) where
  -- The body of the loop over the variants: the checked variant.
  unfoldable pub checked_variant : ℕ → VariantInput → VariantDocument F
  checked_variant i vi =
      let id = id_or_new (new_id i) vi.id in
      let prefix = variant_field i in
      let values =
        (read_attributes formats json true (some id) (prefix ++ codes "attributes.") bindings
          vi.attributes).0 in
      record {
        row = record {
          id = id;
          is_new = is_unset vi.id;
          sku = trim_space vi.sku;
          supplier_id = vi.supplier_id;
          supplier_item_no = (optional_text [] vi.supplier_item_no max_code_len).0;
          model_no = (optional_text [] vi.model_no max_code_len).0;
          name_suffix =
              or_derived formats ((optional_text [] vi.name_suffix max_suffix_len).0) bindings
                values;
          stock_status = default_stock vi.stock_status;
          is_default = vi.is_default;
        };
        values = values;
        prices = (read_prices upper (prefix ++ codes "prices.") vi.prices).0;
      }

  unfoldable pub checked_variants : ℕ → List VariantInput → List (VariantDocument F)
  checked_variants i [] = []
  checked_variants i (vi ∷ variants) = checked_variant i vi ∷ checked_variants (i + 1) variants

module _ {F : Type 0} (formats : Formats F) (json : Json F Text) (upper : Text → Text)
    (lookups : Lookups) (existing : ℕ → Bool) (new_id : ℕ → ℕ) (publishing : Bool)
    (bindings : List CategoryAttribute) where
  -- The same: the fields that it adds.
  unfoldable pub variant_errors : ℕ → VariantInput → Seen → List Text
  variant_errors i vi seen =
      let prefix = variant_field i in
      let id = id_or_new (new_id i) vi.id in
      concat (
        add_field (is_wrong_id existing seen.ids vi.id) (field_in prefix (codes "id"))
        ∷ (require_text (field_in prefix (codes "sku")) vi.sku max_sku_len).1
        ∷ add_field (contains_text seen.skus (trim_space vi.sku)) (field_in prefix (codes "sku"))
        ∷ (optional_text (field_in prefix (codes "supplierItemNo")) vi.supplier_item_no
            max_code_len).1
        ∷ (optional_text (field_in prefix (codes "modelNo")) vi.model_no max_code_len).1
        ∷ (optional_text (field_in prefix (codes "nameSuffix")) vi.name_suffix max_suffix_len).1
        ∷ add_field (is_unknown_supplier (lookups.supplier_exists) seen.suppliers vi.supplier_id)
            (field_in prefix (codes "supplierId"))
        ∷ add_field (not (stock_is_valid (default_stock vi.stock_status)))
            (field_in prefix (codes "stockStatus"))
        ∷ (read_attributes formats json true (some id) (prefix ++ codes "attributes.") bindings
            vi.attributes).1
        ∷ (if publishing
            then missing true (prefix ++ codes "attributes.") bindings vi.attributes
            else [])
        ∷ (read_prices upper (prefix ++ codes "prices.") vi.prices).1
        ∷ [])

  unfoldable pub variants_errors : ℕ → List VariantInput → Seen → List Text
  variants_errors i [] seen = []
  variants_errors i (vi ∷ variants) seen =
      variant_errors i vi seen ++ variants_errors (i + 1) variants (mark_seen vi seen)

-- `defaults` after the loop.
abbrev pub count_defaults : List VariantInput → ℕ
count_defaults variants = count_rows (λ vi. vi.is_default) variants

unfoldable pub default_first : {F : Type 0} → List (VariantDocument F) → List (VariantDocument F)
default_first [] = []
default_first (d ∷ rest) = record d { row = record (d.row) { is_default = true } } ∷ rest

-- The product's own fields: the document with them cleaned, and the fields in error.
unfoldable pub cleaned : ProductInput → ProductInput
cleaned input = record input {
  name = trim_space input.name;
  slug = trim_space input.slug;
  summary = (optional_text [] input.summary max_summary_len).0;
  description = (optional_text [] input.description max_product_desc_len).0;
  status = default_status input.status;
}

unfoldable pub own_errors : Lookups → ProductInput → List Text
own_errors lookups input = concat (
    (require_text (codes "name") input.name max_product_name_len).1
    ∷ (if is_empty (trim_space input.slug)
        then []
        else validate_slug (codes "slug") (trim_space input.slug))
    ∷ (optional_text (codes "summary") input.summary max_summary_len).1
    ∷ (optional_text (codes "description") input.description max_product_desc_len).1
    ∷ add_field (not (status_is_valid (default_status input.status))) (codes "status")
    ∷ add_field (is_dangling (lookups.brand_exists) input.brand_id) (codes "brandId")
    ∷ [])

module _ {F : Type 0} (formats : Formats F) (json : Json F Text) (upper : Text → Text)
    (lookups : Lookups) (existing : ℕ → Bool) (new_id : ℕ → ℕ) where
  unfoldable pub document_errors : List CategoryAttribute → ProductInput → List Text
  document_errors bindings input =
      let publishing = is_active (default_status input.status) in
      let n = length input.variants in
      concat (
        own_errors lookups input
        ∷ (read_attributes formats json false none (codes "attributes.") bindings
            input.attributes).1
        ∷ (if publishing then missing false (codes "attributes.") bindings input.attributes else [])
        ∷ add_field (n == 0 || ltb max_variants n) (codes "variants")
        ∷ variants_errors formats json upper lookups existing new_id publishing bindings 0
            input.variants none_seen
        ∷ add_field (ltb 1 (count_defaults input.variants)) (codes "variants")
        ∷ [])

  -- The document that validateDocument answers with.
  unfoldable pub checked_document : List CategoryAttribute → ProductInput → ValidatedDoc F
  checked_document bindings input =
      let variants = checked_variants formats json upper new_id bindings 0 input.variants in
      record {
        input = cleaned input;
        values =
            (read_attributes formats json false none (codes "attributes.") bindings
              input.attributes).0;
        variants = if count_defaults input.variants == 0 then default_first variants else variants;
      }

  unfoldable pub validate_with :
      Option (List CategoryAttribute) → ProductInput → Result ServiceError (ValidatedDoc F)
  validate_with none input = err (invalid (own_errors lookups input ++ codes "categoryId" ∷ []))
  validate_with (some bindings) input =
      validation_err (document_errors bindings input) >> ok (checked_document bindings input)

  -- validateDocument.
  unfoldable pub validate_document : ProductInput → Result ServiceError (ValidatedDoc F)
  validate_document input = validate_with (lookups.schema_of input.category_id) input
