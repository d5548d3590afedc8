-- ===== src/Examples/Saving.antt =====
-- A product document with a required attribute and a variant axis, validated and saved, and the
-- theorems on validation and saving.
use mathlib.Core.List.{Permᴰ}
use mathlib.Core.List.Permᴰ.{swap}
use khans_bike.Common.{
  ℕ, ◌+◌, ◌-◌, ◌≡◌, ◌≢◌, refl, [], ◌∷◌, List, Bool, true, false, Option, none, some, ok, err, arith,
  Result, ◌==◌, length, take, drop, if◌then◌else◌, concat, All,
}
use khans_bike.Common.Text.{Text, codes, text_eq, is_space, starts_with}
use khans_bike.Common.Int.{pos, wrap32, wrap64}
use khans_bike.Domain.Price.{retail_ttd, tier_currency}
use khans_bike.Domain.Status.{active, in_stock, stock_is_valid}
use khans_bike.Platform.Money.{
  format_nat, digits, parse_money, parse_decimal, parse_trimmed, parse_unsigned, minor_units,
  parse_fraction, pad_zeros, split_dot, parse_int, is_digits, is_digit, new_money,
}
use khans_bike.Products.Documents.{
  Lookups, checked_variant, variant_errors, checked_variants, variants_errors, default_first,
  cleaned, own_errors, document_errors, checked_document, validate_with, validate_document,
}
use khans_bike.Products.Documents.Accepted.{IsAccepted, validate_document-IsAccepted}
use khans_bike.Products.Documents.Ids.{HasFreshIds}
use khans_bike.Products.Inputs.{
  ProductInput, VariantInput, ValidatedDoc, is_null, value_at, field_in, variant_field, bound_entry,
  read_entry, read_attributes, missing, read_price, read_prices,
}
use khans_bike.Products.Inputs.Keys.{IsSchema}
use khans_bike.Products.Prices.{
  tier_name, current_price, current_row, apply_prices, upsert_price, replace_price, new_price,
}
use khans_bike.Products.Saving.{
  Product, Tables, has_variant, rows_of_doc, values_of_variants, is_orphan, apply_all_prices,
  sync_document, product_row, update_product, attrs_of, save_current, update_in_tx,
}
use khans_bike.Products.Saving.Saved.{IsSaved, update_in_tx-IsSaved}
use khans_bike.Products.Saving.Versions.{update_in_tx-again}
use khans_bike.Products.Variants.{
  ProductVariant, sync_variants, save_variants, save_variant, create_variant, update_variant,
  row_of, clashes, clear_default_variant, delete_variants_except, is_kept,
}
use khans_bike.Schema.Attributes.{
  AttributeValue, DataType, text, boolean, new_attribute_value, fits,
}
use khans_bike.Schema.Stored.{
  ProductAttributeValue, merge_values, base_row, option_rows, value_rows, delete_values,
  insert_values, list_values,
}
use khans_bike.Schema.Stored.Merged.{IsRestored, merge_values-IsRestored}
use khans_bike.Schema.Stored.Rows.{made}
use khans_bike.Schema.Values.{Json, no_slots, decode_value, decode_slots, decode_text, api_value}
use khans_bike.Schema.Views.{
  CategoryAttribute, Formats, by_key, by_id, derived_suffix, views, view_of, by_attribute,
  projection, display_value, effective_label,
}
use khans_bike.Service.Validation.{
  ServiceError, require_text, optional_text, validate_slug, check_if_match,
}

-- JSON strings and Booleans, and no other values; natural numbers for floats.
abbrev quoted : Text → Option Text
quoted raw =
    if starts_with (codes "\"") raw then some (take (length raw - 2) (drop 1 raw)) else none

abbrev bool_of : Text → Option Bool
bool_of raw =
    if text_eq raw (codes "true")
    then some true
    else if text_eq raw (codes "false")
    then some false
    else none

abbrev json : Json ℕ Text
json = record {
  string = quoted;
  float = λ raw. none;
  range = λ raw. none;
  bool = bool_of;
  strings = λ raw. none;
}

abbrev formats : Formats ℕ
formats = record {
  floats = record { zero_float = 0; greater = λ a b. false; finite = λ a. true };
  format_number = λ n. [];
  same_float = λ a b. a == b;
}

abbrev binding_of : ℕ → Text → DataType → Bool → CategoryAttribute
binding_of id key data_type axis = record {
  attribute = record {
    id = id;
    key = key;
    label = key;
    data_type = data_type;
    unit = none;
    options = [];
  };
  position = pos 0;
  is_required = true;
  is_variant_axis = axis;
  label_override = none;
}

abbrev bindings : List CategoryAttribute
bindings = binding_of 1 (codes "frame") text false ∷ binding_of 2 (codes "disc") boolean true ∷ []

abbrev schema_at : ℕ → Option (List CategoryAttribute)
schema_at id = if id == 3 then some bindings else none

abbrev lookups : Lookups
lookups = record {
  brand_exists = λ id. false;
  supplier_exists = λ id. false;
  schema_of = schema_at;
}

abbrev variant_input : Option ℕ → Text → Text → VariantInput
variant_input id sku disc = record {
  id = id;
  sku = sku;
  supplier_id = none;
  supplier_item_no = none;
  model_no = none;
  name_suffix = none;
  stock_status = in_stock;
  is_default = false;
  attributes = (codes "disc", disc) ∷ [];
  prices = (retail_ttd, codes "12.50") ∷ [];
}

abbrev input : ProductInput
input = record {
  category_id = 3;
  brand_id = none;
  name = codes " City bike ";
  slug = [];
  summary = none;
  description = none;
  status = active;
  is_featured = false;
  retail_price_is_public = true;
  attributes = (codes "frame", codes "\"steel\"") ∷ [];
  variants =
      variant_input (some 7) (codes "A") (codes "true")
      ∷ variant_input none (codes "B") (codes "false")
      ∷ [];
}

abbrev old_product : Product ℕ
old_product = record {
  id = 5;
  category_id = 3;
  brand_id = none;
  name = codes "City";
  slug = codes "city";
  summary = none;
  description = none;
  status = active;
  is_featured = false;
  retail_price_is_public = false;
  attrs = [];
  updated_at = 10;
  published_at = some 10;
}

abbrev old_variant : ProductVariant
old_variant = record {
  id = 7;
  product_id = 5;
  sku = codes "A";
  supplier_id = none;
  supplier_item_no = none;
  model_no = none;
  name_suffix = none;
  position = pos 0;
  stock_status = in_stock;
  is_default = true;
}

abbrev before : Tables ℕ
before = record {
  products = old_product ∷ [];
  variants = old_variant ∷ [];
  values = [];
  prices = [];
}

abbrev new_id : ℕ → ℕ
new_id i = 100 + i

abbrev after : Result ServiceError (Tables ℕ) → Tables ℕ
after (err e) = before
after (ok t) = t

abbrev save : ℕ → Tables ℕ → Result ServiceError (Tables ℕ)
save now tables =
    update_in_tx formats json (λ s. s) lookups new_id (λ t. 0) now 1 5 input [] before tables

abbrev saved : Tables ℕ
saved = after (save 20 before)

saves : save 20 before ≡ ok saved
unfolding update_in_tx save_current check_if_match validate_document validate_with document_errors
    checked_document own_errors cleaned checked_variants checked_variant variants_errors
    variant_errors default_first read_attributes read_entry bound_entry is_null value_at field_in
    variant_field missing read_prices read_price concat require_text optional_text validate_slug
    stock_is_valid by_key by_id decode_value decode_slots decode_text new_attribute_value fits
    is_space format_nat digits tier_name tier_currency parse_money parse_decimal parse_trimmed
    parse_unsigned minor_units parse_fraction pad_zeros split_dot parse_int is_digits is_digit
    new_money derived_suffix views view_of by_attribute effective_label display_value api_value
    projection attrs_of product_row update_product sync_document rows_of_doc values_of_variants
    is_orphan has_variant sync_variants save_variants save_variant create_variant update_variant
    row_of clashes clear_default_variant delete_variants_except is_kept wrap32 apply_all_prices
    apply_prices upsert_price new_price replace_price current_price current_row insert_values
    delete_values value_rows base_row option_rows wrap64
saves = refl

abbrev document : ValidatedDoc ℕ
document =
    checked_document formats json (λ s. s) lookups (has_variant 5 (old_variant ∷ [])) new_id
      bindings input

validates :
    validate_document formats json (λ s. s) lookups (has_variant 5 (old_variant ∷ [])) new_id input
    ≡ ok document
unfolding update_in_tx save_current check_if_match validate_document validate_with document_errors
    checked_document own_errors cleaned checked_variants checked_variant variants_errors
    variant_errors default_first read_attributes read_entry bound_entry is_null value_at field_in
    variant_field missing read_prices read_price concat require_text optional_text validate_slug
    stock_is_valid by_key by_id decode_value decode_slots decode_text new_attribute_value fits
    is_space format_nat digits tier_name tier_currency parse_money parse_decimal parse_trimmed
    parse_unsigned minor_units parse_fraction pad_zeros split_dot parse_int is_digits is_digit
    new_money derived_suffix views view_of by_attribute effective_label display_value api_value
    projection attrs_of product_row update_product sync_document rows_of_doc values_of_variants
    is_orphan has_variant sync_variants save_variants save_variant create_variant update_variant
    row_of clashes clear_default_variant delete_variants_except is_kept wrap32 apply_all_prices
    apply_prices upsert_price new_price replace_price current_price current_row insert_values
    delete_values value_rows base_row option_rows wrap64
validates = refl

fresh : HasFreshIds (has_variant 5 (old_variant ∷ [])) new_id
unfolding has_variant
fresh = record { apart = λ i j lt. ground (arith, lt); unused = λ i. ground arith }

schema : IsSchema bindings
unfolding by_key by_id
schema = ((refl, (refl, tt)), (refl, (refl, tt)))

update_in_tx-IsSaved_example :
    (doc : ValidatedDoc ℕ) × (validate_document formats json
        (λ s. s)
        lookups
        (has_variant 5 (old_variant ∷ []))
        new_id
        input
      ≡ ok doc)
    × IsSaved (formats.floats) 5 doc before saved
update_in_tx-IsSaved_example =
    update_in_tx-IsSaved formats json (λ s. s) lookups new_id (λ t. 0) 20 1 5 input [] before before
      saved old_product bindings refl refl schema fresh ((tt, tt), ((tt, tt), ((tt, tt), tt))) saves

update_in_tx-again_example : save 30 saved ≢ ok saved
update_in_tx-again_example =
    update_in_tx-again formats json (λ s. s) lookups new_id (λ t. 0) 20 30 1 1 5 input input [] []
      before before before saved saved old_product refl refl refl saves

validate_document-IsAccepted_example :
    IsAccepted formats json (has_variant 5 (old_variant ∷ [])) new_id bindings document
validate_document-IsAccepted_example =
    validate_document-IsAccepted formats json (λ s. s) lookups (has_variant 5 (old_variant ∷ []))
      new_id input bindings document refl (schema.0) fresh validates

-- Two options of one value, read back in the other order.
abbrev two_options : AttributeValue ℕ
two_options = record no_slots { attribute_id = 4; option_ids = 2 ∷ 1 ∷ [] }

abbrev row_at : ℕ → ProductAttributeValue ℕ
row_at id = record {
  product_id = 5;
  variant_id = none;
  attribute_id = 4;
  option_id = some id;
  value_text = none;
  value_num = none;
  value_num_low = none;
  value_num_high = none;
  value_bool = none;
  etrto = none;
}

listed :
    list_values 5 (insert_values 5 (two_options ∷ []) (delete_values 5 (row_at 9 ∷ [])))
    ≡ row_at 2 ∷ row_at 1 ∷ []
unfolding list_values insert_values delete_values value_rows option_rows base_row
listed = refl

reordered :
    Permᴰ
      (list_values 5 (insert_values 5 (two_options ∷ []) (delete_values 5 (row_at 9 ∷ []))))
      (row_at 1 ∷ row_at 2 ∷ [])
reordered = rw listed (swap refl refl)

merge_values-IsRestored_example :
    All
      (IsRestored (formats.floats) (merge_values (made (row_at 1 ∷ row_at 2 ∷ []))))
      (two_options ∷ [])
merge_values-IsRestored_example =
    merge_values-IsRestored (formats.floats) 5 (two_options ∷ []) (row_at 9 ∷ [])
      (row_at 1 ∷ row_at 2 ∷ []) (tt, tt) reordered
