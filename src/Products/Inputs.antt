-- ===== src/Products/Inputs.antt =====
-- internal/service/products.go: a product document, and how validateDocument reads its parts. A JSON
-- value is its text, a map a list with one entry per key in the order of the keys; the messages of
-- field errors are left out.
pub mod Entries
pub mod Keys
use khans_bike.Common.{
  ℕ, ◌+◌, [], ◌∷◌, ◌++◌, List, Bool, true, false, not, ◌||◌, ◌&&◌, ◌==◌, Option, none, some, differ,
  if◌then◌else◌, Result, ok, err, ◌>>◌, length, ltb, any, find_row, map,
}
use khans_bike.Common.Int.{is_neg}
use khans_bike.Common.Text.{Text, codes, text_eq, trim_space, is_empty}
use khans_bike.Domain.Status.{
  ProductStatus, draft, other_status, is_active, StockStatus, unknown, other_stock, stock_is_valid,
}
use khans_bike.Domain.Price.{PriceTier, tier_is_valid, tier_currency}
use khans_bike.Platform.Money.{Money, MoneyError, format_nat, parse_money}
use khans_bike.Products.Prices.{tier_name}
use khans_bike.Products.Variants.{ValidatedVariant}
use khans_bike.Schema.Attributes.{AttributeValue, ValueError}
use khans_bike.Schema.Values.{Json, decode_value, contains_id}
use khans_bike.Schema.Views.{CategoryAttribute, Formats, by_key, derived_suffix}
use khans_bike.Service.Validation.{
  ServiceError, invalid, add_field, validation_err, require_text, optional_text, validate_slug,
}

abbrev pub max_product_name_len : ℕ
max_product_name_len = 200

abbrev pub max_summary_len : ℕ
max_summary_len = 500

abbrev pub max_product_desc_len : ℕ
max_product_desc_len = 20000

abbrev pub max_sku_len : ℕ
max_sku_len = 64

abbrev pub max_code_len : ℕ
max_code_len = 100

abbrev pub max_suffix_len : ℕ
max_suffix_len = 200

abbrev pub max_variants : ℕ
max_variants = 200

pub record VariantInput : Type 0 where
  pub id : Option ℕ
  pub sku : Text
  pub supplier_id : Option ℕ
  pub supplier_item_no : Option Text
  pub model_no : Option Text
  pub name_suffix : Option Text
  pub stock_status : StockStatus
  pub is_default : Bool
  pub attributes : List (Text × Text)
  pub prices : List (PriceTier × Text)

pub record ProductInput : Type 0 where
  pub category_id : ℕ
  pub brand_id : Option ℕ
  pub name : Text
  pub slug : Text
  pub summary : Option Text
  pub description : Option Text
  pub status : ProductStatus
  pub is_featured : Bool
  pub retail_price_is_public : Bool
  pub attributes : List (Text × Text)
  pub variants : List VariantInput

-- validatedVariant: the fields of its row, its values and its prices.
pub record VariantDocument (F : Type 0) : Type 0 where
  pub row : ValidatedVariant
  pub values : List (AttributeValue F)
  pub prices : List (PriceTier × Money)

pub record ValidatedDoc (F : Type 0) : Type 0 where
  pub input : ProductInput
  pub values : List (AttributeValue F)
  pub variants : List (VariantDocument F)

-- isNull.
unfoldable pub is_null : Text → Bool
is_null raw = let t = trim_space raw in is_empty t || text_eq t (codes "null")

-- A map read at a key: nil for a key that is not there.
abbrev pub raw_of : Option (Text × Text) → Text
raw_of none = []
raw_of (some (_, raw)) = raw

unfoldable pub value_at : List (Text × Text) → Text → Text
value_at entries key = raw_of (find_row (λ e. text_eq (e.0) key) entries)

abbrev pub default_status : ProductStatus → ProductStatus
default_status (other_status []) = draft
default_status s = s

abbrev pub status_is_valid : ProductStatus → Bool
status_is_valid (other_status _) = false
status_is_valid _ = true

abbrev pub default_stock : StockStatus → StockStatus
default_stock (other_stock []) = unknown
default_stock s = s

-- A reference that the document gives, and the lookup of it.
abbrev pub is_dangling : (ℕ → Bool) → Option ℕ → Bool
is_dangling exists none = false
is_dangling exists (some id) = not (exists id)

unfoldable pub field_in : Text → Text → Text
field_in prefix name = prefix ++ name

unfoldable pub variant_field : ℕ → Text
variant_field i = codes "variants[" ++ format_nat i ++ codes "]."

module _ {F : Type 0} (formats : Formats F) (json : Json F Text) where
  -- One entry of an attributes map: the value it gives, and the field that it adds.
  abbrev pub decoded_entry :
      Text → Result ValueError (AttributeValue F) → List (AttributeValue F) × List Text
  decoded_entry field (err _) = ([], field ∷ [])
  decoded_entry field (ok v) = (v ∷ [], [])

  unfoldable pub bound_entry :
      Bool → Option ℕ → Text → Text → Option CategoryAttribute → List (AttributeValue F) × List Text
  bound_entry axis variant_id field raw none = ([], field ∷ [])
  bound_entry axis variant_id field raw (some b) =
      if differ b.is_variant_axis axis
      then ([], field ∷ [])
      else decoded_entry field (decode_value (formats.floats) json b.attribute raw variant_id)

  unfoldable pub read_entry :
      Bool
      → Option ℕ
      → Text
      → List CategoryAttribute
      → Text
      → Text
      → List (AttributeValue F) × List Text
  read_entry axis variant_id prefix bindings key raw =
      if is_null raw
      then ([], [])
      else bound_entry axis variant_id (field_in prefix key) raw (by_key bindings key)

  unfoldable pub read_attributes :
      Bool
      → Option ℕ
      → Text
      → List CategoryAttribute
      → List (Text × Text)
      → List (AttributeValue F) × List Text
  read_attributes axis variant_id prefix bindings [] = ([], [])
  read_attributes axis variant_id prefix bindings ((key, raw) ∷ entries) =
      let (values, errors) = read_entry axis variant_id prefix bindings key raw in
      let (values', errors') = read_attributes axis variant_id prefix bindings entries in
      (values ++ values', errors ++ errors')

-- The required attributes of one level that a document leaves out.
unfoldable pub missing : Bool → Text → List CategoryAttribute → List (Text × Text) → List Text
missing axis prefix [] entries = []
missing axis prefix (b ∷ bindings) entries =
    add_field
      (b.is_required
        && not (differ b.is_variant_axis axis)
        && is_null (value_at entries b.attribute.key))
      (field_in prefix b.attribute.key)
    ++ missing axis prefix bindings entries

module _ (upper : Text → Text) where
  -- One entry of a prices map.
  abbrev pub checked_price :
      PriceTier → Text → Result MoneyError Money → List (PriceTier × Money) × List Text
  checked_price tier field (err _) = ([], field ∷ [])
  checked_price tier field (ok m) =
      if is_neg m.amount_minor then ([], field ∷ []) else ((tier, m) ∷ [], [])

  unfoldable pub read_price : Text → PriceTier → Text → List (PriceTier × Money) × List Text
  read_price prefix tier amount =
      let field = field_in prefix (tier_name tier) in
      if not (tier_is_valid tier)
      then ([], field ∷ [])
      else checked_price tier field (parse_money upper amount (tier_currency tier))

  unfoldable pub read_prices : Text → List (PriceTier × Text) → List (PriceTier × Money) × List Text
  read_prices prefix [] = ([], [])
  read_prices prefix ((tier, amount) ∷ prices) =
      let (read, errors) = read_price prefix tier amount in
      let (read', errors') = read_prices prefix prices in (read ++ read', errors ++ errors')

module _ {F : Type 0} (formats : Formats F) where
  abbrev pub or_derived :
      Option Text → List CategoryAttribute → List (AttributeValue F) → Option Text
  or_derived (some suffix) bindings values = some suffix
  or_derived none bindings values = derived_suffix formats bindings values
