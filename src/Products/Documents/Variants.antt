-- ===== src/Products/Documents/Variants.antt =====
-- internal/service/products.go: what validateDocument makes of the variants of a document that it
-- finds no fault with.
use khans_bike.Common.{
  ℕ, ◌≤◌, [], ◌∷◌, ◌++◌, List, Bool, true, false, not, ◌||◌, ◌==◌, some, ◌≡◌, refl, arith,
  if◌then◌else◌, length, ltb, All, concat-nil,
}
use khans_bike.Common.Text.{Text, codes, trim_space, is_empty}
use khans_bike.Domain.Status.{stock_is_valid}
use khans_bike.Products.Inputs.{
  VariantInput, VariantDocument, default_stock, field_in, variant_field, read_attributes, missing,
  max_sku_len,
}
use khans_bike.Products.Inputs.Entries.{
  add_field-nil, IsPriceInput, read_prices-IsPriceInput, IsValueOf, read_attributes-IsValueOf,
  HasOwnKeys, IsComplete, read_attributes-IsComplete,
}
use khans_bike.Products.Documents.{
  Lookups, Seen, contains_text, id_or_new, is_wrong_id, checked_variant, variant_errors,
}
use khans_bike.Schema.Values.{Json}
use khans_bike.Schema.Views.{CategoryAttribute, Formats}
use khans_bike.Service.Validation.{require_text}

module _ {F : Type 0} (formats : Formats F) (json : Json F Text)
    (bindings : List CategoryAttribute) where
  -- A variant of its own accord: it has an SKU, its prices and values are of the right kinds, and where
  -- the product is published, it has every required value.
  pub record IsSound (publishing : Bool) (d : VariantDocument F) : Type 0 where
    pub has_sku : is_empty d.row.sku ≡ false
    pub sku_fits : length d.row.sku ≤ 64
    pub stock_is_known : stock_is_valid d.row.stock_status ≡ true
    pub prices_fit : All IsPriceInput d.prices
    pub values_fit : All (IsValueOf formats json true (some d.row.id) bindings) d.values
    pub is_complete : publishing ≡ true → IsComplete formats json true bindings d.values

require_text_sound :
    (field s : Text) (max_len : ℕ)
    → (require_text field s max_len).1 ≡ []
    → (is_empty (trim_space s) ≡ false) × (length (trim_space s) ≤ max_len)
unfolding require_text
require_text_sound field s max_len h =
    let bad = length (trim_space s) == 0 || ltb max_len (length (trim_space s)) in
    let fine : bad ≡ false = add_field-nil bad field h in sound (trim_space s) max_len fine
  where
    sound :
        (t : Text) (n : ℕ)
        → (length t == 0 || ltb n (length t)) ≡ false
        → (is_empty t ≡ false) × (length t ≤ n)
    sound [] n e = cc
    sound (c ∷ t) n e = (refl, ground (arith, e))

module _ {F : Type 0} (formats : Formats F) (json : Json F Text) (upper : Text → Text)
    (lookups : Lookups) (existing : ℕ → Bool) (new_id : ℕ → ℕ) (publishing : Bool)
    (bindings : List CategoryAttribute) where
  -- The parts of the errors that matter below.
  abbrev pub HasNoErrors : ℕ → VariantInput → Seen → Type 0
  HasNoErrors i vi seen =
      let prefix = variant_field i in
      let id = id_or_new (new_id i) vi.id in
      (is_wrong_id existing seen.ids vi.id ≡ false)
      × ((require_text (field_in prefix (codes "sku")) vi.sku max_sku_len).1 ≡ [])
      × (contains_text seen.skus (trim_space vi.sku) ≡ false)
      × (not (stock_is_valid (default_stock vi.stock_status)) ≡ false)
      × ((read_attributes formats json true (some id) (prefix ++ codes "attributes.") bindings
            vi.attributes).1
          ≡ [])
      × ((if publishing
            then missing true (prefix ++ codes "attributes.") bindings vi.attributes
            else [])
          ≡ [])

  pub variant_errors-none :
      (i : ℕ) (vi : VariantInput) (seen : Seen)
      → variant_errors formats json upper lookups existing new_id publishing bindings i vi seen ≡ []
      → HasNoErrors i vi seen
  unfolding variant_errors
  variant_errors-none i vi seen h =
      let (id, from_sku) = concat-nil _ h in
      let (sku, from_again) = from_sku in
      let (again, from_item) = from_again in
      let from_stock = (((from_item.1).1).1).1 in
      let (stock, from_values) = from_stock in
      let (values, from_complete) = from_values in
      (
        add_field-nil _ _ id,
        sku,
        add_field-nil _ _ again,
        add_field-nil _ _ stock,
        values,
        from_complete.0,
      )

  -- Where the products are published, and of one variant that passes.
  pub checked_variant-IsSound :
      (i : ℕ) (vi : VariantInput) (seen : Seen)
      → HasOwnKeys bindings
      → variant_errors formats json upper lookups existing new_id publishing bindings i vi seen ≡ []
      → IsSound formats json bindings publishing
          (checked_variant formats json upper new_id bindings i vi)
  unfolding checked_variant
  checked_variant-IsSound i vi seen own h =
      let (_, sku, _, stock, values, complete) = variant_errors-none i vi seen h in
      let prefix = variant_field i ++ codes "attributes." in
      let id = id_or_new (new_id i) vi.id in
      let (nonempty, short) = require_text_sound _ vi.sku max_sku_len sku in
      record {
        has_sku = nonempty;
        sku_fits = short;
        stock_is_known = ground (arith, stock);
        prices_fit = read_prices-IsPriceInput upper (variant_field i ++ codes "prices.") vi.prices;
        values_fit =
            read_attributes-IsValueOf formats json true (some id) prefix bindings vi.attributes;
        is_complete = λ on.
            let nothing : missing true prefix bindings vi.attributes ≡ [] =
              ground (arith, on, complete) in
            read_attributes-IsComplete formats json true (some id) prefix bindings vi.attributes own
              values nothing;
      }
