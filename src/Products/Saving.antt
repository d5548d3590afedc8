-- ===== src/Products/Saving.antt =====
-- internal/service/products.go: CreateInTx and UpdateInTx, which validate a document and write it to
-- the tables of products, variants, attribute values and prices, with the statements of
-- internal/store/gen/products.sql.go. `now` is the time of the transaction and `today` its day;
-- `seen` is what a transaction has read when it writes to `tables`. The projections of variants, the
-- audit entries and the view that the methods answer with are left out; a projection is the list of
-- its entries.
pub mod Versions
pub mod Values
pub mod Saved
use khans_bike.Common.{
  ℕ, ◌+◌, [], ◌∷◌, ◌++◌, List, Bool, true, false, not, ◌||◌, ◌&&◌, ◌==◌, Option, none, some,
  if◌then◌else◌, Result, ok, err, ◌>>=◌, ◌>>◌, guard, length, any, find_row, update_rows,
  delete_rows, map,
}
use khans_bike.Common.Text.{Text, text_eq, is_empty}
use khans_bike.Domain.Price.{PriceTier, Price}
use khans_bike.Domain.Status.{ProductStatus, is_active}
use khans_bike.Platform.Money.{Money}
use khans_bike.Products.Documents.{Lookups, validate_document}
use khans_bike.Products.Inputs.{ProductInput, VariantDocument, ValidatedDoc}
use khans_bike.Products.Prices.{apply_prices, current_price}
use khans_bike.Products.Variants.{ProductVariant, ValidatedVariant, sync_variants, is_kept}
use khans_bike.Schema.Attributes.{AttributeValue}
use khans_bike.Schema.Stored.{ProductAttributeValue, delete_values, insert_values}
use khans_bike.Schema.Values.{ApiValue, Json}
use khans_bike.Schema.Views.{CategoryAttribute, Formats, projection}
use khans_bike.Service.Validation.{
  ServiceError, not_found, conflict, version_mismatch, unfinished, check_if_match, free_slug,
}

pub record Product (F : Type 0) : Type 0 where
  pub id : ℕ
  pub category_id : ℕ
  pub brand_id : Option ℕ
  pub name : Text
  pub slug : Text
  pub summary : Option Text
  pub description : Option Text
  pub status : ProductStatus
  pub is_featured : Bool
  pub retail_price_is_public : Bool
  pub attrs : List (Text × ApiValue F)
  pub updated_at : ℕ
  pub published_at : Option ℕ

pub record Tables (F : Type 0) : Type 0 where
  pub products : List (Product F)
  pub variants : List ProductVariant
  pub values : List (ProductAttributeValue F)
  pub prices : List Price

-- `existing`: the ids of the product's variants.
unfoldable pub has_variant : ℕ → List ProductVariant → ℕ → Bool
has_variant product rows id = any (λ r. r.id == id && r.product_id == product) rows

-- The prices of a variant that the document leaves out go with it (ON DELETE CASCADE).
unfoldable pub is_orphan : ℕ → List ValidatedVariant → List ProductVariant → Price → Bool
is_orphan product doc variants r =
    has_variant product variants r.variant_id && not (is_kept doc r.variant_id)

-- published_at: the first time that the product is saved as active.
abbrev pub publish : Bool → ℕ → Option ℕ → Option ℕ
publish active now (some at) = some at
publish active now none = if active then some now else none

abbrev pub schema_or_none : Option (List CategoryAttribute) → List CategoryAttribute
schema_or_none none = []
schema_or_none (some bindings) = bindings

abbrev pub slug_or : Text → Text → Text
slug_or slug given = if is_empty given then slug else given

module _ {F : Type 0} where
  abbrev pub is_product : ℕ → Product F → Bool
  is_product id p = p.id == id

  unfoldable pub rows_of_doc : ValidatedDoc F → List ValidatedVariant
  rows_of_doc doc = map (λ d. d.row) doc.variants

  unfoldable pub values_of_variants : List (VariantDocument F) → List (AttributeValue F)
  values_of_variants [] = []
  values_of_variants (d ∷ ds) = d.values ++ values_of_variants ds

  -- The calls of applyPrices, variant by variant, with the prices that were current before.
  unfoldable pub apply_all_prices :
      (PriceTier → ℕ)
      → ℕ
      → (ℕ → PriceTier → Option Money)
      → List (VariantDocument F)
      → List Price
      → List Price
  apply_all_prices new_price today current [] rows = rows
  apply_all_prices new_price today current (d ∷ ds) rows =
      apply_all_prices new_price today current ds
        (apply_prices new_price today d.row.id (current d.row.id) d.prices rows)

  -- syncVariants, all tables.
  unfoldable pub sync_document :
      (Text → Text)
      → (PriceTier → ℕ)
      → ℕ
      → ℕ
      → ValidatedDoc F
      → Tables F
      → Result ServiceError (Tables F)
  sync_document upper new_price today product doc t =
      let rows = rows_of_doc doc in
      sync_variants product rows t.variants >>= λ variants.
      let prices = delete_rows (is_orphan product rows t.variants) t.prices in
      ok (record t {
        variants = variants;
        values =
            insert_values product (doc.values ++ values_of_variants doc.variants)
              (delete_values product t.values);
        prices =
            apply_all_prices new_price today (current_price upper today prices) doc.variants prices;
      })

  -- The row that UpdateProduct and CreateProduct write.
  unfoldable pub product_row :
      ℕ → ℕ → Text → List (Text × ApiValue F) → Option ℕ → ProductInput → Product F
  product_row now id slug attrs published_at input = record {
    id = id;
    category_id = input.category_id;
    brand_id = input.brand_id;
    name = input.name;
    slug = slug;
    summary = input.summary;
    description = input.description;
    status = input.status;
    is_featured = input.is_featured;
    retail_price_is_public = input.retail_price_is_public;
    attrs = attrs;
    updated_at = now;
    published_at = published_at;
  }

  -- UpdateProduct, with the unique key of slugs.
  abbrev pub is_version : ℕ → ℕ → Product F → Bool
  is_version id updated_at p = p.id == id && p.updated_at == updated_at

  unfoldable pub update_product :
      ℕ → Product F → List (Product F) → Result ServiceError (List (Product F))
  update_product expected row rows =
      guard (any (is_version row.id expected) rows) version_mismatch
      >> guard (not (any (λ p. not (p.id == row.id) && text_eq p.slug row.slug) rows)) conflict
      >> ok (update_rows (is_version row.id expected) (λ _. row) rows)

  -- CreateProduct, with the primary key and the unique key of slugs.
  unfoldable pub create_product :
      Product F → List (Product F) → Result ServiceError (List (Product F))
  create_product row rows =
      guard (not (any (λ p. p.id == row.id || text_eq p.slug row.slug) rows)) conflict
      >> ok (row ∷ rows)

-- The projection of the product's own values, with the schema that validateDocument has loaded.
unfoldable pub attrs_of :
    {F : Type 0} → Formats F → Lookups → ValidatedDoc F → List (Text × ApiValue F)
attrs_of formats lookups doc =
    projection (formats.floats) (schema_or_none (lookups.schema_of (doc.input).category_id))
      doc.values

module _ {F : Type 0} where
  -- The slug of a new product; `unfinished` is a loop that has not ended within its rounds.
  unfoldable pub product_slug :
      (Text → Option Text) → ProductInput → List (Product F) → Result ServiceError Text
  product_slug fold input products =
      if is_empty input.slug
      then (elim (free_slug fold (length products + 1) input.name
          (λ s. any (λ p. text_eq p.slug s) products)) [ none ↦ err unfinished | some s ↦ ok s ])
      else ok input.slug

module _ {F : Type 0} (formats : Formats F) (json : Json F Text) (upper : Text → Text)
    (lookups : Lookups) (new_id : ℕ → ℕ) (new_price : PriceTier → ℕ) where
  -- UpdateInTx behind the reading of the current row.
  unfoldable pub save_current :
      ℕ
      → ℕ
      → Product F
      → List ProductVariant
      → ProductInput
      → Text
      → Tables F
      → Result ServiceError (Tables F)
  save_current now today cur seen_variants input if_match tables =
      check_if_match if_match cur.updated_at
      >> (validate_document formats json upper lookups (has_variant cur.id seen_variants) new_id
            input
          >>= λ doc.
              let row =
                product_row now cur.id (slug_or cur.slug ((doc.input).slug))
                  (attrs_of formats lookups doc)
                  (publish (is_active ((doc.input).status)) now cur.published_at) doc.input in
              update_product cur.updated_at row tables.products >>= λ products.
              sync_document upper new_price today cur.id doc
                (record tables { products = products }))

  abbrev pub with_current :
      Option (Product F)
      → (Product F → Result ServiceError (Tables F))
      → Result ServiceError (Tables F)
  with_current none rest = err not_found
  with_current (some cur) rest = rest cur

  -- UpdateInTx.
  unfoldable pub update_in_tx :
      ℕ → ℕ → ℕ → ProductInput → Text → Tables F → Tables F → Result ServiceError (Tables F)
  update_in_tx now today id input if_match seen tables =
      with_current (find_row (is_product id) seen.products)
        (λ cur. save_current now today cur seen.variants input if_match tables)

  -- CreateInTx.
  unfoldable pub create_in_tx :
      (Text → Option Text) → ℕ → ℕ → ℕ → ProductInput → Tables F → Result ServiceError (Tables F)
  create_in_tx fold now today id input tables =
      validate_document formats json upper lookups (λ _. false) new_id input >>= λ doc.
      product_slug fold doc.input tables.products >>= λ slug.
      let row =
        product_row now id slug (attrs_of formats lookups doc)
          (publish (is_active ((doc.input).status)) now none) doc.input in
      create_product row tables.products >>= λ products.
      sync_document upper new_price today id doc (record tables { products = products })
