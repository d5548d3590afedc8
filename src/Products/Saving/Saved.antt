-- ===== src/Products/Saving/Saved.antt =====
-- internal/service/products.go: the tables after CreateInTx or UpdateInTx, against the validated
-- document.
use mathlib.Core.Path.{subst}
use mathlib.Core.Option.{some-injective}
use mathlib.Core.List.{Permᴰ}
use khans_bike.Common.{
  ℕ, ◌+◌, [], ◌∷◌, ◌++◌, List, Bool, true, false, ◌==◌, some, ◌≡◌, refl, sym, ap, ◌∙◌, inl, inr,
  arith, ok, >>=-eq-ok, ok-injective, any, any-some, find_row, find_row-All, count_rows, All,
  Bool-cases, ==→eq,
}
use khans_bike.Common.Text.{Text}
use khans_bike.Domain.Price.{PriceTier}
use khans_bike.Products.Documents.{Lookups, validate_document}
use khans_bike.Products.Documents.Accepted.{default_count, validate_document-IsAccepted}
use khans_bike.Products.Documents.Ids.{HasFreshIds, rows_of}
use khans_bike.Products.Inputs.{ProductInput, VariantDocument, ValidatedDoc}
use khans_bike.Products.Inputs.Keys.{IsSchema}
use khans_bike.Products.Saving.{
  Product, Tables, is_product, has_variant, rows_of_doc, values_of_variants, sync_document,
  update_in_tx,
}
use khans_bike.Products.Saving.Values.{HasMaps, validate_document-HasDistinctKeys}
use khans_bike.Products.Saving.Versions.{save_current-IsUpdate}
use khans_bike.Products.Variants.{
  ProductVariant, ValidatedVariant, is_variant, row_of, sync_variants,
}
use khans_bike.Products.Variants.Synced.{
  lookup_variant, rows_of_document, is_named, of_others, sync_variants-document,
}
use khans_bike.Schema.Attributes.{Floats}
use khans_bike.Schema.Stored.{ProductAttributeValue, list_values, merge_values}
use khans_bike.Schema.Stored.Merged.{IsRestored, merge_values-IsRestored}
use khans_bike.Schema.Stored.Rows.{made}
use khans_bike.Schema.Values.{Json}
use khans_bike.Schema.Views.{CategoryAttribute, Formats}

-- The one default variant of a product.
pub record IsOnlyDefault (product : ℕ) (rows : List ProductVariant) (r : ProductVariant)
    : Type 0 where
  pub found : lookup_variant r.id product rows ≡ some r
  pub is_marked : r.is_default ≡ true
  pub only :
      (id : ℕ) (s : ProductVariant)
      → lookup_variant id product rows ≡ some s
      → s.is_default ≡ true
      → s ≡ r

no_defaults :
    (rows : List ProductVariant)
    → count_rows (λ r. r.is_default) rows ≡ 0
    → All (λ r. r.is_default ≡ false) rows
no_defaults [] h = tt
no_defaults (r ∷ rows) h = elim (Bool-cases r.is_default) [
  | inl marked ↦ absurd (ground (arith, marked, h))
  | inr unmarked ↦ (unmarked, no_defaults rows (ground (arith, unmarked, h)))
]

-- Where one row of a list is marked, it is the only one.
marked_row :
    (P : ProductVariant → Type 0) (rows : List ProductVariant)
    → All P rows
    → count_rows (λ r. r.is_default) rows ≡ 1
    → (r : ProductVariant) × P r
      × (r.is_default ≡ true)
      × All (λ s. P s × (s.is_default ≡ true → s ≡ r)) rows
marked_row P [] h one = absurd (omega (arith, one))
marked_row P (r ∷ rows) (p, h) one = elim (Bool-cases r.is_default) [
  | inl marked ↦ (
    r,
    p,
    marked,
    ((p, λ e. refl), unmarked_rows rows h (no_defaults rows (ground (arith, marked, one)))),
  )
  | inr unmarked ↦
      let (s, ps, marked, others) = marked_row P rows h (ground (arith, unmarked, one)) in
      (s, ps, marked, ((p, λ e. absurd (ground (arith, unmarked, e))), others))
]
  where
    unmarked_rows :
        (ss : List ProductVariant)
        → All P ss
        → All (λ s. s.is_default ≡ false) ss
        → All (λ s. P s × (s.is_default ≡ true → s ≡ r)) ss
    unmarked_rows [] g k = tt
    unmarked_rows (s ∷ ss) (ps, g) (off, k) =
        ((ps, λ e. absurd (ground (arith, off, e))), unmarked_rows ss g k)

module _ (product : ℕ) where
  defaults_of_document :
      (i : ℕ) (doc : List ValidatedVariant)
      → count_rows (λ r. r.is_default) (rows_of_document product i doc)
        ≡ count_rows (λ v. v.is_default) doc
  unfolding row_of
  defaults_of_document i [] = refl
  defaults_of_document i (v ∷ doc) = ground (arith, defaults_of_document (i + 1) doc)

  named_in_rows :
      (i : ℕ) (doc : List ValidatedVariant) (id : ℕ)
      → any (λ r. r.id == id) (rows_of_document product i doc) ≡ is_named doc id
  unfolding row_of
  named_in_rows i [] id = refl
  named_in_rows i (v ∷ doc) id = ground (arith, named_in_rows (i + 1) doc id)

  default_of_rows :
      (doc : List ValidatedVariant) (rows : List ProductVariant)
      → count_rows (λ v. v.is_default) doc ≡ 1
      → All (λ r. lookup_variant r.id product rows ≡ some r) (rows_of_document product 0 doc)
      → All (λ r. (r.product_id == product) ≡ true → is_named doc r.id ≡ true) rows
      → (r : ProductVariant) × IsOnlyDefault product rows r
  default_of_rows doc rows one written covered =
      let (r, found, marked, others) =
        marked_row (λ r. lookup_variant r.id product rows ≡ some r) (rows_of_document product 0 doc)
          written (defaults_of_document 0 doc ∙ one) in
      (
        r,
        record {
          found = found;
          is_marked = marked;
          only = λ id s read own.
              let (hit, named) =
                find_row-All (λ x. (x.product_id == product) ≡ true → is_named doc x.id ≡ true)
                  (is_variant id product) rows s covered read in
              let here : is_named doc s.id ≡ true = named (ground (arith, hit)) in
              let (x, (found', same), equal) =
                any-some
                  (λ x. (lookup_variant x.id product rows ≡ some x) × (x.is_default ≡ true → x ≡ r))
                  (λ x. x.id == s.id) (rows_of_document product 0 doc) others
                  (named_in_rows 0 doc s.id ∙ here) in
              let one_id : x.id ≡ id =
                ==→eq x.id s.id equal ∙ ==→eq s.id id (ground (arith, hit)) in
              let one_row : x ≡ s =
                some-injective _ _
                  (sym found' ∙ ap (λ k. lookup_variant k product rows) one_id ∙ read) in
              sym one_row ∙ same (ap (λ y. y.is_default) one_row ∙ own);
        },
      )

-- The tables after a save, against the document.
pub record IsSaved {F : Type 0} (floats : Floats F) (product : ℕ) (doc : ValidatedDoc F)
    (tables tables' : Tables F) : Type 0 where
  pub written :
      All
        (λ r. lookup_variant r.id product tables'.variants ≡ some r)
        (rows_of_document product 0 (rows_of doc.variants))
  pub covered :
      All
        (λ r. (r.product_id == product) ≡ true → is_named (rows_of doc.variants) r.id ≡ true)
        tables'.variants
  pub others : of_others product tables'.variants ≡ of_others product tables.variants
  pub default_row : (r : ProductVariant) × IsOnlyDefault product tables'.variants r
  pub restored :
      (answer : List (ProductAttributeValue F))
      → Permᴰ (list_values product tables'.values) answer
      → All
          (IsRestored floats (merge_values (made answer)))
          (doc.values ++ values_of_variants doc.variants)

module _ {F : Type 0} (formats : Formats F) (json : Json F Text) (upper : Text → Text)
    (lookups : Lookups) (new_id : ℕ → ℕ) (new_price : PriceTier → ℕ) where
  rows_defaults :
      (ds : List (VariantDocument F))
      → count_rows (λ v. v.is_default) (rows_of ds) ≡ default_count ds
  rows_defaults [] = refl
  rows_defaults (d ∷ ds) = ground (arith, rows_defaults ds)

  sync_document-IsSaved :
      (today product : ℕ) (existing : ℕ → Bool) (input : ProductInput)
      → (bindings : List CategoryAttribute) (doc : ValidatedDoc F) (tables tables' : Tables F)
      → lookups.schema_of input.category_id ≡ some bindings
      → IsSchema bindings
      → HasFreshIds existing new_id
      → HasMaps input
      → validate_document formats json upper lookups existing new_id input ≡ ok doc
      → sync_document upper new_price today product doc tables ≡ ok tables'
      → IsSaved (formats.floats) product doc tables tables'
  unfolding sync_document rows_of_doc
  sync_document-IsSaved today product existing input bindings doc tables tables' found schema fresh
        maps valid synced =
      let (variants, saved, made_tables) =
        >>=-eq-ok (sync_variants product (rows_of doc.variants) tables.variants) _ synced in
      let same = ok-injective made_tables in
      let accepted =
        validate_document-IsAccepted formats json upper lookups existing new_id input bindings doc
          found (schema.0) fresh valid in
      let family = accepted.variants in
      let (written, covered, others) =
        sync_variants-document product (rows_of doc.variants) tables.variants variants
          family.distinct_ids saved in
      let distinct =
        validate_document-HasDistinctKeys formats json upper lookups existing new_id bindings schema
          input doc found fresh maps valid in
      subst (IsSaved (formats.floats) product doc tables) same (record {
        written = written;
        covered = covered;
        others = others;
        default_row =
            default_of_rows product (rows_of doc.variants) variants
              (rows_defaults doc.variants ∙ family.one_default) written covered;
        restored = λ answer order.
            merge_values-IsRestored (formats.floats) product
              (doc.values ++ values_of_variants doc.variants) tables.values answer distinct order;
      })

  -- After an update that succeeds, the tables hold the validated document: its variants under their ids
  -- and no others of the product, exactly one of them the default; its attribute values, which read back
  -- in any order are those that were saved; and the variants of other products as they were. The new
  -- ids are fresh, the maps of the document have one entry per key, and the category's schema one
  -- binding per key and attribute.
  pub update_in_tx-IsSaved :
      (now today id : ℕ) (input : ProductInput) (if_match : Text) (seen tables tables' : Tables F)
      → (cur : Product F) (bindings : List CategoryAttribute)
      → find_row (is_product id) seen.products ≡ some cur
      → lookups.schema_of input.category_id ≡ some bindings
      → IsSchema bindings
      → HasFreshIds (has_variant cur.id seen.variants) new_id
      → HasMaps input
      → update_in_tx formats json upper lookups new_id new_price now today id input if_match seen
          tables
        ≡ ok tables'
      → (doc : ValidatedDoc F) × (validate_document formats json upper lookups
            (has_variant cur.id seen.variants)
            new_id
            input
          ≡ ok doc)
        × IsSaved (formats.floats) cur.id doc tables tables'
  unfolding update_in_tx
  update_in_tx-IsSaved now today id input if_match seen tables tables' cur bindings read found
        schema fresh maps h =
      let u =
        save_current-IsUpdate formats json upper lookups new_id new_price now today cur
          seen.variants input if_match tables tables' (rw read at h) in
      let saved =
        sync_document-IsSaved today cur.id (has_variant cur.id seen.variants) input bindings u.doc
          (record tables { products = u.products }) tables' found schema fresh maps u.validated
          u.synced in
      (
        u.doc,
        u.validated,
        record {
          written = saved.written;
          covered = saved.covered;
          others = saved.others;
          default_row = saved.default_row;
          restored = saved.restored;
        },
      )
