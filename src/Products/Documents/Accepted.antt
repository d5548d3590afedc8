-- ===== src/Products/Documents/Accepted.antt =====
-- internal/service/products.go: the documents that validateDocument accepts.
use khans_bike.Common.{
  ℕ, ◌≤◌, [], ◌∷◌, List, Bool, true, false, ◌||◌, ◌==◌, none, some, ◌≡◌, refl, inl, inr, arith,
  if◌then◌else◌, ok, ◌>>◌, length, ltb, All, count_rows, concat-nil, Bool-cases, ok-injective,
  >>=-eq-ok,
}
use mathlib.Core.Path.{subst}
use khans_bike.Common.Text.{Text, codes}
use khans_bike.Domain.Status.{is_active}
use khans_bike.Products.Documents.{
  Lookups, none_seen, checked_variants, variants_errors, count_defaults, default_first, cleaned,
  document_errors, checked_document, validate_with, validate_document,
}
use khans_bike.Products.Documents.Ids.{
  HasFreshIds, IsNext, HasDistinctSkus, rows_of, checked_variants-IsNext,
  checked_variants-HasDistinctIds, checked_variants-HasDistinctSkus, checked_variants-IsSound,
  checked_variants-defaults, length-checked_variants,
}
use khans_bike.Products.Documents.Variants.{IsSound}
use khans_bike.Products.Inputs.{
  VariantInput, ProductInput, VariantDocument, ValidatedDoc, default_status, missing,
}
use khans_bike.Products.Inputs.Entries.{
  HasOwnKeys, IsValueOf, IsComplete, read_attributes-IsValueOf, read_attributes-IsComplete,
  add_field-nil,
}
use khans_bike.Products.Variants.Synced.{HasDistinctIds}
use khans_bike.Schema.Values.{Json}
use khans_bike.Schema.Views.{CategoryAttribute, Formats}
use khans_bike.Service.Validation.{validation_err}

abbrev pub default_count : {F : Type 0} → List (VariantDocument F) → ℕ
default_count ds = count_rows (λ d. d.row.is_default) ds

-- The variants of a document taken together, and each by itself.
module _ {F : Type 0} (formats : Formats F) (json : Json F Text) (existing : ℕ → Bool)
    (new_id : ℕ → ℕ) (bindings : List CategoryAttribute) where
  pub record IsFamily (publishing : Bool) (ds : List (VariantDocument F)) : Type 0 where
    pub not_empty : 1 ≤ length ds
    pub not_too_many : length ds ≤ 200
    pub one_default : default_count ds ≡ 1
    pub distinct_ids : HasDistinctIds (rows_of ds)
    pub distinct_skus : HasDistinctSkus ds
    pub known_ids : All (IsNext existing new_id 0 []) ds
    pub sound : All (IsSound formats json bindings publishing) ds

  -- An accepted document: its own values are of the category's attributes for whole products, complete
  -- if it is published, and its variants are in order.
  pub record IsAccepted (doc : ValidatedDoc F) : Type 0 where
    pub values_fit : All (IsValueOf formats json false none bindings) doc.values
    pub is_complete :
        is_active doc.input.status ≡ true → IsComplete formats json false bindings doc.values
    pub variants : IsFamily (is_active doc.input.status) doc.variants

  with_default : (d : VariantDocument F) → VariantDocument F
  with_default d = record d { row = record (d.row) { is_default = true } }

  -- The first variant becomes the default if none is marked.
  default_first-IsFamily :
      (publishing : Bool) (ds : List (VariantDocument F))
      → 1 ≤ length ds
      → length ds ≤ 200
      → HasDistinctIds (rows_of ds)
      → HasDistinctSkus ds
      → All (IsNext existing new_id 0 []) ds
      → All (IsSound formats json bindings publishing) ds
      → default_count ds ≡ 0
      → IsFamily publishing (default_first ds)
  unfolding default_first
  default_first-IsFamily publishing [] some_left few ids skus known sound zero =
      absurd (omega (arith, some_left))
  default_first-IsFamily publishing (d ∷ ds) some_left few ids skus (known, others) (sound, rest)
        zero =
      record {
        not_empty = some_left;
        not_too_many = few;
        one_default = ground (arith, zero);
        distinct_ids = ids;
        distinct_skus = skus;
        known_ids = (known, others);
        sound = (
          record {
            has_sku = sound.has_sku;
            sku_fits = sound.sku_fits;
            stock_is_known = sound.stock_is_known;
            prices_fit = sound.prices_fit;
            values_fit = sound.values_fit;
            is_complete = sound.is_complete;
          },
          rest,
        );
      }

module _ {F : Type 0} (formats : Formats F) (json : Json F Text) (upper : Text → Text)
    (lookups : Lookups) (existing : ℕ → Bool) (new_id : ℕ → ℕ) where
  validation_err-ok :
      (errors : List Text) {u : Unit {0}} → validation_err errors ≡ ok u → errors ≡ []
  validation_err-ok [] h = refl
  validation_err-ok (f ∷ errors) h = cc

  checked_variants-IsFamily :
      (publishing : Bool) (bindings : List CategoryAttribute) (vs : List VariantInput)
      → HasOwnKeys bindings
      → HasFreshIds existing new_id
      → (length vs == 0 || ltb 200 (length vs)) ≡ false
      → variants_errors formats json upper lookups existing new_id publishing bindings 0 vs
          none_seen
        ≡ []
      → ltb 1 (count_defaults vs) ≡ false
      → IsFamily formats json existing new_id bindings publishing (
          if count_defaults vs == 0
          then default_first (checked_variants formats json upper new_id bindings 0 vs)
          else checked_variants formats json upper new_id bindings 0 vs)
  checked_variants-IsFamily publishing bindings vs own fresh number fine few =
      let ds = checked_variants formats json upper new_id bindings 0 vs in
      let sized : length ds ≡ length vs =
        length-checked_variants formats json upper lookups existing new_id publishing bindings 0
          vs in
      let defaults : default_count ds ≡ count_defaults vs =
        checked_variants-defaults formats json upper lookups existing new_id publishing bindings 0
          vs in
      let some_left : 1 ≤ length ds = ground (arith, sized, number) in
      let not_many : length ds ≤ 200 = ground (arith, sized, number) in
      let ids =
        checked_variants-HasDistinctIds formats json upper lookups existing new_id publishing
          bindings fresh 0 vs none_seen fine in
      let skus =
        checked_variants-HasDistinctSkus formats json upper lookups existing new_id publishing
          bindings 0 vs none_seen fine in
      let known =
        checked_variants-IsNext formats json upper lookups existing new_id publishing bindings 0 vs
          none_seen fine in
      let sound =
        checked_variants-IsSound formats json upper lookups existing new_id publishing bindings own
          0 vs none_seen fine in
      elim (Bool-cases (count_defaults vs == 0)) [
        | inl unmarked ↦ rw unmarked (
            default_first-IsFamily formats json existing new_id bindings publishing ds some_left
              not_many ids skus known sound (ground (arith, defaults, unmarked)))
        | inr marked ↦ rw marked (record {
          not_empty = some_left;
          not_too_many = not_many;
          one_default = ground (arith, defaults, marked, few);
          distinct_ids = ids;
          distinct_skus = skus;
          known_ids = known;
          sound = sound;
        })
      ]

  checked_document-IsAccepted :
      (bindings : List CategoryAttribute) (input : ProductInput)
      → HasOwnKeys bindings
      → HasFreshIds existing new_id
      → document_errors formats json upper lookups existing new_id bindings input ≡ []
      → IsAccepted formats json existing new_id bindings
          (checked_document formats json upper lookups existing new_id bindings input)
  unfolding document_errors checked_document cleaned
  checked_document-IsAccepted bindings input own fresh h =
      let publishing = is_active (default_status input.status) in
      let (_, from_values) = concat-nil _ h in
      let (values, from_complete) = from_values in
      let (complete, from_number) = from_complete in
      let (number, from_variants) = from_number in
      let (variants, from_defaults) = from_variants in
      record {
        values_fit =
            read_attributes-IsValueOf formats json false none (codes "attributes.") bindings
              input.attributes;
        is_complete = λ on.
            let nothing : missing false (codes "attributes.") bindings input.attributes ≡ [] =
              ground (arith, on, complete) in
            read_attributes-IsComplete formats json false none (codes "attributes.") bindings
              input.attributes own values nothing;
        variants =
            checked_variants-IsFamily publishing bindings input.variants own fresh
              (add_field-nil _ _ number) variants (add_field-nil _ _ (from_defaults.0));
      }

  -- A document that is accepted has no errors.
  pub validate_document-ok :
      (input : ProductInput) (bindings : List CategoryAttribute) (doc : ValidatedDoc F)
      → lookups.schema_of input.category_id ≡ some bindings
      → validate_document formats json upper lookups existing new_id input ≡ ok doc
      → (document_errors formats json upper lookups existing new_id bindings input ≡ [])
        × (checked_document formats json upper lookups existing new_id bindings input ≡ doc)
  unfolding validate_document validate_with
  validate_document-ok input bindings doc schema h =
      let made : (validation_err
              (document_errors formats json upper lookups existing new_id bindings input)
            >> ok (checked_document formats json upper lookups existing new_id bindings input))
          ≡ ok doc =
        subst
          (λ found. validate_with formats json upper lookups existing new_id found input ≡ ok doc)
          schema h in
      let (u, passed, same) = >>=-eq-ok (validation_err _) _ made in
      (validation_err-ok _ passed, ok-injective same)

  -- validateDocument accepts only documents in order, against the bindings of their category, whose
  -- keys are unique, where the ids that it mints are fresh.
  pub validate_document-IsAccepted :
      (input : ProductInput) (bindings : List CategoryAttribute) (doc : ValidatedDoc F)
      → lookups.schema_of input.category_id ≡ some bindings
      → HasOwnKeys bindings
      → HasFreshIds existing new_id
      → validate_document formats json upper lookups existing new_id input ≡ ok doc
      → IsAccepted formats json existing new_id bindings doc
  validate_document-IsAccepted input bindings doc schema own fresh h =
      let (fine, same) = validate_document-ok input bindings doc schema h in
      subst (IsAccepted formats json existing new_id bindings) same
        (checked_document-IsAccepted bindings input own fresh fine)
