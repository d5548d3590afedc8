-- ===== src/Products/Saving/Values.antt =====
-- internal/service/products.go: the attribute values that a validated document writes.
use mathlib.Core.Path.{subst}
use mathlib.Core.Option.{some-injective}
use khans_bike.Common.{
  ℕ, ◌+◌, [], ◌∷◌, ◌++◌, List, Bool, true, false, ◌==◌, none, some, ◌≡◌, sym, ap, ◌∙◌, inl, inr,
  arith, ok, All, All-append, All-imp, Bool-cases, ==→eq,
}
use khans_bike.Common.Text.{Text, codes}
use khans_bike.Products.Documents.{
  Lookups, id_or_new, checked_variant, checked_variants, checked_document, count_defaults,
  default_first, validate_document,
}
use khans_bike.Products.Documents.Accepted.{validate_document-ok, validate_document-IsAccepted}
use khans_bike.Products.Documents.Ids.{HasFreshIds, rows_of}
use khans_bike.Products.Documents.Variants.{IsSound}
use khans_bike.Products.Inputs.{
  VariantInput, ProductInput, VariantDocument, ValidatedDoc, variant_field,
}
use khans_bike.Products.Inputs.Entries.{IsValueOf}
use khans_bike.Products.Inputs.Keys.{
  IsSchema, HasDistinctEntries, HasDistinctAttributes, by_key-All, read_attributes-distinct,
}
use khans_bike.Products.Saving.{values_of_variants}
use khans_bike.Products.Variants.Synced.{HasDistinctIds}
use khans_bike.Schema.Attributes.{AttributeValue}
use khans_bike.Schema.Stored.Rows.{HasDistinctKeys, is_key_of}
use khans_bike.Schema.Values.{Json, deref}
use khans_bike.Schema.Views.{CategoryAttribute, Formats, by_id}

-- Every map of a document has one entry per key.
abbrev pub HasMaps : ProductInput → Type 0
HasMaps input =
    HasDistinctEntries input.attributes
    × All (λ vi. HasDistinctEntries vi.attributes) input.variants

module _ {F : Type 0} where
  abbrev IsOff : AttributeValue F → AttributeValue F → Type 0
  IsOff v w = is_key_of v w ≡ false

  distinct_keys :
      (values : List (AttributeValue F)) → HasDistinctAttributes values → HasDistinctKeys values
  distinct_keys [] h = tt
  distinct_keys (v ∷ values) (off, h) = (
    All-imp (λ w. (w.attribute_id == v.attribute_id) ≡ false) (IsOff v) (λ w e. ground (arith, e))
        values off,
    distinct_keys values h,
  )

  distinct_append :
      (xs ys : List (AttributeValue F))
      → HasDistinctKeys xs
      → HasDistinctKeys ys
      → All (λ v. All (IsOff v) ys) xs
      → HasDistinctKeys (xs ++ ys)
  distinct_append [] ys hx hy off = hy
  distinct_append (x ∷ xs) ys (others, hx) hy (off, rest) =
      (All-append (IsOff x) xs ys others off, distinct_append xs ys hx hy rest)

module _ {F : Type 0} (formats : Formats F) (json : Json F Text) (bindings : List CategoryAttribute)
    (schema : IsSchema bindings) where
  abbrev IsOwn : AttributeValue F → Type 0
  IsOwn = IsValueOf formats json false none bindings

  abbrev IsOfVariant : ℕ → AttributeValue F → Type 0
  IsOfVariant id = IsValueOf formats json true (some id) bindings

  -- A product's own value and a variant's are of different attributes.
  level_apart : (id : ℕ) (v w : AttributeValue F) → IsOwn v → IsOfVariant id w → IsOff v w
  level_apart id v w (key, at) (key', at') = elim (Bool-cases (w.attribute_id == v.attribute_id)) [
    | inr off ↦ ground (arith, off)
    | inl same ↦
        let (_, own) = by_key-All HasOwnId bindings key at.binding (schema.1) at.bound in
        let (_, own') = by_key-All HasOwnId bindings key' at'.binding (schema.1) at'.bound in
        let one_id : at'.binding.attribute.id ≡ at.binding.attribute.id =
          sym at'.attribute ∙ ==→eq w.attribute_id v.attribute_id same ∙ at.attribute in
        let one : at'.binding ≡ at.binding =
          some-injective _ _ (sym own' ∙ ap (by_id bindings) one_id ∙ own) in
        absurd (cc (at.level, at'.level, ap (λ b. b.is_variant_axis) one))
  ]
    where
      HasOwnId : CategoryAttribute → Type 0
      HasOwnId x = by_id bindings x.attribute.id ≡ some x

  -- So are the values of two variants, or else of two places.
  variant_apart :
      (id id' : ℕ) (v w : AttributeValue F)
      → (id' == id) ≡ false
      → IsOfVariant id v
      → IsOfVariant id' w
      → IsOff v w
  variant_apart id id' v w other (key, at) (key', at') =
      let place : deref 0 w.variant_id ≡ id' = ap (deref 0) at'.place in
      let place' : deref 0 v.variant_id ≡ id = ap (deref 0) at.place in
      rw (place, place') (ground (arith, other))

  -- Values apart from one value are apart from those of all variants.
  abbrev IsSoundValues : VariantDocument F → Type 0
  IsSoundValues d = All (IsOfVariant d.row.id) d.values × HasDistinctAttributes d.values

  apart_from_variants :
      (v : AttributeValue F) (ds : List (VariantDocument F))
      → All IsSoundValues ds
      → All (λ d. (w : AttributeValue F) → IsOfVariant d.row.id w → IsOff v w) ds
      → All (IsOff v) (values_of_variants ds)
  unfolding values_of_variants
  apart_from_variants v [] h off = tt
  apart_from_variants v (d ∷ ds) ((sound, _), h) (off, rest) =
      All-append (IsOff v) d.values (values_of_variants ds)
        (All-imp (IsOfVariant d.row.id) (IsOff v) off d.values sound)
        (apart_from_variants v ds h rest)

  from_rows :
      (v : AttributeValue F) (id : ℕ) (ds : List (VariantDocument F))
      → IsOfVariant id v
      → All (λ r. (r.id == id) ≡ false) (rows_of ds)
      → All (λ d. (w : AttributeValue F) → IsOfVariant d.row.id w → IsOff v w) ds
  from_rows v id [] own h = tt
  from_rows v id (d ∷ ds) own (off, h) =
      ((λ w other. variant_apart id d.row.id v w off own other), from_rows v id ds own h)

  variants_distinct :
      (ds : List (VariantDocument F))
      → HasDistinctIds (rows_of ds)
      → All IsSoundValues ds
      → HasDistinctKeys (values_of_variants ds)
  unfolding values_of_variants
  variants_distinct [] ids h = tt
  variants_distinct (d ∷ ds) (off, ids) ((sound, distinct), h) =
      distinct_append d.values (values_of_variants ds) (distinct_keys d.values distinct)
        (variants_distinct ds ids h)
        (All-imp (IsOfVariant d.row.id) (λ v. All (IsOff v) (values_of_variants ds))
          (λ v own. apart_from_variants v ds h (from_rows v d.row.id ds own off)) d.values sound)

  All-IsOff :
      (v : AttributeValue F)
      → IsOwn v
      → (ds : List (VariantDocument F))
      → All (λ d. (w : AttributeValue F) → IsOfVariant d.row.id w → IsOff v w) ds
  All-IsOff v own [] = tt
  All-IsOff v own (d ∷ ds) = ((λ w other. level_apart d.row.id v w own other), All-IsOff v own ds)

  -- The values of a whole document.
  document_distinct :
      (values : List (AttributeValue F)) (ds : List (VariantDocument F))
      → All IsOwn values
      → HasDistinctAttributes values
      → HasDistinctIds (rows_of ds)
      → All IsSoundValues ds
      → HasDistinctKeys (values ++ values_of_variants ds)
  document_distinct values ds own distinct ids h =
      distinct_append values (values_of_variants ds) (distinct_keys values distinct)
        (variants_distinct ds ids h)
        (All-imp IsOwn (λ v. All (IsOff v) (values_of_variants ds))
          (λ v o. apart_from_variants v ds h (All-IsOff v o ds)) values own)

module _ {F : Type 0} (formats : Formats F) (json : Json F Text) (upper : Text → Text)
    (lookups : Lookups) (existing : ℕ → Bool) (new_id : ℕ → ℕ) (bindings : List CategoryAttribute)
    (schema : IsSchema bindings) where
  abbrev HasSoundMap : VariantDocument F → Type 0
  HasSoundMap d = HasDistinctAttributes d.values

  checked_maps :
      (i : ℕ) (vs : List VariantInput)
      → All (λ vi. HasDistinctEntries vi.attributes) vs
      → All HasSoundMap (checked_variants formats json upper new_id bindings i vs)
  unfolding checked_variants checked_variant
  checked_maps i [] h = tt
  checked_maps i (vi ∷ vs) (distinct, h) = (
    read_attributes-distinct formats json true (some (id_or_new (new_id i) vi.id)) bindings schema
        (variant_field i ++ codes "attributes.") vi.attributes distinct,
    checked_maps (i + 1) vs h,
  )

  first_maps :
      (ds : List (VariantDocument F)) → All HasSoundMap ds → All HasSoundMap (default_first ds)
  unfolding default_first
  first_maps [] h = tt
  first_maps (d ∷ ds) (distinct, h) = (distinct, h)

  checked_document-maps :
      (input : ProductInput)
      → HasMaps input
      → HasDistinctAttributes
          ((checked_document formats json upper lookups existing new_id bindings input).values)
        × All HasSoundMap
            ((checked_document formats json upper lookups existing new_id bindings input).variants)
  unfolding checked_document
  checked_document-maps input (own, variants) = (
    read_attributes-distinct formats json false none bindings schema (codes "attributes.")
        input.attributes own,
    (elim (Bool-cases (count_defaults input.variants == 0)) [
      | inl unmarked ↦ rw unmarked (first_maps _ (checked_maps 0 input.variants variants))
      | inr marked ↦ rw marked (checked_maps 0 input.variants variants)
    ]),
  )

  both :
      (publishing : Bool) (ds : List (VariantDocument F))
      → All (IsSound formats json bindings publishing) ds
      → All HasSoundMap ds
      → All (IsSoundValues formats json bindings schema) ds
  both publishing [] h k = tt
  both publishing (d ∷ ds) (sound, h) (distinct, k) =
      ((sound.values_fit, distinct), both publishing ds h k)

  -- The values of an accepted document, whose maps have one entry per key, are of different attributes
  -- or of different variants.
  pub validate_document-HasDistinctKeys :
      (input : ProductInput) (doc : ValidatedDoc F)
      → lookups.schema_of input.category_id ≡ some bindings
      → HasFreshIds existing new_id
      → HasMaps input
      → validate_document formats json upper lookups existing new_id input ≡ ok doc
      → HasDistinctKeys (doc.values ++ values_of_variants doc.variants)
  validate_document-HasDistinctKeys input doc found fresh maps h =
      let accepted =
        validate_document-IsAccepted formats json upper lookups existing new_id input bindings doc
          found (schema.0) fresh h in
      let (_, same) =
        validate_document-ok formats json upper lookups existing new_id input bindings doc found
          h in
      let (own, variants) =
        subst (λ d. HasDistinctAttributes (d.values) × All HasSoundMap d.variants) same
          (checked_document-maps input maps) in
      document_distinct formats json bindings schema doc.values doc.variants accepted.values_fit own
        (accepted.variants).distinct_ids (both _ doc.variants ((accepted.variants).sound) variants)
