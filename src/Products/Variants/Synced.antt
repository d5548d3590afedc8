-- ===== src/Products/Variants/Synced.antt =====
-- internal/service/products.go: the variants of a product after a save, against those of the document.
use khans_bike.Common.{
  ℕ, ◌+◌, ◌≡◌, refl, sym, ap, ◌∙◌, inl, inr, [], ◌∷◌, List, Bool, true, false, not, ◌&&◌, ◌==◌,
  Option, some, Result-cases, ok, ok-injective, any, All, All-imp, find_row, update_rows,
  delete_rows, update_rows-All, delete_rows-All, arith, Bool-cases, &&-eq-true, ==_refl,
}
use khans_bike.Products.Variants.{
  ProductVariant, ValidatedVariant, is_variant, is_kept, delete_variants_except,
  clear_default_variant, row_of, create_variant, update_variant, save_variant, save_variants,
  sync_variants,
}

abbrev pub lookup_variant : ℕ → ℕ → List ProductVariant → Option ProductVariant
lookup_variant id product rows = find_row (is_variant id product) rows

-- The rows that a document is saved as.
abbrev pub rows_of_document : ℕ → ℕ → List ValidatedVariant → List ProductVariant
rows_of_document product i [] = []
rows_of_document product i (v ∷ doc) = row_of product i v ∷ rows_of_document product (i + 1) doc

abbrev pub HasDistinctIds : List ValidatedVariant → Type 0
HasDistinctIds [] = Unit
HasDistinctIds (v ∷ doc) = All (λ w. (w.id == v.id) ≡ false) doc × HasDistinctIds doc

-- A row that is written is found under its id.
updated-own :
    (new : ProductVariant) (rows : List ProductVariant)
    → any (is_variant new.id new.product_id) rows ≡ true
    → lookup_variant new.id new.product_id
        (update_rows (is_variant new.id new.product_id) (λ _. new) rows)
      ≡ some new
updated-own new [] h = cc
updated-own new (r ∷ rows) h = elim (Bool-cases (is_variant new.id new.product_id r)) [
  | inl y ↦ rw y (rw (==_refl new.id, ==_refl new.product_id) refl)
  | inr n ↦ rw n (rw n (updated-own new rows (ground arith)))
]

updated-other :
    (new : ProductVariant) (id : ℕ) (rows : List ProductVariant)
    → (new.id == id) ≡ false
    → lookup_variant id new.product_id
        (update_rows (is_variant new.id new.product_id) (λ _. new) rows)
      ≡ lookup_variant id new.product_id rows
updated-other new id [] ne = refl
updated-other new id (r ∷ rows) ne = elim (Bool-cases (is_variant new.id new.product_id r)) [
  | inl y ↦
      let (at, _) = &&-eq-true (r.id == new.id) (r.product_id == new.product_id) y in
      let miss : (r.id == id) ≡ false = ground arith in
      rw (y, ne, miss) (updated-other new id rows ne)
  | inr n ↦ rw (n, updated-other new id rows ne) refl
]

-- What a save of one variant does to the rows found under ids of the product.
save_variant-lookup :
    (product i : ℕ) (v : ValidatedVariant) (rows rows' : List ProductVariant)
    → save_variant product i v rows ≡ ok rows'
    → (lookup_variant v.id product rows' ≡ some (row_of product i v))
      × ((id : ℕ)
          → (v.id == id) ≡ false
          → lookup_variant id product rows' ≡ lookup_variant id product rows)
unfolding save_variant create_variant update_variant row_of
save_variant-lookup product i v rows rows' h = elim (Bool-cases v.is_new) [
  | inl y ↦
      let left : rows' ≡ row_of product i v ∷ rows = ground arith in
      rw left (rw (==_refl v.id, ==_refl product) refl, λ id ne. rw ne refl)
  | inr n ↦
      let there : any (is_variant v.id product) rows ≡ true = ground arith in
      let left : rows' ≡ update_rows (is_variant v.id product) (λ _. row_of product i v) rows =
        ground arith in
      rw left (
        updated-own (row_of product i v) rows there,
        λ id ne. updated-other (row_of product i v) id rows ne,
      )
]

row_found :
    (product i : ℕ) (v : ValidatedVariant) (rows' : List ProductVariant)
    → lookup_variant v.id product rows' ≡ some (row_of product i v)
    → lookup_variant (row_of product i v).id product rows' ≡ some (row_of product i v)
unfolding row_of
row_found product i v rows' e = e

save_variants-lookup :
    (product i : ℕ) (doc : List ValidatedVariant) (rows rows' : List ProductVariant)
    → HasDistinctIds doc
    → save_variants product i doc rows ≡ ok rows'
    → All (λ r. lookup_variant r.id product rows' ≡ some r) (rows_of_document product i doc)
      × ((id : ℕ)
          → All (λ v. (v.id == id) ≡ false) doc
          → lookup_variant id product rows' ≡ lookup_variant id product rows)
unfolding save_variants
save_variants-lookup product i [] rows rows' distinct h =
    let same = ok-injective h in (tt, λ id none_. ap (lookup_variant id product) (sym same))
save_variants-lookup product i (v ∷ doc) rows rows' (others, distinct) h =
    elim (Result-cases (save_variant product i v rows)) [
      | inl (e, bad) ↦ ground arith
      | inr (rows1, saved) ↦
          let (own, kept) = save_variant-lookup product i v rows rows1 saved in
          let later : save_variants product (i + 1) doc rows1 ≡ ok rows' = ground arith in
          let (all_saved, rest) =
            save_variants-lookup product (i + 1) doc rows1 rows' distinct later in
          (
            (row_found product i v rows' (rest v.id others ∙ own), all_saved),
            λ id (ne, nes). rest id nes ∙ kept id ne,
          )
    ]

-- The variants that a document names.
abbrev pub is_named : List ValidatedVariant → ℕ → Bool
is_named doc id = any (λ v. v.id == id) doc

abbrev IsCovered : ℕ → List ValidatedVariant → ProductVariant → Type 0
IsCovered product doc r = (r.product_id == product) ≡ true → is_named doc r.id ≡ true

kept-named : (doc : List ValidatedVariant) (id : ℕ) → is_kept doc id ≡ true → is_named doc id ≡ true
unfolding is_kept
kept-named [] id h = cc
kept-named (v ∷ doc) id h = ground (arith, kept-named doc id)

save_variant-IsCovered :
    (product i : ℕ) (v : ValidatedVariant) (all_doc : List ValidatedVariant)
    (rows rows' : List ProductVariant)
    → is_named all_doc v.id ≡ true
    → All (IsCovered product all_doc) rows
    → save_variant product i v rows ≡ ok rows'
    → All (IsCovered product all_doc) rows'
unfolding save_variant create_variant update_variant row_of
save_variant-IsCovered product i v all_doc rows rows' named covered h = elim (Bool-cases v.is_new) [
  | inl y ↦
      let left : rows' ≡ row_of product i v ∷ rows = ground arith in rw left ((λ _. named), covered)
  | inr n ↦
      let left : rows' ≡ update_rows (is_variant v.id product) (λ _. row_of product i v) rows =
        ground arith in
      rw left (
        update_rows-All (IsCovered product all_doc) (IsCovered product all_doc)
          (is_variant v.id product) (λ _. row_of product i v) rows (λ x c hit _. named)
          (λ x c miss. c) covered)
]

save_variants-IsCovered :
    (product i : ℕ) (doc all_doc : List ValidatedVariant) (rows rows' : List ProductVariant)
    → All (λ v. is_named all_doc v.id ≡ true) doc
    → All (IsCovered product all_doc) rows
    → save_variants product i doc rows ≡ ok rows'
    → All (IsCovered product all_doc) rows'
unfolding save_variants
save_variants-IsCovered product i [] all_doc rows rows' named covered h =
    let same = ok-injective h in rw⁻¹ same covered
save_variants-IsCovered product i (v ∷ doc) all_doc rows rows' (name, named) covered h =
    elim (Result-cases (save_variant product i v rows)) [
      | inl (e, bad) ↦ ground arith
      | inr (rows1, saved) ↦
          save_variants-IsCovered product (i + 1) doc all_doc rows1 rows' named
            (save_variant-IsCovered product i v all_doc rows rows1 name covered saved)
            (ground arith)
    ]

All-named : (doc : List ValidatedVariant) → All (λ v. is_named doc v.id ≡ true) doc
All-named [] = tt
All-named (v ∷ doc) = (
  rw (==_refl v.id) refl,
  All-imp (λ w. is_named doc w.id ≡ true) (λ w. is_named (v ∷ doc) w.id ≡ true)
      (λ w h. ground arith) doc (All-named doc),
)

-- After DeleteVariantsExcept only variants that the document names are left.
cleared-IsCovered :
    (product : ℕ) (doc : List ValidatedVariant) (rows : List ProductVariant)
    → All
        (IsCovered product doc)
        (clear_default_variant product (delete_variants_except product doc rows))
unfolding clear_default_variant delete_variants_except
cleared-IsCovered product doc rows =
    update_rows-All (IsCovered product doc) (IsCovered product doc)
      (λ r. r.product_id == product && r.is_default) (λ r. record r { is_default = false }) _
      (λ x c hit. c) (λ x c miss. c)
      (delete_rows-All (IsCovered product doc)
        (λ r. r.product_id == product && not (is_kept doc r.id)) rows
        (λ x left own. kept-named doc x.id (ground arith)))

-- The variants of other products.
abbrev pub of_others : ℕ → List ProductVariant → List ProductVariant
of_others product rows = delete_rows (λ r. r.product_id == product) rows

of_others-delete :
    (product : ℕ) (doc : List ValidatedVariant) (rows : List ProductVariant)
    → of_others product (delete_variants_except product doc rows) ≡ of_others product rows
unfolding delete_variants_except
of_others-delete product doc [] = refl
of_others-delete product doc (r ∷ rows) = ground (arith, of_others-delete product doc rows)

of_others-update :
    (product : ℕ) (q : ProductVariant → Bool) (f : ProductVariant → ProductVariant)
    (rows : List ProductVariant)
    → ((r : ProductVariant) → q r ≡ true → (r.product_id == product) ≡ true)
    → ((r : ProductVariant) → q r ≡ true → ((f r).product_id == product) ≡ true)
    → of_others product (update_rows q f rows) ≡ of_others product rows
of_others-update product q f [] own kept = refl
of_others-update product q f (r ∷ rows) own kept = elim (Bool-cases (q r)) [
  | inl y ↦ rw (y, own r y) (rw (kept r y) (of_others-update product q f rows own kept))
  | inr n ↦ rw (n, of_others-update product q f rows own kept) refl
]

of_others-save :
    (product i : ℕ) (v : ValidatedVariant) (rows rows' : List ProductVariant)
    → save_variant product i v rows ≡ ok rows'
    → of_others product rows' ≡ of_others product rows
unfolding save_variant create_variant update_variant row_of
of_others-save product i v rows rows' h = elim (Bool-cases v.is_new) [
  | inl y ↦
      let left : rows' ≡ row_of product i v ∷ rows = ground arith in
      rw left (rw (==_refl product) refl)
  | inr n ↦
      let left : rows' ≡ update_rows (is_variant v.id product) (λ _. row_of product i v) rows =
        ground arith in
      rw left (
        of_others-update product (is_variant v.id product) (λ _. row_of product i v) rows
          (λ r hit. (&&-eq-true (r.id == v.id) (r.product_id == product) hit).1)
          (λ r hit. ==_refl product))
]

of_others-save_variants :
    (product i : ℕ) (doc : List ValidatedVariant) (rows rows' : List ProductVariant)
    → save_variants product i doc rows ≡ ok rows'
    → of_others product rows' ≡ of_others product rows
unfolding save_variants
of_others-save_variants product i [] rows rows' h = ap (of_others product) (sym (ok-injective h))
of_others-save_variants product i (v ∷ doc) rows rows' h =
    elim (Result-cases (save_variant product i v rows)) [
      | inl (e, bad) ↦ ground arith
      | inr (rows1, saved) ↦
          of_others-save_variants product (i + 1) doc rows1 rows' (ground arith)
          ∙ of_others-save product i v rows rows1 saved
    ]

cleared-others :
    (product : ℕ) (rows : List ProductVariant)
    → of_others product (clear_default_variant product rows) ≡ of_others product rows
unfolding clear_default_variant
cleared-others product rows =
    of_others-update product (λ r. r.product_id == product && r.is_default)
      (λ r. record r { is_default = false }) rows
      (λ r hit. (&&-eq-true (r.product_id == product) r.is_default hit).0)
      (λ r hit. (&&-eq-true (r.product_id == product) r.is_default hit).0)

-- A document whose variants have different ids is saved as it is: if syncVariants succeeds, each
-- variant of the document is found under its id as the row that its position and fields make, the
-- product has no other variants, and those of other products are what they were.
pub sync_variants-document :
    (product : ℕ) (doc : List ValidatedVariant) (rows rows' : List ProductVariant)
    → HasDistinctIds doc
    → sync_variants product doc rows ≡ ok rows'
    → All (λ r. lookup_variant r.id product rows' ≡ some r) (rows_of_document product 0 doc)
      × All (λ r. (r.product_id == product) ≡ true → is_named doc r.id ≡ true) rows'
      × (of_others product rows' ≡ of_others product rows)
unfolding sync_variants
sync_variants-document product doc rows rows' distinct h =
    let start = clear_default_variant product (delete_variants_except product doc rows) in
    (
      (save_variants-lookup product 0 doc start rows' distinct h).0,
      save_variants-IsCovered product 0 doc doc start rows' (All-named doc)
          (cleared-IsCovered product doc rows) h,
      of_others-save_variants product 0 doc start rows' h
          ∙ cleared-others product (delete_variants_except product doc rows)
          ∙ of_others-delete product doc rows,
    )
