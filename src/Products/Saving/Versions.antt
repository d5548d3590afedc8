-- ===== src/Products/Saving/Versions.antt =====
-- internal/service/products.go: UpdateInTx and the version of the row that it writes.
use khans_bike.Common.{
  ℕ, [], ◌∷◌, List, Bool, true, false, ◌==◌, some, ◌≡◌, ◌≢◌, refl, sym, ap, ◌∙◌, inl, inr, arith,
  ok, any, find_row, update_rows, Bool-cases, >>=-eq-ok, ok-injective,
}
use khans_bike.Common.Text.{Text}
use khans_bike.Domain.Price.{PriceTier}
use khans_bike.Domain.Status.{is_active}
use khans_bike.Products.Documents.{Lookups, validate_document}
use khans_bike.Products.Inputs.{ProductInput, ValidatedDoc}
use khans_bike.Products.Saving.{
  Product, Tables, is_product, is_version, has_variant, product_row, update_product, sync_document,
  save_current, update_in_tx, attrs_of, slug_or, publish,
}
use khans_bike.Products.Variants.{ProductVariant, sync_variants}
use khans_bike.Schema.Values.{Json}
use khans_bike.Schema.Views.{Formats}
use khans_bike.Service.Validation.{check_if_match}

-- What a successful UpdateProduct has checked, and what it leaves.
pub update_product-ok :
    {F : Type 0} (expected : ℕ) (row : Product F) (rows rows' : List (Product F))
    → update_product expected row rows ≡ ok rows'
    → (any (is_version row.id expected) rows ≡ true)
      × (rows' ≡ update_rows (is_version row.id expected) (λ _. row) rows)
unfolding update_product
update_product-ok expected row rows rows' h = (ground (arith, h), ground (arith, h))

-- Once a row is written at another time, its old version is gone.
version_is_gone :
    {F : Type 0} (expected : ℕ) (row : Product F) (rows : List (Product F))
    → (row.updated_at == expected) ≡ false
    → any (is_version row.id expected) (update_rows (is_version row.id expected) (λ _. row) rows)
      ≡ false
version_is_gone expected row [] moved = refl
version_is_gone expected row (p ∷ rows) moved = elim (Bool-cases (is_version row.id expected p)) [
  | inl hit ↦ rw hit (ground (arith, moved, version_is_gone expected row rows moved))
  | inr miss ↦ rw miss (ground (arith, miss, version_is_gone expected row rows moved))
]

module _ {F : Type 0} (upper : Text → Text) (new_price : PriceTier → ℕ) where
  -- syncVariants leaves the table of products alone.
  pub sync_document-products :
      (today product : ℕ) (doc : ValidatedDoc F) (t t' : Tables F)
      → sync_document upper new_price today product doc t ≡ ok t'
      → t'.products ≡ t.products
  unfolding sync_document
  sync_document-products today product doc t t' h =
      let (variants, _, made) = >>=-eq-ok (sync_variants product _ t.variants) _ h in
      sym (ap (λ x. x.products) (ok-injective made))

module _ {F : Type 0} (formats : Formats F) (json : Json F Text) (upper : Text → Text)
    (lookups : Lookups) (new_id : ℕ → ℕ) (new_price : PriceTier → ℕ) where
  -- The steps of an update that succeeds.
  pub record IsUpdate (now today : ℕ) (cur : Product F) (existing : ℕ → Bool) (input : ProductInput)
      (if_match : Text) (tables tables' : Tables F) : Type 0 where
    pub doc : ValidatedDoc F
    pub row : Product F
    pub products : List (Product F)
    pub matched : check_if_match if_match cur.updated_at ≡ ok tt
    pub validated : validate_document formats json upper lookups existing new_id input ≡ ok doc
    pub row_id : row.id ≡ cur.id
    pub row_time : row.updated_at ≡ now
    pub row_published :
        row.published_at ≡ publish (is_active ((doc.input).status)) now cur.published_at
    pub written : update_product cur.updated_at row tables.products ≡ ok products
    pub synced :
        sync_document upper new_price today cur.id doc (record tables { products = products })
        ≡ ok tables'

  pub save_current-IsUpdate :
      (now today : ℕ) (cur : Product F) (seen_variants : List ProductVariant) (input : ProductInput)
      → (if_match : Text) (tables tables' : Tables F)
      → save_current formats json upper lookups new_id new_price now today cur seen_variants input
          if_match tables
        ≡ ok tables'
      → IsUpdate now today cur (has_variant cur.id seen_variants) input if_match tables tables'
  unfolding save_current product_row
  save_current-IsUpdate now today cur seen_variants input if_match tables tables' h =
      let (u, matched, rest) = >>=-eq-ok (check_if_match if_match cur.updated_at) _ h in
      let (doc, validated, rest') =
        >>=-eq-ok
          (validate_document formats json upper lookups (has_variant cur.id seen_variants) new_id
            input)
          _ rest in
      let (products, written, synced) =
        >>=-eq-ok (update_product cur.updated_at _ tables.products) _ rest' in
      record {
        doc = doc;
        row =
            product_row now cur.id (slug_or cur.slug ((doc.input).slug))
              (attrs_of formats lookups doc)
              (publish (is_active ((doc.input).status)) now cur.published_at) doc.input;
        products = products;
        matched = matched;
        validated = validated;
        row_id = refl;
        row_time = refl;
        row_published = refl;
        written = written;
        synced = synced;
      }

  -- No lost update: of two updates that have read the same row, the second fails once the first is
  -- written, at a time other than that of the version that both have read.
  pub update_in_tx-again :
      (now now' today today' id : ℕ) (input input' : ProductInput) (if_match if_match' : Text)
      → (seen seen' tables tables' tables2 : Tables F) (cur : Product F)
      → find_row (is_product id) seen.products ≡ some cur
      → find_row (is_product id) seen'.products ≡ some cur
      → (now == cur.updated_at) ≡ false
      → update_in_tx formats json upper lookups new_id new_price now today id input if_match seen
          tables
        ≡ ok tables'
      → update_in_tx formats json upper lookups new_id new_price now' today' id input' if_match'
          seen' tables'
        ≢ ok tables2
  unfolding update_in_tx
  update_in_tx-again now now' today today' id input input' if_match if_match' seen seen' tables
        tables' tables2 cur read read' moved first second =
      let u1 =
        save_current-IsUpdate now today cur seen.variants input if_match tables tables'
          (rw read at first) in
      let u2 =
        save_current-IsUpdate now' today' cur seen'.variants input' if_match' tables' tables2
          (rw read' at second) in
      let (_, rows1) =
        update_product-ok cur.updated_at u1.row tables.products u1.products u1.written in
      let left =
        sync_document-products upper new_price today cur.id u1.doc
          (record tables { products = u1.products }) tables' u1.synced
        ∙ rows1 in
      let (still, _) =
        update_product-ok cur.updated_at u2.row tables'.products u2.products u2.written in
      let gone = version_is_gone cur.updated_at u1.row tables.products (rw (u1.row_time) moved) in
      let gone' : any (is_version u2.row.id cur.updated_at) tables'.products ≡ false =
        rw (left, u2.row_id ∙ sym u1.row_id) gone in
      ground (arith, still, gone')
