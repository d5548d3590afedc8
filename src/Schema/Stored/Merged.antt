-- ===== src/Schema/Stored/Merged.antt =====
-- internal/service/products.go and internal/service/schema.go: the values of a product saved by
-- insertValues and read back by mergeValues.
use mathlib.Core.Path.{subst}
use mathlib.Core.List.{Permᴰ}
use mathlib.Core.List.Permᴰ.{map}
use khans_bike.Common.{
  ℕ, [], ◌∷◌, ◌++◌, List, Bool, true, ◌==◌, some, ◌≡◌, refl, sym, ap, ◌∙◌, inl, inr, All, All-imp,
  All-append, Bool-cases, ==_refl,
}
use khans_bike.Schema.Attributes.{DataType, AttributeOption, AttributeValue, Floats}
use khans_bike.Schema.Values.{api_value, deref}
use khans_bike.Schema.Stored.{
  ProductAttributeValue, base_row, option_rows, rows_of_ids, value_rows, attribute_value, is_key,
  delete_values, insert_values, list_values, merge_values,
}
use khans_bike.Schema.Stored.Keys.{find_value, ids_at, AgreesWith, merge_loop-any}
use khans_bike.Schema.Stored.Orders.{any-perm, All-perm, ids_at-perm, api_value-perm}
use khans_bike.Schema.Stored.Rows.{made, HasDistinctKeys, IsStored, value_rows-IsStored}

module _ {F : Type 0} (product : ℕ) where
  abbrev is_of : ProductAttributeValue F → Bool
  is_of r = r.product_id == product

  list-append :
      (xs ys : List (ProductAttributeValue F))
      → list_values product (xs ++ ys) ≡ list_values product xs ++ list_values product ys
  unfolding list_values
  list-append [] ys = refl
  list-append (x ∷ xs) ys = elim (Bool-cases (is_of x)) [
    | inl own ↦ rw own (ap (λ l. x ∷ l) (list-append xs ys))
    | inr other ↦ rw other (list-append xs ys)
  ]

  list-delete :
      (xs : List (ProductAttributeValue F)) → list_values product (delete_values product xs) ≡ []
  unfolding list_values delete_values
  list-delete [] = refl
  list-delete (x ∷ xs) = elim (Bool-cases (is_of x)) [
    | inl own ↦ rw own (list-delete xs)
    | inr other ↦ rw (other, other) (list-delete xs)
  ]

  list-own :
      (xs : List (ProductAttributeValue F))
      → All (λ r. is_of r ≡ true) xs
      → list_values product xs ≡ xs
  unfolding list_values
  list-own [] h = refl
  list-own (x ∷ xs) (own, h) = rw own (ap (λ l. x ∷ l) (list-own xs h))

  option_rows-own :
      (base : ProductAttributeValue F) (ids : List ℕ)
      → is_of base ≡ true
      → All (λ r. is_of r ≡ true) (option_rows base ids)
  unfolding option_rows
  option_rows-own base [] own = tt
  option_rows-own base (id ∷ ids) own = (own, option_rows-own base ids own)

  value_rows-own :
      (values : List (AttributeValue F)) → All (λ r. is_of r ≡ true) (value_rows product values)
  unfolding value_rows base_row
  value_rows-own [] = tt
  value_rows-own (v ∷ values) =
      All-append (λ r. is_of r ≡ true) (rows_of_ids (base_row product v) v.option_ids)
        (value_rows product values) (here v.option_ids) (value_rows-own values)
    where
      here : (ids : List ℕ) → All (λ r. is_of r ≡ true) (rows_of_ids (base_row product v) ids)
      here [] = (==_refl product, tt)
      here (id ∷ ids) = option_rows-own (base_row product v) (id ∷ ids) (==_refl product)

  -- After the values of a product are rewritten, they are what is listed.
  pub list-insert :
      (values : List (AttributeValue F)) (rows : List (ProductAttributeValue F))
      → list_values product (insert_values product values (delete_values product rows))
        ≡ value_rows product values
  unfolding insert_values
  list-insert values rows =
      list-append (delete_values product rows) (value_rows product values)
      ∙ (rw (list-delete rows) (list-own (value_rows product values) (value_rows-own values)))

-- The value that is found under the key of a saved one: the same but for the order of its options, and
-- rendered the same.
abbrev pub IsRestored :
    {F : Type 0} → Floats F → List (AttributeValue F) → AttributeValue F → Type 0
IsRestored floats values v =
    (ids : List ℕ) × (find_value v.attribute_id (deref 0 v.variant_id) values
      ≡ some (record v { option_ids = ids }))
    × Permᴰ v.option_ids ids
    × ((dt : DataType) (options : List AttributeOption)
        → api_value floats dt options (record v { option_ids = ids })
          ≡ api_value floats dt options v)

module _ {F : Type 0} (floats : Floats F) where
  restored :
      (v : AttributeValue F) (rows answer : List (AttributeValue F))
      → Permᴰ rows answer
      → IsStored v rows
      → IsRestored floats (merge_values answer) v
  unfolding merge_values
  restored v rows answer order stored =
      let attr = v.attribute_id in
      let variant = deref 0 v.variant_id in
      let ids = ids_at attr variant answer in
      let same = subst (λ l. Permᴰ l ids) stored.ids (ids_at-perm attr variant order) in
      (
        ids,
        merge_loop-any attr variant v answer []
            (All-perm (AgreesWith attr variant v) order stored.agree) refl
            (sym (any-perm (is_key attr variant) order) ∙ stored.present),
        same,
        λ dt options. api_value-perm floats dt options v ids same,
      )

  -- The values of a product, no two of one attribute at one place, that are written in place of the old
  -- ones: in whatever order the rows come back, mergeValues finds each of them again, with its slots and
  -- its options, and apiValue renders it as before.
  pub merge_values-IsRestored :
      (product : ℕ) (values : List (AttributeValue F))
      (rows answer : List (ProductAttributeValue F))
      → HasDistinctKeys values
      → Permᴰ
          (list_values product (insert_values product values (delete_values product rows)))
          answer
      → All (IsRestored floats (merge_values (made answer))) values
  merge_values-IsRestored product values rows answer distinct order =
      let order' : Permᴰ (made (value_rows product values)) (made answer) =
        map attribute_value (subst (λ l. Permᴰ l answer) (list-insert product values rows) order) in
      All-imp (λ v. IsStored v (made (value_rows product values)))
        (IsRestored floats (merge_values (made answer)))
        (λ v. restored v (made (value_rows product values)) (made answer) order') values
        (value_rows-IsStored product values distinct)
