-- ===== src/Products/Inputs/Keys.antt =====
-- internal/service/products.go: the attributes that the values of a document belong to. A map has one
-- entry per key; the schema of a category has one binding per key and per attribute.
use mathlib.Core.Path.{subst}
use mathlib.Core.Option.{some-injective}
use khans_bike.Common.{
  ℕ, [], ◌∷◌, ◌++◌, List, Bool, true, false, ◌==◌, Option, some, ◌≡◌, refl, sym, ap, ◌∙◌, inl, inr,
  arith, All, All-append, All-imp, Bool-cases, Option-cases, ==→eq, length, ◌≤◌,
}
use khans_bike.Common.Text.{Text, text_eq, text_eq→eq, text_eq_refl}
use khans_bike.Products.Inputs.{read_entry, read_attributes}
use khans_bike.Products.Inputs.Entries.{HasOwnKeys, IsValueAt, read_entry-IsValueAt}
use khans_bike.Schema.Attributes.{AttributeValue}
use khans_bike.Schema.Values.{Json}
use khans_bike.Schema.Views.{CategoryAttribute, Formats, by_key, by_id, keep_last}

-- The maps of a schema find each binding under its key and under its id.
abbrev pub IsSchema : List CategoryAttribute → Type 0
IsSchema bindings = HasOwnKeys bindings × All (λ b. by_id bindings b.attribute.id ≡ some b) bindings

abbrev pub HasDistinctEntries : List (Text × Text) → Type 0
HasDistinctEntries [] = Unit
HasDistinctEntries ((key, raw) ∷ entries) =
    All (λ e. text_eq (e.0) key ≡ false) entries × HasDistinctEntries entries

abbrev pub HasDistinctAttributes : {F : Type 0} → List (AttributeValue F) → Type 0
HasDistinctAttributes [] = Unit
HasDistinctAttributes (v ∷ values) =
    All (λ w. (w.attribute_id == v.attribute_id) ≡ false) values × HasDistinctAttributes values

pub by_key-All :
    (P : CategoryAttribute → Type 0) (bindings : List CategoryAttribute) (key : Text)
    → (b : CategoryAttribute) → All P bindings
    → by_key bindings key ≡ some b
    → (text_eq b.attribute.key key ≡ true) × P b
unfolding by_key
by_key-All P [] key b h e = cc
by_key-All P (c ∷ bindings) key b (pc, h) e = elim (Option-cases (by_key bindings key)) [
  | inr (later, found) ↦
      let same : later ≡ b =
        some-injective _ _
          (sym (ap (λ o. keep_last (text_eq c.attribute.key key) c o) found) ∙ e) in
      by_key-All P bindings key b h (found ∙ ap some same)
  | inl missing ↦ elim (Bool-cases (text_eq c.attribute.key key)) [
    | inl hit ↦
        let same : c ≡ b = some-injective _ _ (sym (rw (missing, hit) refl) ∙ e) in
        subst (λ x. (text_eq x.attribute.key key ≡ true) × P x) same (hit, pc)
    | inr miss ↦ absurd (ground (arith, missing, miss, e))
  ]
]

module _ {F : Type 0} (formats : Formats F) (json : Json F Text) (axis : Bool)
    (variant_id : Option ℕ) (bindings : List CategoryAttribute) where
  -- Two entries of different keys give values of different attributes.
  apart :
      IsSchema bindings
      → (key key' : Text) (v w : AttributeValue F) → text_eq key' key ≡ false
      → IsValueAt formats json axis variant_id bindings key v
      → IsValueAt formats json axis variant_id bindings key' w
      → (w.attribute_id == v.attribute_id) ≡ false
  apart (keys, ids) key key' v w other at at' =
      elim (Bool-cases (w.attribute_id == v.attribute_id)) [
        | inr off ↦ off
        | inl same ↦
            let b = at.binding in
            let b' = at'.binding in
            let (hit, own) = by_key-All HasOwnId bindings key b ids at.bound in
            let (hit', own') = by_key-All HasOwnId bindings key' b' ids at'.bound in
            let one_id : b'.attribute.id ≡ b.attribute.id =
              sym at'.attribute ∙ ==→eq w.attribute_id v.attribute_id same ∙ at.attribute in
            let one : b' ≡ b = some-injective _ _ (sym own' ∙ ap (by_id bindings) one_id ∙ own) in
            let one_key : key' ≡ key =
              sym (text_eq→eq b'.attribute.key key' hit')
              ∙ ap (λ x. x.attribute.key) one
              ∙ text_eq→eq b.attribute.key key hit in
            let equal : text_eq key' key ≡ true = rw one_key (text_eq_refl key) in
            absurd (ground (arith, other, equal))
      ]
    where
      HasOwnId : CategoryAttribute → Type 0
      HasOwnId x = by_id bindings x.attribute.id ≡ some x

  abbrev pub values_of : Text → List (Text × Text) → List (AttributeValue F)
  values_of prefix entries =
      (read_attributes formats json axis variant_id prefix bindings entries).0

  -- A value under a key that no entry has is of another attribute.
  apart_from :
      IsSchema bindings
      → (prefix key : Text) (v : AttributeValue F)
      → IsValueAt formats json axis variant_id bindings key v
      → (entries : List (Text × Text)) → All (λ e. text_eq (e.0) key ≡ false) entries
      → All (λ w. (w.attribute_id == v.attribute_id) ≡ false) (values_of prefix entries)
  unfolding read_attributes
  apart_from schema prefix key v at [] h = tt
  apart_from schema prefix key v at ((key', raw) ∷ entries) (other, h) =
      let here = (read_entry formats json axis variant_id prefix bindings key' raw).0 in
      All-append (λ w. (w.attribute_id == v.attribute_id) ≡ false) here (values_of prefix entries)
        (All-imp (IsValueAt formats json axis variant_id bindings key')
          (λ w. (w.attribute_id == v.attribute_id) ≡ false)
          (λ w. apart schema key key' v w other at) here
          ((read_entry-IsValueAt formats json axis variant_id prefix bindings key' raw).0))
        (apart_from schema prefix key v at entries h)

  first_distinct :
      (values rest : List (AttributeValue F))
      → length values ≤ 1
      → All (λ v. All (λ w. (w.attribute_id == v.attribute_id) ≡ false) rest) values
      → HasDistinctAttributes rest
      → HasDistinctAttributes (values ++ rest)
  first_distinct [] rest short h distinct = distinct
  first_distinct (v ∷ []) rest short (h, _) distinct = (h, distinct)
  first_distinct (v ∷ w ∷ values) rest short h distinct = absurd (omega (arith, short))

  -- The values that a map of attributes gives are of different attributes.
  pub read_attributes-distinct :
      IsSchema bindings
      → (prefix : Text) (entries : List (Text × Text)) → HasDistinctEntries entries
      → HasDistinctAttributes (values_of prefix entries)
  unfolding read_attributes
  read_attributes-distinct schema prefix [] h = tt
  read_attributes-distinct schema prefix ((key, raw) ∷ entries) (others, h) =
      let (at, short) = read_entry-IsValueAt formats json axis variant_id prefix bindings key raw in
      let here = (read_entry formats json axis variant_id prefix bindings key raw).0 in
      first_distinct here (values_of prefix entries) short
        (All-imp (IsValueAt formats json axis variant_id bindings key)
          (λ v. All (λ w. (w.attribute_id == v.attribute_id) ≡ false) (values_of prefix entries))
          (λ v e. apart_from schema prefix key v e entries others) here at)
        (read_attributes-distinct schema prefix entries h)
