-- ===== src/Taxonomy/Registry.antt =====
-- internal/service/taxonomy.go: the registry of attributes, their options, and the bindings that make an
-- attribute apply to a category, with the statements of internal/store/gen/attributes.sql.go and the
-- constraints of the tables. Ids and times are arguments, times in microseconds. The values that
-- products hold are rows of Schema.Stored; what the requests answer with, audit entries, created_at and
-- the projections that UnbindAttribute rebuilds are left out.
pub mod Inputs
pub mod Requests
pub mod Kept
pub mod Rows
pub mod Found
pub mod Loaded
pub mod Fits
pub mod Steps
pub mod Changes
pub mod History
use khans_bike.Common.{
  ℕ, [], ◌∷◌, List, Bool, not, ◌&&◌, ◌||◌, Option, none, some, ◌==◌, if◌then◌else◌, Result, ok, err,
  ◌>>◌, guard, find_row, update_rows, delete_rows, any, map,
}
use khans_bike.Common.Int.{ℤ, is_neg, ◌-ℤ◌}
use khans_bike.Common.Keyed.{sort_rows}
use khans_bike.Common.Text.{Text, text_eq}
use khans_bike.Schema.Attributes.{DataType, Attribute, AttributeOption}
use khans_bike.Schema.Stored.{ProductAttributeValue}
use khans_bike.Schema.Views.{CategoryAttribute}
use khans_bike.Service.Validation.{ServiceError, invalid, not_found, conflict, version_mismatch}

-- The rows of attributes, attribute_options and category_attributes.
pub record AttributeRow : Type 0 where
  pub id : ℕ
  pub key : Text
  pub label : Text
  pub data_type : DataType
  pub unit : Option Text
  pub input_type : Text
  pub is_filterable : Bool
  pub is_searchable : Bool
  pub help_text : Option Text
  pub updated_at : ℕ

pub record OptionRow : Type 0 where
  pub id : ℕ
  pub attribute_id : ℕ
  pub value : Text
  pub label : Text
  pub swatch_hex : Option Text
  pub position : ℤ

pub record BindingRow : Type 0 where
  pub category_id : ℕ
  pub attribute_id : ℕ
  pub position : ℤ
  pub is_required : Bool
  pub is_variant_axis : Bool
  pub label_override : Option Text

-- The tables, with the attribute values of products, which refer to them.
pub record Registry (F : Type 0) : Type 0 where
  pub attributes : List AttributeRow
  pub attribute_options : List OptionRow
  pub bindings : List BindingRow
  pub stored_values : List (ProductAttributeValue F)

abbrev pub is_attribute : ℕ → AttributeRow → Bool
is_attribute id a = a.id == id

abbrev pub is_option : ℕ → ℕ → OptionRow → Bool
is_option attribute_id id o = o.id == id && o.attribute_id == attribute_id

abbrev pub is_binding : ℕ → ℕ → BindingRow → Bool
is_binding category_id attribute_id b =
    b.category_id == category_id && b.attribute_id == attribute_id

-- GetAttributeByID.
unfoldable pub get_attribute : ℕ → List AttributeRow → Result ServiceError AttributeRow
get_attribute id rows = elim (find_row (is_attribute id) rows) [
  | none ↦ err not_found
  | some a ↦ ok a
]

-- CreateAttribute of internal/store/gen; ids and keys are unique.
unfoldable pub insert_attribute :
    AttributeRow → List AttributeRow → Result ServiceError (List AttributeRow)
insert_attribute a rows =
    guard (not (any (is_attribute a.id) rows)) conflict
    >> guard (not (any (λ b. text_eq b.key a.key) rows)) conflict
    >> ok (a ∷ rows)

-- TouchAttribute.
unfoldable pub touch_row : ℕ → AttributeRow → AttributeRow
touch_row now a = record a { updated_at = now }

unfoldable pub touch_attribute : ℕ → ℕ → List AttributeRow → List AttributeRow
touch_attribute now id rows = update_rows (is_attribute id) (touch_row now) rows

-- CreateAttributeOption: ids, and values within an attribute, are unique, and the attribute exists.
abbrev pub has_value : ℕ → Text → OptionRow → Bool
has_value attribute_id value o = o.attribute_id == attribute_id && text_eq o.value value

unfoldable pub insert_option :
    List AttributeRow → OptionRow → List OptionRow → Result ServiceError (List OptionRow)
insert_option attributes o rows =
    guard (not (any (λ p. p.id == o.id) rows)) conflict
    >> guard (not (any (has_value o.attribute_id o.value) rows)) conflict
    >> guard (any (is_attribute o.attribute_id) attributes) (invalid [])
    >> ok (o ∷ rows)

-- BindCategoryAttribute: an upsert on the primary key, and both ends exist.
unfoldable pub replace_binding : BindingRow → BindingRow → BindingRow
replace_binding excluded b = record b {
  position = excluded.position;
  is_required = excluded.is_required;
  is_variant_axis = excluded.is_variant_axis;
  label_override = excluded.label_override;
}

unfoldable pub upsert_binding :
    (ℕ → Bool)
    → List AttributeRow
    → BindingRow
    → List BindingRow
    → Result ServiceError (List BindingRow)
upsert_binding category_exists attributes b rows =
    guard (category_exists b.category_id && any (is_attribute b.attribute_id) attributes)
      (invalid [])
    >> ok (
        if any (is_binding b.category_id b.attribute_id) rows
        then update_rows (is_binding b.category_id b.attribute_id) (replace_binding b) rows
        else b ∷ rows)

-- CategoryAttributeHasValues and DeleteCategoryAttributeValues, with the category of a product as an
-- argument.
abbrev pub is_value_in : {F : Type 0} → (ℕ → ℕ) → ℕ → ℕ → ProductAttributeValue F → Bool
is_value_in category_of category_id attribute_id v =
    category_of v.product_id == category_id && v.attribute_id == attribute_id

-- ORDER BY position, and then by a text in the collation of the database.
module _ (text_before : Text → Text → Bool) where
  abbrev pub ordered_before : ℤ → Text → ℤ → Text → Bool
  ordered_before p s q t = is_neg (p -ℤ q) || not (is_neg (q -ℤ p)) && text_before s t

  -- ListOptionsByAttributeIDs, for one of the attributes, as loadOptions reads it.
  unfoldable pub to_option : OptionRow → AttributeOption
  to_option o = record { id = o.id; value = o.value; label = o.label; swatch_hex = o.swatch_hex }

  unfoldable pub load_options : ℕ → List OptionRow → List AttributeOption
  load_options id rows = map to_option (
      sort_rows (λ o p. ordered_before o.position o.value p.position p.value)
        (delete_rows (λ o. not (o.attribute_id == id)) rows))

  -- The attribute of a row, with its options.
  unfoldable pub to_attribute : List OptionRow → AttributeRow → Attribute
  to_attribute rows a = record {
    id = a.id;
    key = a.key;
    label = a.label;
    data_type = a.data_type;
    unit = a.unit;
    options = load_options a.id rows;
  }

  -- ListCategoryAttributes: the bindings of a category with their attributes.
  abbrev pub cons_joined :
      BindingRow
      → Option AttributeRow
      → List (BindingRow × AttributeRow)
      → List (BindingRow × AttributeRow)
  cons_joined b none rest = rest
  cons_joined b (some a) rest = (b, a) ∷ rest

  unfoldable pub join_attributes :
      ℕ → List AttributeRow → List BindingRow → List (BindingRow × AttributeRow)
  join_attributes category_id attributes [] = []
  join_attributes category_id attributes (b ∷ bindings) =
      let rest = join_attributes category_id attributes bindings in
      if b.category_id == category_id
      then cons_joined b (find_row (is_attribute b.attribute_id) attributes) rest
      else rest

  -- loadCategorySchema: the bindings in the admin's order.
  unfoldable pub to_binding : List OptionRow → BindingRow × AttributeRow → CategoryAttribute
  to_binding rows (b, a) = record {
    attribute = to_attribute rows a;
    position = b.position;
    is_required = b.is_required;
    is_variant_axis = b.is_variant_axis;
    label_override = b.label_override;
  }

  unfoldable pub load_schema : {F : Type 0} → ℕ → Registry F → List CategoryAttribute
  load_schema category_id registry = map (to_binding registry.attribute_options) (
      sort_rows (λ x y. ordered_before x.0.position x.1.key y.0.position y.1.key)
        (join_attributes category_id registry.attributes registry.bindings))
