-- ===== src/Schema/Stored.antt =====
-- internal/service/products.go and internal/store/convert.go: attribute values as rows of the table
-- product_attribute_values (insertValues), and mergeValues of internal/service/schema.go, which makes
-- values of rows again. The ids of rows are left out, and uuid.Nil is 0.
pub mod Keys
pub mod Orders
pub mod Rows
pub mod Merged
use khans_bike.Common.{
  ℕ, [], ◌∷◌, ◌++◌, List, Bool, ◌&&◌, ◌==◌, Option, none, some, if◌then◌else◌, map, delete_rows,
  not,
}
use khans_bike.Common.Text.{Text}
use khans_bike.Schema.Attributes.{AttributeValue}
use khans_bike.Schema.Values.{deref}

pub record ProductAttributeValue (F : Type 0) : Type 0 where
  pub product_id : ℕ
  pub variant_id : Option ℕ
  pub attribute_id : ℕ
  pub option_id : Option ℕ
  pub value_text : Option Text
  pub value_num : Option F
  pub value_num_low : Option F
  pub value_num_high : Option F
  pub value_bool : Option Bool
  pub etrto : Option Text

-- The option of a row as a list.
abbrev pub ids_of_option : Option ℕ → List ℕ
ids_of_option none = []
ids_of_option (some id) = id ∷ []

module _ {F : Type 0} where
  -- The body of the loop of insertValues: one row, or one per option.
  unfoldable pub base_row : ℕ → AttributeValue F → ProductAttributeValue F
  base_row product v = record {
    product_id = product;
    variant_id = v.variant_id;
    attribute_id = v.attribute_id;
    option_id = none;
    value_text = v.text_slot;
    value_num = v.num;
    value_num_low = v.num_low;
    value_num_high = v.num_high;
    value_bool = v.bool_slot;
    etrto = v.etrto;
  }

  unfoldable pub option_rows : ProductAttributeValue F → List ℕ → List (ProductAttributeValue F)
  option_rows base [] = []
  option_rows base (opt ∷ ids) = record base { option_id = some opt } ∷ option_rows base ids

  abbrev pub rows_of_ids : ProductAttributeValue F → List ℕ → List (ProductAttributeValue F)
  rows_of_ids base [] = base ∷ []
  rows_of_ids base (opt ∷ ids) = option_rows base (opt ∷ ids)

  unfoldable pub value_rows : ℕ → List (AttributeValue F) → List (ProductAttributeValue F)
  value_rows product [] = []
  value_rows product (v ∷ values) =
      rows_of_ids (base_row product v) v.option_ids ++ value_rows product values

  -- DeleteAttributeValuesForProduct, and insertValues with InsertAttributeValues behind it.
  unfoldable pub delete_values : ℕ → List (ProductAttributeValue F) → List (ProductAttributeValue F)
  delete_values product rows = delete_rows (λ r. r.product_id == product) rows

  unfoldable pub insert_values :
      ℕ → List (AttributeValue F) → List (ProductAttributeValue F) → List (ProductAttributeValue F)
  insert_values product values rows = rows ++ value_rows product values

  -- ListAttributeValuesByProduct, which has no order of its own.
  unfoldable pub list_values : ℕ → List (ProductAttributeValue F) → List (ProductAttributeValue F)
  list_values product rows = delete_rows (λ r. not (r.product_id == product)) rows

  -- AttributeValue of internal/store/convert.go.
  unfoldable pub attribute_value : ProductAttributeValue F → AttributeValue F
  attribute_value r = record {
    attribute_id = r.attribute_id;
    variant_id = r.variant_id;
    option_ids = ids_of_option r.option_id;
    text_slot = r.value_text;
    num = r.value_num;
    num_low = r.value_num_low;
    num_high = r.value_num_high;
    bool_slot = r.value_bool;
    etrto = r.etrto;
  }

  -- The key of mergeValues.
  abbrev pub is_key : ℕ → ℕ → AttributeValue F → Bool
  is_key attr variant v = v.attribute_id == attr && deref 0 v.variant_id == variant

  -- The body of the loop of mergeValues: a value of the key is extended, else the row is a new value.
  unfoldable pub join_value : AttributeValue F → List (AttributeValue F) → List (AttributeValue F)
  join_value r [] = r ∷ []
  join_value r (v ∷ out) =
      let rest = join_value r out in
      if is_key r.attribute_id (deref 0 r.variant_id) v
      then record v { option_ids = v.option_ids ++ r.option_ids } ∷ out
      else v ∷ rest

  unfoldable pub merge_loop :
      List (AttributeValue F) → List (AttributeValue F) → List (AttributeValue F)
  merge_loop out [] = out
  merge_loop out (r ∷ rows) = merge_loop (join_value r out) rows

  -- mergeValues.
  unfoldable pub merge_values : List (AttributeValue F) → List (AttributeValue F)
  merge_values rows = merge_loop [] rows
