-- ===== src/Taxonomy/Registry/Requests.antt =====
-- internal/service/taxonomy.go: the requests that edit the registry, each one transaction: the ids that
-- they mint are arguments.
use khans_bike.Common.{
  ℕ, suc, [], ◌∷◌, ◌++◌, List, Bool, true, false, not, ◌&&◌, ◌||◌, Option, none, some, ◌==◌,
  if◌then◌else◌, Result, ok, err, ◌>>=◌, ◌>>◌, guard, update_rows, delete_rows, any,
}
use khans_bike.Common.Int.{is_neg, wrap32}
use khans_bike.Common.Text.{Text, codes, text_eq, is_empty, trim_space}
use khans_bike.Schema.Attributes.{uses_options, AttributeOption}
use khans_bike.Schema.Stored.{ProductAttributeValue}
use khans_bike.Schema.Values.{option_by_id}
use khans_bike.Schema.Views.{CategoryAttribute, by_id}
use khans_bike.Service.Validation.{
  ServiceError, invalid, not_found, conflict, version_mismatch, add_field, validation_err,
  optional_text, check_if_match,
}
use khans_bike.Taxonomy.Categories.{flag_or}
use khans_bike.Taxonomy.Registry.{
  AttributeRow, OptionRow, BindingRow, Registry, is_attribute, is_option, is_binding, get_attribute,
  insert_attribute, touch_attribute, insert_option, upsert_binding, is_value_in, load_options,
  load_schema,
}
use khans_bike.Taxonomy.Registry.Inputs.{
  OptionInput, AttributeInput, BindingInput, max_label_len, validate_option, validate_new,
  validate_change,
}

-- The rows that the requests write.
unfoldable pub new_attribute : ℕ → ℕ → AttributeInput → AttributeRow
new_attribute now id input = record {
  id = id;
  key = input.key;
  label = input.label;
  data_type = input.data_type;
  unit = input.unit;
  input_type = input.input_type;
  is_filterable = flag_or true input.is_filterable;
  is_searchable = input.is_searchable;
  help_text = input.help_text;
  updated_at = now;
}

unfoldable pub new_option : ℕ → ℕ → OptionInput → OptionRow
new_option id attribute_id input = record {
  id = id;
  attribute_id = attribute_id;
  value = input.value;
  label = input.label;
  swatch_hex = input.swatch_hex;
  position = wrap32 input.position;
}

unfoldable pub new_binding : ℕ → ℕ → BindingInput → BindingRow
new_binding category_id attribute_id input = record {
  category_id = category_id;
  attribute_id = attribute_id;
  position = wrap32 input.position;
  is_required = input.is_required;
  is_variant_axis = input.is_variant_axis;
  label_override = input.label_override;
}

-- The SET of UpdateAttribute and of UpdateAttributeOption.
unfoldable pub replace_attribute : ℕ → AttributeInput → AttributeRow → AttributeRow
replace_attribute now input a = record a {
  label = input.label;
  unit = input.unit;
  input_type = input.input_type;
  is_filterable = flag_or true input.is_filterable;
  is_searchable = input.is_searchable;
  help_text = input.help_text;
  updated_at = now;
}

unfoldable pub replace_option : OptionInput → OptionRow → OptionRow
replace_option input o = record o {
  label = input.label;
  swatch_hex = input.swatch_hex;
  position = wrap32 input.position;
}

-- The loop of CreateAttribute that inserts the options; `new_id` numbers the ids that it mints.
unfoldable pub insert_options :
    (ℕ → ℕ)
    → List AttributeRow
    → ℕ
    → ℕ
    → List OptionInput
    → List OptionRow
    → Result ServiceError (List OptionRow)
insert_options new_id attributes attribute_id i [] rows = ok rows
insert_options new_id attributes attribute_id i (input ∷ rest) rows =
    insert_option attributes (new_option (new_id i) attribute_id input) rows >>= λ rows'.
    insert_options new_id attributes attribute_id (suc i) rest rows'

abbrev pub refers_to : ℕ → Option ℕ → Bool
refers_to id none = false
refers_to id (some other) = other == id

module _ {F : Type 0} where
  -- CreateAttribute.
  unfoldable pub create_attribute :
      ℕ → ℕ → (ℕ → ℕ) → AttributeInput → Registry F → Result ServiceError (Registry F)
  create_attribute now id new_id raw registry =
      let (input, errors) = validate_new raw in
      validation_err errors
      >> (insert_attribute (new_attribute now id input) registry.attributes >>= λ attributes.
          insert_options new_id attributes id 0 input.options registry.attribute_options
          >>= λ options.
              ok (record registry { attributes = attributes; attribute_options = options }))

  -- UpdateAttribute, and from the attribute that it has read on.
  unfoldable pub save_attribute :
      ℕ → ℕ → AttributeInput → Text → Registry F → AttributeRow → Result ServiceError (Registry F)
  save_attribute now id raw if_match registry before =
      let (input, errors) = validate_change before.key before.data_type raw in
      check_if_match if_match before.updated_at
      >> validation_err errors
      >> guard
          (any (λ a. is_attribute id a && a.updated_at == before.updated_at) registry.attributes)
          version_mismatch
      >> ok (record registry {
        attributes =
            update_rows (λ a. is_attribute id a && a.updated_at == before.updated_at)
              (replace_attribute now input) registry.attributes;
      })

  unfoldable pub update_attribute :
      ℕ → ℕ → AttributeInput → Text → Registry F → Result ServiceError (Registry F)
  update_attribute now id raw if_match registry = get_attribute id registry.attributes >>= λ before.
      save_attribute now id raw if_match registry before

  -- DeleteAttribute: bindings and values keep it, options go with it unless a value keeps them.
  abbrev pub is_stored_option : List (ProductAttributeValue F) → ℕ → Bool
  is_stored_option stored id = any (λ v. refers_to id v.option_id) stored

  unfoldable pub attribute_is_used : ℕ → Registry F → Bool
  attribute_is_used id registry =
      any (λ b. b.attribute_id == id) registry.bindings
      || any (λ v. v.attribute_id == id) registry.stored_values
      || any (λ o. o.attribute_id == id && is_stored_option registry.stored_values o.id)
          registry.attribute_options

  unfoldable pub delete_attribute : ℕ → Registry F → Result ServiceError (Registry F)
  delete_attribute id registry = get_attribute id registry.attributes >>= λ before.
      guard (not (attribute_is_used id registry)) conflict
      >> ok (record registry {
        attributes = delete_rows (is_attribute id) registry.attributes;
        attribute_options = delete_rows (λ o. o.attribute_id == id) registry.attribute_options;
      })

  -- CreateOption.
  unfoldable pub create_option :
      ℕ → ℕ → ℕ → OptionInput → Registry F → Result ServiceError (Registry F)
  create_option now id attribute_id raw registry =
      let (input, errors) = validate_option (codes "option") true raw in
      validation_err errors
      >> (get_attribute attribute_id registry.attributes >>= λ a.
          guard (uses_options a.data_type) (invalid (codes "option" ∷ []))
          >> (insert_option registry.attributes (new_option id attribute_id input)
                registry.attribute_options
              >>= λ options. ok (record registry {
                attributes = touch_attribute now attribute_id registry.attributes;
                attribute_options = options;
              })))

  -- DeleteOption.
  unfoldable pub delete_option : ℕ → ℕ → ℕ → Registry F → Result ServiceError (Registry F)
  delete_option now attribute_id id registry =
      guard
        (not (
          any (is_option attribute_id id) registry.attribute_options
          && is_stored_option registry.stored_values id))
        conflict
      >> guard (any (is_option attribute_id id) registry.attribute_options) not_found
      >> ok (record registry {
        attributes = touch_attribute now attribute_id registry.attributes;
        attribute_options = delete_rows (is_option attribute_id id) registry.attribute_options;
      })

  -- UnbindAttribute, with the category of each product.
  unfoldable pub unbind_attribute : (ℕ → ℕ) → ℕ → ℕ → Registry F → Result ServiceError (Registry F)
  unbind_attribute category_of category_id attribute_id registry =
      guard (any (is_binding category_id attribute_id) registry.bindings) not_found
      >> ok (record registry {
        bindings = delete_rows (is_binding category_id attribute_id) registry.bindings;
        stored_values =
            delete_rows (is_value_in category_of category_id attribute_id) registry.stored_values;
      })

abbrev pub option_or_missing : Option AttributeOption → Result ServiceError AttributeOption
option_or_missing none = err not_found
option_or_missing (some o) = ok o

-- Whether a binding moves its attribute to the other level.
abbrev pub changes_level : Bool → Option CategoryAttribute → Bool
changes_level axis none = false
changes_level axis (some cur) = if cur.is_variant_axis then not axis else axis

module _ {F : Type 0} (text_before : Text → Text → Bool) where
  -- UpdateOption, from the option that it has read on; the flag says whether reindex_search is
  -- enqueued.
  unfoldable pub save_option :
      ℕ
      → ℕ
      → ℕ
      → OptionInput
      → Registry F
      → AttributeOption
      → Result ServiceError (Registry F × Bool)
  save_option now attribute_id id input registry before =
      let asked = trim_space input.value in
      guard (is_empty asked || text_eq asked before.value) (invalid (codes "option.value" ∷ []))
      >> guard (any (is_option attribute_id id) registry.attribute_options) not_found
      >> ok (
        record registry {
          attributes = touch_attribute now attribute_id registry.attributes;
          attribute_options =
              update_rows (is_option attribute_id id) (replace_option input)
                registry.attribute_options;
        },
        not (text_eq input.label before.label),
      )

  unfoldable pub update_option :
      ℕ → ℕ → ℕ → OptionInput → Registry F → Result ServiceError (Registry F × Bool)
  update_option now attribute_id id raw registry =
      let (input, errors) = validate_option (codes "option") false raw in
      validation_err errors
      >> (get_attribute attribute_id registry.attributes >>= λ a.
          option_or_missing
            (option_by_id (load_options text_before attribute_id registry.attribute_options) id)
          >>= λ before. save_option now attribute_id id input registry before)

  -- BindAttribute. An attribute changes its level only while no product of the category has a value.
  unfoldable pub level_is_stuck : (ℕ → ℕ) → ℕ → ℕ → Bool → Registry F → Bool
  level_is_stuck category_of category_id attribute_id axis registry =
      changes_level axis (by_id (load_schema text_before category_id registry) attribute_id)
      && any (is_value_in category_of category_id attribute_id) registry.stored_values

  unfoldable pub bind_attribute :
      (ℕ → Bool) → (ℕ → ℕ) → ℕ → ℕ → BindingInput → Registry F → Result ServiceError (Registry F)
  bind_attribute category_exists category_of category_id attribute_id raw registry =
      let (label_override, errors) =
        optional_text (codes "labelOverride") raw.label_override max_label_len in
      let input = record raw { label_override = label_override } in
      validation_err (errors ++ add_field (is_neg raw.position) (codes "position"))
      >> guard (category_exists category_id) not_found
      >> (get_attribute attribute_id registry.attributes >>= λ a.
          guard
            (not
              (level_is_stuck category_of category_id attribute_id input.is_variant_axis registry))
            conflict
          >> (upsert_binding category_exists registry.attributes
                (new_binding category_id attribute_id input) registry.bindings
              >>= λ bindings. ok (record registry { bindings = bindings })))
