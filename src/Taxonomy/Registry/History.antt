-- ===== src/Taxonomy/Registry/History.antt =====
-- internal/service/taxonomy.go: the registries that the requests lead to from an empty one, and the
-- schemas that internal/service/schema.go loads from them.
use khans_bike.Common.{ℕ, ◌≡◌, [], List, Bool, ok, ◌==◌, delete_rows, All}
use khans_bike.Common.Text.{Text}
use khans_bike.Products.Inputs.Keys.{IsSchema}
use khans_bike.Schema.Stored.{ProductAttributeValue}
use khans_bike.Taxonomy.Registry.{Registry, load_schema}
use khans_bike.Taxonomy.Registry.Inputs.{OptionInput, AttributeInput, BindingInput}
use khans_bike.Taxonomy.Registry.Loaded.{IsField, load_schema-IsSchema, load_schema-IsField}
use khans_bike.Taxonomy.Registry.Requests.{
  create_attribute, update_attribute, delete_attribute, create_option, update_option, delete_option,
  bind_attribute, unbind_attribute,
}
use khans_bike.Taxonomy.Registry.Rows.{delete_bindings-kept}
use khans_bike.Taxonomy.Registry.Steps.{
  IsRegistry, create_attribute-kept, update_attribute-kept, delete_attribute_sound,
}
use khans_bike.Taxonomy.Registry.Changes.{
  create_option-kept, update_option-kept, delete_option-kept, bind_attribute-kept,
  unbind_attribute-kept,
}

module _ {F : Type 0} (text_before : Text → Text → Bool) where
  -- A request that succeeds, with the categories and the products that there are at the time; products
  -- that are saved, which writes any values; and a category that is deleted with its bindings.
  pub data Edit (registry : Registry F) : Registry F → Type 0 where
    attribute_created :
        (now id : ℕ) (new_id : ℕ → ℕ) (raw : AttributeInput) {registry' : Registry F}
        → create_attribute now id new_id raw registry ≡ ok registry'
        → Edit registry registry'
    attribute_updated :
        (now id : ℕ) (raw : AttributeInput) (if_match : Text) {registry' : Registry F}
        → update_attribute now id raw if_match registry ≡ ok registry'
        → Edit registry registry'
    attribute_deleted :
        (id : ℕ) {registry' : Registry F}
        → delete_attribute id registry ≡ ok registry'
        → Edit registry registry'
    option_created :
        (now id attribute_id : ℕ) (raw : OptionInput) {registry' : Registry F}
        → create_option now id attribute_id raw registry ≡ ok registry'
        → Edit registry registry'
    option_updated :
        (now attribute_id id : ℕ) (raw : OptionInput) {registry' : Registry F} {reindex : Bool}
        → update_option text_before now attribute_id id raw registry ≡ ok (registry', reindex)
        → Edit registry registry'
    option_deleted :
        (now attribute_id id : ℕ) {registry' : Registry F}
        → delete_option now attribute_id id registry ≡ ok registry'
        → Edit registry registry'
    attribute_bound :
        (category_exists : ℕ → Bool) (category_of : ℕ → ℕ) (category_id attribute_id : ℕ)
        (raw : BindingInput) {registry' : Registry F}
        → bind_attribute text_before category_exists category_of category_id attribute_id raw
            registry
          ≡ ok registry'
        → Edit registry registry'
    attribute_unbound :
        (category_of : ℕ → ℕ) (category_id attribute_id : ℕ) {registry' : Registry F}
        → unbind_attribute category_of category_id attribute_id registry ≡ ok registry'
        → Edit registry registry'
    products_saved :
        (values : List (ProductAttributeValue F))
        → Edit registry (record registry { stored_values = values })
    category_deleted :
        (id : ℕ)
        → Edit registry (record registry {
          bindings = delete_rows (λ b. b.category_id == id) registry.bindings;
        })

  pub data Reachable : Registry F → Type 0 where
    start :
        Reachable
          (record { attributes = []; attribute_options = []; bindings = []; stored_values = [] })
    later :
        {registry registry' : Registry F}
        → Reachable registry
        → Edit registry registry'
        → Reachable registry'

  Edit-IsRegistry :
      {registry registry' : Registry F}
      → Edit registry registry'
      → IsRegistry registry
      → IsRegistry registry'
  Edit-IsRegistry {registry} (attribute_created now id new_id raw h) sound =
      create_attribute-kept registry sound now id new_id raw _ h
  Edit-IsRegistry {registry} (attribute_updated now id raw if_match h) sound =
      update_attribute-kept registry sound now id raw if_match _ h
  Edit-IsRegistry {registry} (attribute_deleted id h) sound =
      delete_attribute_sound registry sound id _ h
  Edit-IsRegistry {registry} (option_created now id attribute_id raw h) sound =
      create_option-kept registry sound now id attribute_id raw _ h
  Edit-IsRegistry {registry} (option_updated now attribute_id id raw h) sound =
      update_option-kept registry sound text_before now attribute_id id raw _ _ h
  Edit-IsRegistry {registry} (option_deleted now attribute_id id h) sound =
      delete_option-kept registry sound now attribute_id id _ h
  Edit-IsRegistry {registry}
        (attribute_bound category_exists category_of category_id attribute_id raw h) sound =
      bind_attribute-kept registry sound text_before category_exists category_of category_id
        attribute_id raw _ h
  Edit-IsRegistry {registry} (attribute_unbound category_of category_id attribute_id h) sound =
      unbind_attribute-kept registry sound category_of category_id attribute_id _ h
  Edit-IsRegistry (products_saved values) sound = record {
    attributes = sound.attributes;
    options = sound.options;
    bindings = sound.bindings;
  }
  Edit-IsRegistry {registry} (category_deleted id) sound = record {
    attributes = sound.attributes;
    options = sound.options;
    bindings =
        delete_bindings-kept (λ b. b.category_id == id) registry.attributes registry.bindings
          sound.bindings;
  }

  Reachable-IsRegistry : (registry : Registry F) → Reachable registry → IsRegistry registry
  Reachable-IsRegistry registry start = record {
    attributes = record {
      own_ids = λ a b m n same. elim m [ ];
      own_keys = λ a b m n same. elim m [ ];
      valid = λ a m. elim m [ ];
    };
    options = record {
      own_ids = λ a b m n same. elim m [ ];
      own_values = λ a b m n same. elim m [ ];
      owners = λ a m. elim m [ ];
    };
    bindings = record { own_ends = λ a b m n same. elim m [ ]; owners = λ a m. elim m [ ] };
  }
  Reachable-IsRegistry registry (later before edit) =
      Edit-IsRegistry edit (Reachable-IsRegistry _ before)

  -- However the registry is edited, the schema that is loaded for a category finds each of its bindings
  -- by the key and by the id of its attribute; keys are as attributeKeyPattern and the suffixes ask,
  -- types are known, and an attribute finds each of its options by its id and by its value.
  pub load_schema_sound :
      (registry : Registry F) (category_id : ℕ)
      → Reachable registry
      → IsSchema (load_schema text_before category_id registry)
        × All IsField (load_schema text_before category_id registry)
  load_schema_sound registry category_id reached =
      let sound = Reachable-IsRegistry registry reached in
      (
        load_schema-IsSchema text_before registry sound.attributes sound.options sound.bindings
            category_id,
        load_schema-IsField text_before registry sound.attributes sound.options sound.bindings
            category_id,
      )
