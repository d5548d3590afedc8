-- ===== src/Examples/Registry.antt =====
-- A registry of one attribute with two options, bound to a category, and its schema.
use khans_bike.Common.{ℕ, ◌+◌, Bool, true, none, some, Result, ok, [], ◌∷◌, ◌≡◌, refl, All}
use khans_bike.Common.Int.{pos}
use khans_bike.Common.Text.{Text, codes, is_space}
use khans_bike.Products.Inputs.Keys.{IsSchema}
use khans_bike.Schema.Attributes.{color}
use khans_bike.Schema.Views.{by_id}
use khans_bike.Service.Validation.{ServiceError, require_text, optional_text}
use khans_bike.Taxonomy.Registry.{
  Registry, load_schema, insert_attribute, insert_option, get_attribute, join_attributes,
  upsert_binding,
}
use khans_bike.Taxonomy.Registry.History.{
  Reachable, start, later, attribute_created, attribute_bound, load_schema_sound,
}
use khans_bike.Taxonomy.Registry.Inputs.{
  OptionInput, AttributeInput, BindingInput, validate_new, validate_common, validate_option,
  validate_options, option_field, key_is_valid, matches_key, matches_swatch,
}
use khans_bike.Taxonomy.Registry.Loaded.{IsField}
use khans_bike.Taxonomy.Registry.Requests.{
  create_attribute, bind_attribute, insert_options, new_attribute, new_option, new_binding,
  level_is_stuck,
}

abbrev always : Text → Text → Bool
always s t = true

abbrev paint : Text → Text → OptionInput
paint value label = record {
  value = value;
  label = label;
  swatch_hex = some (codes "#ff0000");
  position = pos 0;
}

abbrev colour : AttributeInput
colour = record {
  key = codes " colour ";
  label = codes "Colour";
  data_type = color;
  unit = none;
  input_type = [];
  is_filterable = none;
  is_searchable = true;
  help_text = none;
  options = paint (codes "red") (codes "Red") ∷ paint (codes "wine") (codes "Wine") ∷ [];
}

abbrev on_variants : BindingInput
on_variants = record {
  position = pos 0;
  is_required = true;
  is_variant_axis = true;
  label_override = none;
}

abbrev nothing : Registry ℕ
nothing = record { attributes = []; attribute_options = []; bindings = []; stored_values = [] }

-- What a request leaves.
abbrev after : Registry ℕ → Result ServiceError (Registry ℕ) → Registry ℕ
after registry (ok registry') = registry'
after registry _ = registry

abbrev with_colour : Registry ℕ
with_colour = after nothing (create_attribute 5 1 (λ i. i + 10) colour nothing)

abbrev with_binding : Registry ℕ
with_binding =
    after with_colour (bind_attribute always (λ c. true) (λ p. 7) 7 1 on_variants with_colour)

creates : create_attribute 5 1 (λ i. i + 10) colour nothing ≡ ok with_colour
unfolding create_attribute insert_attribute insert_options insert_option new_attribute new_option
    validate_new validate_common validate_option validate_options option_field require_text
    optional_text key_is_valid matches_key matches_swatch is_space
creates = refl

binds : bind_attribute always (λ c. true) (λ p. 7) 7 1 on_variants with_colour ≡ ok with_binding
unfolding create_attribute insert_attribute insert_options insert_option new_attribute new_option
    validate_new validate_common validate_option validate_options option_field require_text
    optional_text key_is_valid matches_key matches_swatch is_space bind_attribute get_attribute
    level_is_stuck load_schema join_attributes by_id upsert_binding new_binding
binds = refl

reached : Reachable always with_binding
reached =
    later (later start (attribute_created 5 1 (λ i. i + 10) colour creates))
      (attribute_bound (λ c. true) (λ p. 7) 7 1 on_variants binds)

load_schema_sound_example :
    IsSchema (load_schema always 7 with_binding) × All IsField (load_schema always 7 with_binding)
load_schema_sound_example = load_schema_sound always with_binding 7 reached
