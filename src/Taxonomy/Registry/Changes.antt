-- ===== src/Taxonomy/Registry/Changes.antt =====
-- internal/service/taxonomy.go: the requests on options and bindings keep the registry sound.
use mathlib.Core.Path.{subst}
use khans_bike.Common.{
  ℕ, [], ◌∷◌, ◌++◌, Bool, true, false, not, ◌&&◌, ◌||◌, ◌≡◌, refl, ap, any, ok, ==→eq, >>=-eq-ok,
  guard-eq-ok, ◌>>◌, guard, ok-injective,
}
use khans_bike.Common.Text.{Text, codes, trim_space, is_empty, text_eq}
use khans_bike.Common.Int.{is_neg}
use khans_bike.Schema.Attributes.{AttributeOption, uses_options}
use khans_bike.Schema.Values.{option_by_id}
use khans_bike.Service.Validation.{
  conflict, not_found, invalid, validation_err, add_field, optional_text,
}
use khans_bike.Taxonomy.Registry.{
  Registry, is_option, is_binding, get_attribute, insert_option, upsert_binding, load_options,
}
use khans_bike.Taxonomy.Registry.Inputs.{OptionInput, BindingInput, validate_option, max_label_len}
use khans_bike.Taxonomy.Registry.Requests.{
  create_option, update_option, save_option, delete_option, bind_attribute, unbind_attribute,
  new_option, replace_option, is_stored_option, level_is_stuck, new_binding, option_or_missing,
}
use khans_bike.Taxonomy.Registry.Rows.{
  insert_option-kept, update_options-kept, delete_options-kept, upsert_binding-kept,
  delete_bindings-kept,
}
use khans_bike.Taxonomy.Registry.Fits.{get_attribute-Mem}
use khans_bike.Taxonomy.Registry.Steps.{IsRegistry, touched}

abbrev first_of : {A B : Type 0} → A × B → A
first_of p = p.0

module _ {F : Type 0} (registry : Registry F) (sound : IsRegistry registry) where
  pub create_option-kept :
      (now id attribute_id : ℕ) (raw : OptionInput) (registry' : Registry F)
      → create_option now id attribute_id raw registry ≡ ok registry'
      → IsRegistry registry'
  unfolding create_option new_option
  create_option-kept now id attribute_id raw registry' h =
      let input = (validate_option (codes "option") true raw).0 in
      let (_, _, h₁) =
        >>=-eq-ok (validation_err (validate_option (codes "option") true raw).1) _ h in
      let (a, read, h₂) = >>=-eq-ok (get_attribute attribute_id registry.attributes) _ h₁ in
      let (_, takes, h₃) =
        >>=-eq-ok (guard (uses_options a.data_type) (invalid (codes "option" ∷ []))) _ h₂ in
      let (options, inserted, h₄) =
        >>=-eq-ok
          (insert_option registry.attributes (new_option id attribute_id input)
            registry.attribute_options)
          _ h₃ in
      let (here, own) = get_attribute-Mem attribute_id registry.attributes a read in
      subst IsRegistry (ok-injective h₄) (
        touched registry sound now attribute_id options (
          insert_option-kept registry.attributes (new_option id attribute_id input)
            registry.attribute_options options sound.options
            (a, here, ==→eq a.id attribute_id own, guard-eq-ok (uses_options a.data_type) _ takes)
            inserted))

  pub delete_option-kept :
      (now attribute_id id : ℕ) (registry' : Registry F)
      → delete_option now attribute_id id registry ≡ ok registry'
      → IsRegistry registry'
  unfolding delete_option
  delete_option-kept now attribute_id id registry' h =
      let (_, _, h₁) =
        >>=-eq-ok
          (guard
              (not (
                any (is_option attribute_id id) registry.attribute_options
                && is_stored_option registry.stored_values id))
              conflict
            >> guard (any (is_option attribute_id id) registry.attribute_options) not_found)
          _ h in
      subst IsRegistry (ok-injective h₁) (
        touched registry sound now attribute_id _ (
          delete_options-kept (is_option attribute_id id) registry.attributes
            registry.attribute_options sound.options))

  pub unbind_attribute-kept :
      (category_of : ℕ → ℕ) (category_id attribute_id : ℕ) (registry' : Registry F)
      → unbind_attribute category_of category_id attribute_id registry ≡ ok registry'
      → IsRegistry registry'
  unfolding unbind_attribute
  unbind_attribute-kept category_of category_id attribute_id registry' h =
      let (_, _, h₁) =
        >>=-eq-ok (guard (any (is_binding category_id attribute_id) registry.bindings) not_found) _
          h in
      subst IsRegistry (ok-injective h₁) (record {
        attributes = sound.attributes;
        options = sound.options;
        bindings =
            delete_bindings-kept (is_binding category_id attribute_id) registry.attributes
              registry.bindings sound.bindings;
      })

  module _ (text_before : Text → Text → Bool) where
    save_option-kept :
        (now attribute_id id : ℕ) (input : OptionInput) (before : AttributeOption)
        (registry' : Registry F) (reindex : Bool)
        → save_option text_before now attribute_id id input registry before
          ≡ ok (registry', reindex)
        → IsRegistry registry'
    unfolding save_option replace_option
    save_option-kept now attribute_id id input before registry' reindex h =
        let asked = trim_space input.value in
        let (_, _, h₁) =
          >>=-eq-ok
            (guard (is_empty asked || text_eq asked before.value)
                (invalid (codes "option.value" ∷ []))
              >> guard (any (is_option attribute_id id) registry.attribute_options) not_found)
            _ h in
        subst IsRegistry (ap first_of (ok-injective h₁)) (
          touched registry sound now attribute_id _ (
            update_options-kept (is_option attribute_id id) (replace_option input) (λ o. refl)
              (λ o. refl) registry.attributes registry.attribute_options sound.options))

    pub update_option-kept :
        (now attribute_id id : ℕ) (raw : OptionInput) (registry' : Registry F) (reindex : Bool)
        → update_option text_before now attribute_id id raw registry ≡ ok (registry', reindex)
        → IsRegistry registry'
    unfolding update_option
    update_option-kept now attribute_id id raw registry' reindex h =
        let input = (validate_option (codes "option") false raw).0 in
        let (_, _, h₁) =
          >>=-eq-ok (validation_err (validate_option (codes "option") false raw).1) _ h in
        let (a, _, h₂) = >>=-eq-ok (get_attribute attribute_id registry.attributes) _ h₁ in
        let (before, _, h₃) =
          >>=-eq-ok
            (option_or_missing
              (option_by_id (load_options text_before attribute_id registry.attribute_options) id))
            (save_option text_before now attribute_id id input registry) h₂ in
        save_option-kept now attribute_id id input before registry' reindex h₃

    pub bind_attribute-kept :
        (category_exists : ℕ → Bool) (category_of : ℕ → ℕ) (category_id attribute_id : ℕ)
        (raw : BindingInput) (registry' : Registry F)
        → bind_attribute text_before category_exists category_of category_id attribute_id raw
            registry
          ≡ ok registry'
        → IsRegistry registry'
    unfolding bind_attribute
    bind_attribute-kept category_exists category_of category_id attribute_id raw registry' h =
        let (label_override, errors) =
          optional_text (codes "labelOverride") raw.label_override max_label_len in
        let input = record raw { label_override = label_override } in
        let (_, _, h₂) =
          >>=-eq-ok
            (validation_err (errors ++ add_field (is_neg raw.position) (codes "position"))
              >> guard (category_exists category_id) not_found)
            _ h in
        let (_, _, h₃) = >>=-eq-ok (get_attribute attribute_id registry.attributes) _ h₂ in
        let (_, _, h₄) =
          >>=-eq-ok
            (guard
              (not (
                level_is_stuck text_before category_of category_id attribute_id
                  input.is_variant_axis registry))
              conflict)
            _ h₃ in
        let (bindings, bound, h₅) =
          >>=-eq-ok
            (upsert_binding category_exists registry.attributes
              (new_binding category_id attribute_id input) registry.bindings)
            _ h₄ in
        subst IsRegistry (ok-injective h₅) (record {
          attributes = sound.attributes;
          options = sound.options;
          bindings =
              upsert_binding-kept category_exists registry.attributes
                (new_binding category_id attribute_id input) registry.bindings bindings
                sound.bindings bound;
        })
