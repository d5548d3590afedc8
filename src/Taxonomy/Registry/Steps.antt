-- ===== src/Taxonomy/Registry/Steps.antt =====
-- internal/service/taxonomy.go: the requests on attributes keep the registry sound.
use mathlib.Core.Path.{subst}
use khans_bike.Common.{
  ℕ, List, not, ◌&&◌, ◌==◌, ◌≡◌, refl, sym, arith, any, ok, >>=-eq-ok, guard-eq-ok, ◌>>◌, guard,
  ok-injective,
}
use khans_bike.Common.Text.{Text}
use khans_bike.Service.Validation.{conflict, version_mismatch, validation_err, check_if_match}
use khans_bike.Taxonomy.Registry.{
  AttributeRow, OptionRow, Registry, is_attribute, get_attribute, insert_attribute, touch_attribute,
  touch_row,
}
use khans_bike.Taxonomy.Registry.Inputs.{AttributeInput, validate_new, validate_change}
use khans_bike.Taxonomy.Registry.Kept.{
  IsAttributeTable, IsOptionTable, IsBindingTable, IsOptionTable-Covers, IsBindingTable-Covers,
  insert_attribute-kept, update_attributes-kept, delete_attribute-kept,
}
use khans_bike.Taxonomy.Registry.Requests.{
  create_attribute, update_attribute, save_attribute, delete_attribute, new_attribute,
  replace_attribute, insert_options, attribute_is_used,
}
use khans_bike.Taxonomy.Registry.Rows.{cascade-kept, unbound-kept}
use khans_bike.Taxonomy.Registry.Fits.{errors-nil, validate_new-fits, insert_options-kept}

pub record IsRegistry {F : Type 0} (registry : Registry F) : Type 0 where
  pub attributes : IsAttributeTable registry.attributes
  pub options : IsOptionTable registry.attributes registry.attribute_options
  pub bindings : IsBindingTable registry.attributes registry.bindings

module _ {F : Type 0} (registry : Registry F) (sound : IsRegistry registry) where
  -- An update of the attributes, with options that are sound before it.
  pub touched :
      (now id : ℕ) (options : List OptionRow)
      → IsOptionTable registry.attributes options
      → IsRegistry (record registry {
        attributes = touch_attribute now id registry.attributes;
        attribute_options = options;
      })
  unfolding touch_attribute touch_row
  touched now id options table =
      let (rows, covers) =
        update_attributes-kept (is_attribute id) (touch_row now) (λ a. refl) (λ a. refl) (λ a. refl)
          registry.attributes sound.attributes in
      record {
        attributes = rows;
        options = IsOptionTable-Covers registry.attributes _ options covers table;
        bindings =
            IsBindingTable-Covers registry.attributes _ registry.bindings covers sound.bindings;
      }

  pub create_attribute-kept :
      (now id : ℕ) (new_id : ℕ → ℕ) (raw : AttributeInput) (registry' : Registry F)
      → create_attribute now id new_id raw registry ≡ ok registry'
      → IsRegistry registry'
  unfolding create_attribute new_attribute
  create_attribute-kept now id new_id raw registry' h =
      let input = (validate_new raw).0 in
      let a = new_attribute now id input in
      let (_, valid, h₁) = >>=-eq-ok (validation_err (validate_new raw).1) _ h in
      let (rows, added, h₂) = >>=-eq-ok (insert_attribute a registry.attributes) _ h₁ in
      let (options, inserted, h₃) =
        >>=-eq-ok (insert_options new_id rows id 0 input.options registry.attribute_options) _ h₂ in
      let (key, type, fits) = validate_new-fits raw (errors-nil (validate_new raw).1 valid) in
      let (table, covers, here) =
        insert_attribute-kept a registry.attributes rows sound.attributes (key, type) added in
      rw (sym (ok-injective h₃)) (record {
        attributes = table;
        options =
            insert_options-kept new_id rows a 0 input.options registry.attribute_options options
              here fits
              (IsOptionTable-Covers registry.attributes rows registry.attribute_options covers
                sound.options)
              inserted;
        bindings =
            IsBindingTable-Covers registry.attributes rows registry.bindings covers sound.bindings;
      })

  save_attribute-kept :
      (now id : ℕ) (raw : AttributeInput) (if_match : Text) (before : AttributeRow)
      (registry' : Registry F)
      → save_attribute now id raw if_match registry before ≡ ok registry'
      → IsRegistry registry'
  unfolding save_attribute replace_attribute
  save_attribute-kept now id raw if_match before registry' h =
      let input = (validate_change before.key before.data_type raw).0 in
      let (_, _, h₁) =
        >>=-eq-ok
          (check_if_match if_match before.updated_at
            >> validation_err (validate_change before.key before.data_type raw).1
            >> guard
                (any (λ a. is_attribute id a && a.updated_at == before.updated_at)
                  registry.attributes)
                version_mismatch)
          _ h in
      let (rows, covers) =
        update_attributes-kept (λ a. is_attribute id a && a.updated_at == before.updated_at)
          (replace_attribute now input) (λ a. refl) (λ a. refl) (λ a. refl) registry.attributes
          sound.attributes in
      subst IsRegistry (ok-injective h₁) (record {
        attributes = rows;
        options =
            IsOptionTable-Covers registry.attributes _ registry.attribute_options covers
              sound.options;
        bindings =
            IsBindingTable-Covers registry.attributes _ registry.bindings covers sound.bindings;
      })

  pub update_attribute-kept :
      (now id : ℕ) (raw : AttributeInput) (if_match : Text) (registry' : Registry F)
      → update_attribute now id raw if_match registry ≡ ok registry'
      → IsRegistry registry'
  unfolding update_attribute
  update_attribute-kept now id raw if_match registry' h =
      let (before, _, h') =
        >>=-eq-ok (get_attribute id registry.attributes)
          (save_attribute now id raw if_match registry) h in
      save_attribute-kept now id raw if_match before registry' h'

  pub delete_attribute_sound :
      (id : ℕ) (registry' : Registry F)
      → delete_attribute id registry ≡ ok registry'
      → IsRegistry registry'
  unfolding delete_attribute attribute_is_used
  delete_attribute_sound id registry' h =
      let (before, _, h₁) = >>=-eq-ok (get_attribute id registry.attributes) _ h in
      let (_, free, h₂) = >>=-eq-ok _ _ h₁ in
      let unused = guard-eq-ok (not (attribute_is_used id registry)) conflict free in
      rw (sym (ok-injective h₂)) (record {
        attributes = delete_attribute-kept id registry.attributes sound.attributes;
        options = cascade-kept id registry.attributes registry.attribute_options sound.options;
        bindings =
            unbound-kept id registry.attributes registry.bindings (ground (arith, unused))
              sound.bindings;
      })
