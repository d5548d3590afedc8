-- ===== src/Taxonomy/Registry/Loaded.antt =====
-- internal/service/schema.go: what loadCategorySchema makes of the tables of the registry.
use mathlib.Core.List.{Memᴰ}
use mathlib.Core.List.Memᴰ.{head, tail}
use khans_bike.Common.{
  ℕ, [], ◌∷◌, List, Bool, true, not, ◌==◌, some, ◌≡◌, refl, sym, ap, ◌∙◌, inl, inr, arith, find_row,
  All, Bool-cases, Option-cases, ==→eq, ==_refl,
}
use khans_bike.Common.Keyed.{IsKey, Mem-delete_rows, Mem-sort_rows, find_row-Mem, find_row-own}
use khans_bike.Common.Text.{Text, text_eq, text_eq_refl, text_eq→eq}
use khans_bike.Products.Inputs.Keys.{IsSchema}
use khans_bike.Schema.Attributes.{AttributeOption, type_is_valid}
use khans_bike.Schema.Values.{option_by_id, option_by_value}
use khans_bike.Schema.Values.Tokens.{HasOwnIds, HasOwnTokens}
use khans_bike.Schema.Views.{CategoryAttribute}
use khans_bike.Taxonomy.Registry.{
  AttributeRow, OptionRow, BindingRow, Registry, is_attribute, to_option, load_options,
  to_attribute, join_attributes, to_binding, load_schema,
}
use khans_bike.Taxonomy.Registry.Inputs.{key_is_valid}
use khans_bike.Taxonomy.Registry.Kept.{IsAttributeTable, IsOptionTable, IsBindingTable}
use khans_bike.Taxonomy.Registry.Found.{Mem-All, Mem-map, IsKey-IsSchema}

both : {A B : Type 0} {a a' : A} {b b' : B} → a ≡ a' → b ≡ b' → ◌≡◌ {A = A × B} (a, b) (a', b')
both p q = cc (p, q)

-- The options of an attribute.
module _ (text_before : Text → Text → Bool) (attributes : List AttributeRow) (rows : List OptionRow)
    (table : IsOptionTable attributes rows) (id : ℕ) where
  Mem-load_options :
      (o : AttributeOption)
      → Memᴰ o (load_options text_before id rows)
      → (r : OptionRow) × Memᴰ r rows × (r.attribute_id ≡ id) × (o ≡ to_option text_before r)
  unfolding load_options
  Mem-load_options o m =
      let (r, sorted, same) = Mem-map (to_option text_before) _ o m in
      let (here, of_it) =
        Mem-delete_rows (λ p. not (p.attribute_id == id)) rows r (Mem-sort_rows _ _ r sorted) in
      (r, here, ==→eq r.attribute_id id (ground (arith, of_it)), same)

  ids_are_own : IsKey (λ o. o.id) (load_options text_before id rows)
  unfolding to_option
  ids_are_own o p m n same =
      let (r, r_here, _, is) = Mem-load_options o m in
      let (s, s_here, _, is') = Mem-load_options p n in
      let one : r ≡ s =
        table.own_ids r s r_here s_here (sym (ap (λ x. x.id) is) ∙ same ∙ ap (λ x. x.id) is') in
      is ∙ ap (to_option text_before) one ∙ sym is'

  values_are_own : IsKey (λ o. o.value) (load_options text_before id rows)
  unfolding to_option
  values_are_own o p m n same =
      let (r, r_here, of_r, is) = Mem-load_options o m in
      let (s, s_here, of_s, is') = Mem-load_options p n in
      let value : r.value ≡ s.value = sym (ap (λ x. x.value) is) ∙ same ∙ ap (λ x. x.value) is' in
      let one : r ≡ s = table.own_values r s r_here s_here (both (of_r ∙ sym of_s) value) in
      is ∙ ap (to_option text_before) one ∙ sym is'

  load_options-own :
      HasOwnIds (load_options text_before id rows) × HasOwnTokens (load_options text_before id rows)
  unfolding option_by_id option_by_value
  load_options-own =
      let options = load_options text_before id rows in
      (
        Mem-All (λ o. option_by_id options o.id ≡ some o) options
            (λ o m.
              find_row-own (λ p. p.id == o.id) (λ p. p.id) options o ids_are_own
                (λ p hit. ==→eq p.id o.id hit) (==_refl o.id) m),
        Mem-All (λ o. option_by_value options o.value ≡ some o) options
            (λ o m.
              find_row-own (λ p. text_eq p.value o.value) (λ p. p.value) options o values_are_own
                (λ p hit. text_eq→eq p.value o.value hit) (text_eq_refl o.value) m),
      )

-- What BindAttribute's category sees of an attribute.
pub record IsField (c : CategoryAttribute) : Type 0 where
  pub key_fits : key_is_valid c.attribute.key ≡ true
  pub type_known : type_is_valid c.attribute.data_type ≡ true
  pub own_ids : HasOwnIds c.attribute.options
  pub own_tokens : HasOwnTokens c.attribute.options

module _ (text_before : Text → Text → Bool) (category_id : ℕ) (attributes : List AttributeRow) where
  abbrev IsJoined : List BindingRow → BindingRow → AttributeRow → Type 0
  IsJoined bindings b a =
      Memᴰ b bindings × Memᴰ a attributes × (b.category_id ≡ category_id) × (a.id ≡ b.attribute_id)

  Mem-join :
      (bindings : List BindingRow) (b : BindingRow) (a : AttributeRow)
      → Memᴰ (b, a) (join_attributes text_before category_id attributes bindings)
      → IsJoined bindings b a
  unfolding join_attributes
  Mem-join [] b a m = elim m [ ]
  Mem-join (c ∷ bindings) b a m =
      let later : Memᴰ (b, a) (join_attributes text_before category_id attributes bindings)
          → IsJoined (c ∷ bindings) b a =
        λ n. let (here, there, own, of) = Mem-join bindings b a n in (tail here, there, own, of) in
      elim (Bool-cases (c.category_id == category_id)) [
        | inr other ↦ later (rw other at m)
        | inl own ↦ elim (Option-cases (find_row (is_attribute c.attribute_id) attributes)) [
          | inl missing ↦ later (rw (own, missing) at m)
          | inr (d, found) ↦ elim (rw (own, found) at m) [
            | tail n ↦ later n
            | head same ↦
                let (there, hit) = find_row-Mem (is_attribute c.attribute_id) attributes d found in
                let b_is : b ≡ c = ap (λ x. x.0) same in
                let a_is : a ≡ d = ap (λ x. x.1) same in
                rw (b_is, a_is)
                  (
                    head refl,
                    there,
                    ==→eq c.category_id category_id own,
                    ==→eq d.id c.attribute_id hit,
                  )
          ]
        ]
      ]

module _ {F : Type 0} (text_before : Text → Text → Bool) (registry : Registry F)
    (attributes : IsAttributeTable registry.attributes)
    (options : IsOptionTable registry.attributes registry.attribute_options)
    (bindings : IsBindingTable registry.attributes registry.bindings) (category_id : ℕ) where
  abbrev schema : List CategoryAttribute
  schema = load_schema text_before category_id registry

  Mem-schema :
      (c : CategoryAttribute)
      → Memᴰ c schema
      → (b : BindingRow) × (a : AttributeRow) × IsJoined text_before category_id registry.attributes
          registry.bindings b a
        × (c ≡ to_binding text_before registry.attribute_options (b, a))
  unfolding load_schema
  Mem-schema c m =
      let ((b, a), sorted, same) =
        Mem-map (to_binding text_before registry.attribute_options) _ c m in
      (
        b,
        a,
        Mem-join text_before category_id registry.attributes registry.bindings b a
            (Mem-sort_rows _ _ (b, a) sorted),
        same,
      )

  -- Two bindings of one attribute are the same.
  same_attribute :
      (b b' : BindingRow) (a a' : AttributeRow)
      → IsJoined text_before category_id registry.attributes registry.bindings b a
      → IsJoined text_before category_id registry.attributes registry.bindings b' a'
      → a ≡ a'
      → to_binding text_before registry.attribute_options (b, a)
        ≡ to_binding text_before registry.attribute_options (b', a')
  same_attribute b b' a a' (here, _, own, of) (here', _, own', of') is =
      let one : b ≡ b' =
        bindings.own_ends b b' here here'
          (both (own ∙ sym own') (sym of ∙ ap (λ x. x.id) is ∙ of')) in
      cc (one, is)

  pub load_schema-IsSchema : IsSchema schema
  unfolding to_binding to_attribute
  load_schema-IsSchema =
      IsKey-IsSchema schema
        (λ c d m n same.
          let (b, a, j, is) = Mem-schema c m in
          let (b', a', j', is') = Mem-schema d n in
          let one =
            attributes.own_ids a a' (j.1) (j'.1)
              (sym (ap (λ x. x.attribute.id) is) ∙ same ∙ ap (λ x. x.attribute.id) is') in
          is ∙ same_attribute b b' a a' j j' one ∙ sym is')
        (λ c d m n same.
          let (b, a, j, is) = Mem-schema c m in
          let (b', a', j', is') = Mem-schema d n in
          let one =
            attributes.own_keys a a' (j.1) (j'.1)
              (sym (ap (λ x. x.attribute.key) is) ∙ same ∙ ap (λ x. x.attribute.key) is') in
          is ∙ same_attribute b b' a a' j j' one ∙ sym is')

  pub load_schema-IsField : All IsField schema
  unfolding to_binding to_attribute
  load_schema-IsField = Mem-All IsField schema (λ c m.
      let (b, a, j, is) = Mem-schema c m in
      let (key, type) = attributes.valid a (j.1) in
      let (ids, tokens) =
        load_options-own text_before registry.attributes registry.attribute_options options a.id in
      rw is (record { key_fits = key; type_known = type; own_ids = ids; own_tokens = tokens }))
