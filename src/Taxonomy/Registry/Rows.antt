-- ===== src/Taxonomy/Registry/Rows.antt =====
-- internal/service/taxonomy.go: what inserts, updates and deletions of options and bindings keep.
use mathlib.Core.List.Memᴰ.{head, tail}
use khans_bike.Common.{
  ℕ, ◌∷◌, List, Bool, false, ◌&&◌, ◌==◌, if◌then◌else◌, ◌≡◌, refl, sym, ap, ◌∙◌, inl, inr, arith,
  any, update_rows, delete_rows, ok, Bool-cases, ==_refl,
}
use khans_bike.Common.Keyed.{
  IsKey-cons, IsKey-update_rows, IsKey-delete_rows, Mem-update_rows, Mem-delete_rows, any-Mem,
}
use khans_bike.Common.Text.{text_eq, text_eq_refl}
use khans_bike.Taxonomy.Registry.{
  AttributeRow, OptionRow, BindingRow, is_attribute, is_binding, has_value, insert_option,
  upsert_binding, replace_binding,
}
use khans_bike.Taxonomy.Registry.Kept.{
  Owner, TakesOptions, IsOptionTable, IsBindingTable, value_key, ends, missed_id, any-Owner,
  Owner-delete,
}

-- CreateAttributeOption, for an attribute that uses options.
pub insert_option-kept :
    (attributes : List AttributeRow) (o : OptionRow) (rows rows' : List OptionRow)
    → IsOptionTable attributes rows
    → Owner attributes o.attribute_id TakesOptions
    → insert_option attributes o rows ≡ ok rows'
    → IsOptionTable attributes rows'
unfolding insert_option
insert_option-kept attributes o rows rows' table owner h =
    elim (Bool-cases (any (λ p. p.id == o.id) rows)) [
      | inl hit ↦ cc
      | inr new_id ↦ elim (Bool-cases (any (has_value o.attribute_id o.value) rows)) [
        | inl hit ↦ cc
        | inr new_value ↦ elim (Bool-cases (any (is_attribute o.attribute_id) attributes)) [
          | inr none_there ↦ cc
          | inl there ↦
              let same : (o ∷ rows) ≡ rows' = cc in
              rw (sym same) (record {
                own_ids =
                    IsKey-cons (λ p. p.id) o rows table.own_ids
                      (missed_id (λ p. p.id) rows o.id new_id);
                own_values = IsKey-cons value_key o rows table.own_values (λ p m keys.
                    let out = any-Mem (has_value o.attribute_id o.value) rows p new_value m in
                    let one = ap (λ k. k.0 == o.attribute_id) keys ∙ ==_refl o.attribute_id in
                    let two = ap (λ k. text_eq k.1 o.value) keys ∙ text_eq_refl o.value in
                    absurd (ground (arith, out, one, two)));
                owners = λ p m. elim m [ head is ↦ rw is owner | tail m' ↦ table.owners p m' ];
              })
        ]
      ]
    ]

-- UpdateAttributeOption leaves the value and the attribute alone.
pub update_options-kept :
    (p : OptionRow → Bool) (f : OptionRow → OptionRow)
    → ((o : OptionRow) → (f o).id ≡ o.id)
    → ((o : OptionRow) → value_key (f o) ≡ value_key o)
    → (attributes : List AttributeRow) (rows : List OptionRow) → IsOptionTable attributes rows
    → IsOptionTable attributes (update_rows p f rows)
update_options-kept p f ids values attributes rows table = record {
  own_ids = IsKey-update_rows (λ o. o.id) p f ids rows table.own_ids;
  own_values = IsKey-update_rows value_key p f values rows table.own_values;
  owners = λ o m.
      let (q, here, same) = Mem-update_rows p f rows o m in
      let same' : o.attribute_id ≡ q.attribute_id = ap (λ r. r.attribute_id) same ∙ stays q in
      rw same' (table.owners q here);
}
  where
    stays : (q : OptionRow) → (if p q then f q else q).attribute_id ≡ q.attribute_id
    stays q = elim (Bool-cases (p q)) [
      | inl hit ↦ rw hit (ap (λ k. k.0) (values q))
      | inr miss ↦ rw miss refl
    ]

pub delete_options-kept :
    (p : OptionRow → Bool) (attributes : List AttributeRow) (rows : List OptionRow)
    → IsOptionTable attributes rows
    → IsOptionTable attributes (delete_rows p rows)
delete_options-kept p attributes rows table = record {
  own_ids = IsKey-delete_rows (λ o. o.id) p rows table.own_ids;
  own_values = IsKey-delete_rows value_key p rows table.own_values;
  owners = λ o m. table.owners o (Mem-delete_rows p rows o m).0;
}

-- DeleteAttribute takes the options of the attribute with it.
pub cascade-kept :
    (id : ℕ) (attributes : List AttributeRow) (rows : List OptionRow)
    → IsOptionTable attributes rows
    → IsOptionTable
        (delete_rows (is_attribute id) attributes)
        (delete_rows (λ o. o.attribute_id == id) rows)
cascade-kept id attributes rows table =
    let gone : OptionRow → Bool = λ o. o.attribute_id == id in
    record {
      own_ids = IsKey-delete_rows (λ o. o.id) gone rows table.own_ids;
      own_values = IsKey-delete_rows value_key gone rows table.own_values;
      owners = λ o m.
          let (here, apart) = Mem-delete_rows gone rows o m in
          Owner-delete id o.attribute_id TakesOptions attributes apart (table.owners o here);
    }

-- BindCategoryAttribute.
pub upsert_binding-kept :
    (category_exists : ℕ → Bool) (attributes : List AttributeRow) (b : BindingRow)
    (rows rows' : List BindingRow)
    → IsBindingTable attributes rows
    → upsert_binding category_exists attributes b rows ≡ ok rows'
    → IsBindingTable attributes rows'
unfolding upsert_binding replace_binding
upsert_binding-kept category_exists attributes b rows rows' table h =
    elim (Bool-cases
      (category_exists b.category_id && any (is_attribute b.attribute_id) attributes)) [
        | inr missing ↦ cc
        | inl there ↦ elim (Bool-cases (any (is_binding b.category_id b.attribute_id) rows)) [
          | inl bound ↦
              let same : update_rows (is_binding b.category_id b.attribute_id) (replace_binding b)
                    rows
                  ≡ rows' =
                cc in
              rw (sym same) (
                update_bindings-kept (is_binding b.category_id b.attribute_id) (replace_binding b)
                  (λ c. refl) attributes rows table)
          | inr unbound ↦
              let same : (b ∷ rows) ≡ rows' = cc in
              rw (sym same) (record {
                own_ends = IsKey-cons ends b rows table.own_ends (λ c m keys.
                    let out = any-Mem (is_binding b.category_id b.attribute_id) rows c unbound m in
                    let one = ap (λ k. k.0 == b.category_id) keys ∙ ==_refl b.category_id in
                    let two = ap (λ k. k.1 == b.attribute_id) keys ∙ ==_refl b.attribute_id in
                    absurd (ground (arith, out, one, two)));
                owners = λ c m. elim m [
                  | head is ↦ rw is (any-Owner b.attribute_id attributes (ground (arith, there)))
                  | tail m' ↦ table.owners c m'
                ];
              })
        ]
      ]
  where
    update_bindings-kept :
        (p : BindingRow → Bool) (f : BindingRow → BindingRow)
        → ((c : BindingRow) → ends (f c) ≡ ends c)
        → (attributes : List AttributeRow) (rows : List BindingRow) → IsBindingTable attributes rows
        → IsBindingTable attributes (update_rows p f rows)
    update_bindings-kept p f same attributes rows table = record {
      own_ends = IsKey-update_rows ends p f same rows table.own_ends;
      owners = λ c m.
          let (q, here, is) = Mem-update_rows p f rows c m in
          let same' : c.attribute_id ≡ q.attribute_id = ap (λ r. r.attribute_id) is ∙ stays q in
          rw same' (table.owners q here);
    }
      where
        stays : (q : BindingRow) → (if p q then f q else q).attribute_id ≡ q.attribute_id
        stays q = elim (Bool-cases (p q)) [
          | inl hit ↦ rw hit (ap (λ k. k.1) (same q))
          | inr miss ↦ rw miss refl
        ]

-- UnbindCategoryAttribute, and the bindings that go with a category.
pub delete_bindings-kept :
    (p : BindingRow → Bool) (attributes : List AttributeRow) (rows : List BindingRow)
    → IsBindingTable attributes rows
    → IsBindingTable attributes (delete_rows p rows)
delete_bindings-kept p attributes rows table = record {
  own_ends = IsKey-delete_rows ends p rows table.own_ends;
  owners = λ b m. table.owners b (Mem-delete_rows p rows b m).0;
}

-- DeleteAttribute refuses an attribute that is bound.
pub unbound-kept :
    (id : ℕ) (attributes : List AttributeRow) (rows : List BindingRow)
    → any (λ b. b.attribute_id == id) rows ≡ false
    → IsBindingTable attributes rows
    → IsBindingTable (delete_rows (is_attribute id) attributes) rows
unbound-kept id attributes rows unbound table = record {
  own_ends = table.own_ends;
  owners = λ b m.
      Owner-delete id b.attribute_id (λ _. Unit {0}) attributes
        (any-Mem (λ c. c.attribute_id == id) rows b unbound m) (table.owners b m);
}
