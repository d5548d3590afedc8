-- ===== src/Taxonomy/Registry/Kept.antt =====
-- internal/service/taxonomy.go: what the tables of the registry keep, table by table.
use mathlib.Core.List.{Memᴰ}
use mathlib.Core.List.Memᴰ.{head, tail}
use khans_bike.Common.{
  ℕ, ◌∷◌, List, Bool, true, false, ◌==◌, if◌then◌else◌, ◌≡◌, refl, sym, ap, ◌∙◌, inl, inr, any,
  update_rows, delete_rows, ok, Bool-cases, ==→eq, ==_refl,
}
use khans_bike.Common.Keyed.{
  IsKey, IsKey-cons, IsKey-update_rows, IsKey-delete_rows, Mem-update_rows, Mem-delete_rows,
  update_rows-Mem, delete_rows-Mem, any-Mem, any-Mem-some,
}
use khans_bike.Common.Text.{Text, text_eq, text_eq_refl}
use khans_bike.Schema.Attributes.{type_is_valid, uses_options}
use khans_bike.Taxonomy.Registry.{
  AttributeRow, OptionRow, BindingRow, is_attribute, insert_attribute,
}
use khans_bike.Taxonomy.Registry.Inputs.{key_is_valid}

abbrev pub IsAttribute : AttributeRow → Type 0
IsAttribute a = (key_is_valid a.key ≡ true) × (type_is_valid a.data_type ≡ true)

-- Ids and keys are unique, keys and types are as CreateAttribute asks.
pub record IsAttributeTable (rows : List AttributeRow) : Type 0 where
  pub own_ids : IsKey (λ a. a.id) rows
  pub own_keys : IsKey (λ a. a.key) rows
  pub valid : (a : AttributeRow) → Memᴰ a rows → IsAttribute a

-- The attribute that a row refers to.
abbrev pub Owner : List AttributeRow → ℕ → (AttributeRow → Type 0) → Type 0
Owner attributes id P = (a : AttributeRow) × Memᴰ a attributes × (a.id ≡ id) × P a

abbrev pub TakesOptions : AttributeRow → Type 0
TakesOptions a = uses_options a.data_type ≡ true

abbrev pub value_key : OptionRow → ℕ × Text
value_key o = (o.attribute_id, o.value)

abbrev pub ends : BindingRow → ℕ × ℕ
ends b = (b.category_id, b.attribute_id)

-- Ids are unique, values are within an attribute, and the attribute uses options.
pub record IsOptionTable (attributes : List AttributeRow) (rows : List OptionRow) : Type 0 where
  pub own_ids : IsKey (λ o. o.id) rows
  pub own_values : IsKey value_key rows
  pub owners : (o : OptionRow) → Memᴰ o rows → Owner attributes o.attribute_id TakesOptions

-- An attribute is bound to a category once, and exists.
pub record IsBindingTable (attributes : List AttributeRow) (rows : List BindingRow) : Type 0 where
  pub own_ends : IsKey ends rows
  pub owners : (b : BindingRow) → Memᴰ b rows → Owner attributes b.attribute_id (λ _. Unit {0})

-- A table of attributes that still has each attribute of another, with its type.
abbrev pub Covers : List AttributeRow → List AttributeRow → Type 0
Covers before after =
    (a : AttributeRow) → Memᴰ a before → Owner after a.id (λ b. b.data_type ≡ a.data_type)

pub IsOptionTable-Covers :
    (before after : List AttributeRow) (rows : List OptionRow)
    → Covers before after
    → IsOptionTable before rows
    → IsOptionTable after rows
IsOptionTable-Covers before after rows covers table = record {
  own_ids = table.own_ids;
  own_values = table.own_values;
  owners = λ o m.
      let (a, here, same, takes) = table.owners o m in
      let (b, there, same', type) = covers a here in
      (b, there, same' ∙ same, ap uses_options type ∙ takes);
}

pub IsBindingTable-Covers :
    (before after : List AttributeRow) (rows : List BindingRow)
    → Covers before after
    → IsBindingTable before rows
    → IsBindingTable after rows
IsBindingTable-Covers before after rows covers table = record {
  own_ends = table.own_ends;
  owners = λ b m.
      let (a, here, same, _) = table.owners b m in
      let (a', there, same', _) = covers a here in (a', there, same' ∙ same, tt);
}

-- A row that an EXISTS by its key misses does not share the key.
pub missed_id :
    {A : Type 0} (id : A → ℕ) (rows : List A) (k : ℕ)
    → any (λ a. id a == k) rows ≡ false
    → (a : A) → Memᴰ a rows
    → id a ≡ k
    → ⊥
missed_id id rows k missed a m same =
    let out = any-Mem (λ a. id a == k) rows a missed m in cc (out, ap (λ i. i == k) same, ==_refl k)

-- CreateAttribute.
pub insert_attribute-kept :
    (a : AttributeRow) (rows rows' : List AttributeRow)
    → IsAttributeTable rows
    → IsAttribute a
    → insert_attribute a rows ≡ ok rows'
    → IsAttributeTable rows' × Covers rows rows' × Memᴰ a rows'
unfolding insert_attribute
insert_attribute-kept a rows rows' table fine h = elim (Bool-cases (any (is_attribute a.id) rows)) [
  | inl hit ↦ cc
  | inr new_id ↦ elim (Bool-cases (any (λ b. text_eq b.key a.key) rows)) [
    | inl hit ↦ cc
    | inr new_key ↦
        let same : (a ∷ rows) ≡ rows' = cc in
        rw (sym same) (
          record {
            own_ids =
                IsKey-cons (λ b. b.id) a rows table.own_ids
                  (missed_id (λ b. b.id) rows a.id new_id);
            own_keys =
                IsKey-cons (λ b. b.key) a rows table.own_keys
                  (λ b m keys.
                    let out = any-Mem (λ b. text_eq b.key a.key) rows b new_key m in
                    let hit = ap (λ k. text_eq k a.key) keys ∙ text_eq_refl a.key in cc);
            valid = λ b m. elim m [ head is ↦ rw is fine | tail m' ↦ table.valid b m' ];
          },
          (λ b m. (b, tail m, refl, refl)),
          head refl,
        )
  ]
]

-- An update that leaves ids, keys and types alone.
module _ (p : AttributeRow → Bool) (f : AttributeRow → AttributeRow)
    (ids : (a : AttributeRow) → (f a).id ≡ a.id) (keys : (a : AttributeRow) → (f a).key ≡ a.key)
    (types : (a : AttributeRow) → (f a).data_type ≡ a.data_type) where
  fixed :
      (a : AttributeRow)
      → ((if p a then f a else a).id ≡ a.id)
        × ((if p a then f a else a).key ≡ a.key)
        × ((if p a then f a else a).data_type ≡ a.data_type)
  fixed a = elim (Bool-cases (p a)) [
    | inl hit ↦ rw hit (ids a, keys a, types a)
    | inr miss ↦ rw miss (refl, refl, refl)
  ]

  pub update_attributes-kept :
      (rows : List AttributeRow)
      → IsAttributeTable rows
      → IsAttributeTable (update_rows p f rows) × Covers rows (update_rows p f rows)
  update_attributes-kept rows table = (
    record {
      own_ids = IsKey-update_rows (λ a. a.id) p f ids rows table.own_ids;
      own_keys = IsKey-update_rows (λ a. a.key) p f keys rows table.own_keys;
      valid = λ b m.
          let (a, here, same) = Mem-update_rows p f rows b m in
          let (key, type) = table.valid a here in
          let (_, key', type') = fixed a in
          (
            ap (λ r. key_is_valid r.key) same ∙ ap key_is_valid key' ∙ key,
            ap (λ r. type_is_valid r.data_type) same ∙ ap type_is_valid type' ∙ type,
          );
    },
    (λ a m.
        let (id', _, type') = fixed a in
        ((if p a then f a else a), update_rows-Mem p f rows a m, id', type')),
  )

-- DeleteAttribute, together with the options of the attribute.
pub delete_attribute-kept :
    (id : ℕ) (rows : List AttributeRow)
    → IsAttributeTable rows
    → IsAttributeTable (delete_rows (is_attribute id) rows)
delete_attribute-kept id rows table = record {
  own_ids = IsKey-delete_rows (λ a. a.id) (is_attribute id) rows table.own_ids;
  own_keys = IsKey-delete_rows (λ a. a.key) (is_attribute id) rows table.own_keys;
  valid = λ a m. table.valid a (Mem-delete_rows (is_attribute id) rows a m).0;
}

-- The owner of a row that refers to another attribute than the deleted one.
pub Owner-delete :
    (id other : ℕ) (P : AttributeRow → Type 0) (attributes : List AttributeRow)
    → (other == id) ≡ false
    → Owner attributes other P
    → Owner (delete_rows (is_attribute id) attributes) other P
Owner-delete id other P attributes apart (a, m, same, holds) = (
  a,
  delete_rows-Mem (is_attribute id) attributes a m (ap (λ i. i == id) same ∙ apart),
  same,
  holds,
)

-- An attribute that a foreign key finds.
pub any-Owner :
    (id : ℕ) (attributes : List AttributeRow)
    → any (is_attribute id) attributes ≡ true
    → Owner attributes id (λ _. Unit {0})
any-Owner id attributes h =
    let (a, m, hit) = any-Mem-some (is_attribute id) attributes h in (a, m, ==→eq a.id id hit, tt)
