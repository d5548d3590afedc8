-- ===== src/Products/Inputs/Entries.antt =====
-- internal/service/products.go: what the parts of a document come to that validateDocument finds no
-- fault with.
use mathlib.Core.Path.{subst}
use khans_bike.Common.{
  ℕ, [], ◌∷◌, List, Bool, true, false, not, ◌&&◌, ◌==◌, Option, some, differ, ◌≡◌, refl, sym, ap,
  ◌∙◌, inl, inr, arith, ok, any, All, All-append, Bool-cases, Option-cases, Result-cases, ==_refl,
  >>=-eq-ok, All-imp, length, ◌≤◌, append-nil_left, append-nil_right, any-append,
}
use khans_bike.Common.Int.{is_neg}
use khans_bike.Common.Text.{Text, text_eq, text_eq→eq}
use khans_bike.Domain.Price.{PriceTier, tier_is_valid, tier_currency}
use khans_bike.Platform.Money.{Money, parse_money}
use khans_bike.Products.Inputs.{
  is_null, value_at, field_in, bound_entry, read_entry, read_attributes, missing, read_price,
  read_prices,
}
use khans_bike.Schema.Attributes.{AttributeValue, fits, new_attribute_value}
use khans_bike.Schema.Values.{Json, decode_value, decode_slots}
use khans_bike.Schema.Views.{CategoryAttribute, Formats, by_key}
use khans_bike.Service.Validation.{add_field}

pub add_field-nil : (bad : Bool) (field : Text) → add_field bad field ≡ [] → bad ≡ false
add_field-nil true field h = cc
add_field-nil false field h = refl

same_level : (a b : Bool) → differ a b ≡ false → a ≡ b
same_level true true h = refl
same_level true false h = cc
same_level false true h = cc
same_level false false h = refl

-- A price that may be recorded: of a known tier, not negative.
abbrev pub IsPriceInput : PriceTier × Money → Type 0
IsPriceInput (tier, m) = (tier_is_valid tier ≡ true) × (is_neg m.amount_minor ≡ false)

module _ (upper : Text → Text) where
  pub read_price-IsPriceInput :
      (prefix : Text) (tier : PriceTier) (amount : Text)
      → All IsPriceInput ((read_price upper prefix tier amount).0)
  unfolding read_price
  read_price-IsPriceInput prefix tier amount = elim (Bool-cases (tier_is_valid tier)) [
    | inr unknown ↦ rw unknown tt
    | inl known ↦ rw known (elim (Result-cases (parse_money upper amount (tier_currency tier))) [
      | inl (e, bad) ↦ rw bad tt
      | inr (m, read) ↦ rw read (elim (Bool-cases (is_neg m.amount_minor)) [
        | inl negative ↦ rw negative tt
        | inr fine ↦ rw fine ((known, fine), tt)
      ])
    ])
  ]

  pub read_prices-IsPriceInput :
      (prefix : Text) (prices : List (PriceTier × Text))
      → All IsPriceInput ((read_prices upper prefix prices).0)
  unfolding read_prices
  read_prices-IsPriceInput prefix [] = tt
  read_prices-IsPriceInput prefix ((tier, amount) ∷ prices) =
      All-append IsPriceInput _ _ (read_price-IsPriceInput prefix tier amount)
        (read_prices-IsPriceInput prefix prices)

module _ {F : Type 0} (formats : Formats F) (json : Json F Text) where
  -- A value of a level under a key: of the attribute that the key is bound to, of that level, at the
  -- product or the variant in question, in the slot of the attribute's type.
  pub record IsValueAt (axis : Bool) (variant_id : Option ℕ) (bindings : List CategoryAttribute)
      (key : Text) (v : AttributeValue F) : Type 0 where
    pub binding : CategoryAttribute
    pub bound : by_key bindings key ≡ some binding
    pub level : binding.is_variant_axis ≡ axis
    pub attribute : v.attribute_id ≡ binding.attribute.id
    pub place : v.variant_id ≡ variant_id
    pub slot : fits (formats.floats) binding.attribute.data_type v ≡ true

  abbrev pub IsValueOf : Bool → Option ℕ → List CategoryAttribute → AttributeValue F → Type 0
  IsValueOf axis variant_id bindings v = (key : Text) × IsValueAt axis variant_id bindings key v

  decode_value-fits :
      (b : CategoryAttribute) (raw : Text) (variant_id : Option ℕ) (v : AttributeValue F)
      → decode_value (formats.floats) json b.attribute raw variant_id ≡ ok v
      → (v.attribute_id ≡ b.attribute.id)
        × (v.variant_id ≡ variant_id)
        × (fits (formats.floats) b.attribute.data_type v ≡ true)
  unfolding decode_value new_attribute_value
  decode_value-fits b raw variant_id v h =
      let (av, _, built) =
        >>=-eq-ok (decode_slots (formats.floats) json b.attribute.data_type b.attribute.options raw)
          _ h in
      let av' = record av { attribute_id = b.attribute.id; variant_id = variant_id } in
      elim (Bool-cases (fits (formats.floats) b.attribute.data_type av')) [
        | inl good ↦
            let same : av' ≡ v = ground (arith, good, built) in
            (
              sym (ap (λ x. x.attribute_id) same),
              sym (ap (λ x. x.variant_id) same),
              ap (fits (formats.floats) b.attribute.data_type) (sym same) ∙ good,
            )
        | inr bad ↦ ground (arith, bad, built)
      ]

  -- An entry gives at most one value, of its key.
  pub read_entry-IsValueAt :
      (axis : Bool) (variant_id : Option ℕ) (prefix : Text) (bindings : List CategoryAttribute)
      → (key raw : Text)
      → All
          (IsValueAt axis variant_id bindings key)
          ((read_entry formats json axis variant_id prefix bindings key raw).0)
        × (length ((read_entry formats json axis variant_id prefix bindings key raw).0) ≤ 1)
  unfolding read_entry bound_entry
  read_entry-IsValueAt axis variant_id prefix bindings key raw = elim (Bool-cases (is_null raw)) [
    | inl null ↦ rw null (tt, omega arith)
    | inr set ↦ rw set (elim (Option-cases (by_key bindings key)) [
      | inl unbound ↦ rw unbound (tt, omega arith)
      | inr (b, bound) ↦ rw bound (elim (Bool-cases (differ b.is_variant_axis axis)) [
        | inl other ↦ rw other (tt, omega arith)
        | inr level ↦
            rw level
              (elim (Result-cases (decode_value (formats.floats) json b.attribute raw variant_id)) [
                | inl (e, bad) ↦ rw bad (tt, omega arith)
                | inr (v, read) ↦
                    let (attribute, place, good) = decode_value-fits b raw variant_id v read in
                    rw read (
                      (
                        record {
                          binding = b;
                          bound = bound;
                          level = same_level b.is_variant_axis axis level;
                          attribute = attribute;
                          place = place;
                          slot = good;
                        },
                        tt,
                      ),
                      omega arith,
                    )
              ])
      ])
    ])
  ]

  pub read_attributes-IsValueOf :
      (axis : Bool) (variant_id : Option ℕ) (prefix : Text) (bindings : List CategoryAttribute)
      → (entries : List (Text × Text))
      → All
          (IsValueOf axis variant_id bindings)
          ((read_attributes formats json axis variant_id prefix bindings entries).0)
  unfolding read_attributes
  read_attributes-IsValueOf axis variant_id prefix bindings [] = tt
  read_attributes-IsValueOf axis variant_id prefix bindings ((key, raw) ∷ entries) =
      All-append (IsValueOf axis variant_id bindings) _ _
        (All-imp (IsValueAt axis variant_id bindings key) (IsValueOf axis variant_id bindings)
          (λ v h. (key, h)) ((read_entry formats json axis variant_id prefix bindings key raw).0)
          ((read_entry-IsValueAt axis variant_id prefix bindings key raw).0))
        (read_attributes-IsValueOf axis variant_id prefix bindings entries)

  abbrev pub has_value : ℕ → List (AttributeValue F) → Bool
  has_value id values = any (λ v. v.attribute_id == id) values

  read_entry-has_value :
      (axis : Bool) (variant_id : Option ℕ) (prefix : Text) (bindings : List CategoryAttribute)
      → (b : CategoryAttribute) (raw : Text) → by_key bindings b.attribute.key ≡ some b
      → (read_entry formats json axis variant_id prefix bindings b.attribute.key raw).1 ≡ []
      → is_null raw ≡ false
      → has_value b.attribute.id
          ((read_entry formats json axis variant_id prefix bindings b.attribute.key raw).0)
        ≡ true
  unfolding read_entry bound_entry
  read_entry-has_value axis variant_id prefix bindings b raw own fine set =
      elim (Bool-cases (differ b.is_variant_axis axis)) [
        | inl other ↦ absurd (ground (arith, own, other, set, fine))
        | inr level ↦
            elim (Result-cases (decode_value (formats.floats) json b.attribute raw variant_id)) [
              | inl (e, bad) ↦ absurd (ground (arith, own, level, set, bad, fine))
              | inr (v, read) ↦
                  let (attribute, variant, good) = decode_value-fits b raw variant_id v read in
                  let hit : (v.attribute_id == b.attribute.id) ≡ true =
                    rw attribute (==_refl b.attribute.id) in
                  rw (set, own, level, read, hit) refl
            ]
      ]

  -- An entry that is not null gives its attribute a value, unless it is in error.
  pub read_attributes-has_value :
      (axis : Bool) (variant_id : Option ℕ) (prefix : Text) (bindings : List CategoryAttribute)
      → (entries : List (Text × Text)) (b : CategoryAttribute)
      → by_key bindings b.attribute.key ≡ some b
      → (read_attributes formats json axis variant_id prefix bindings entries).1 ≡ []
      → is_null (value_at entries b.attribute.key) ≡ false
      → has_value b.attribute.id
          ((read_attributes formats json axis variant_id prefix bindings entries).0)
        ≡ true
  unfolding read_attributes value_at is_null
  read_attributes-has_value axis variant_id prefix bindings [] b own fine set = cc
  read_attributes-has_value axis variant_id prefix bindings ((key, raw) ∷ entries) b own fine set =
      let here = read_entry formats json axis variant_id prefix bindings key raw in
      let rest = read_attributes formats json axis variant_id prefix bindings entries in
      rw (any-append (λ v. v.attribute_id == b.attribute.id) (here.0) (rest.0))
        (elim (Bool-cases (text_eq key b.attribute.key)) [
          | inl hit ↦
              let same = text_eq→eq key b.attribute.key hit in
              let fine' =
                subst (λ k. (read_entry formats json axis variant_id prefix bindings k raw).1 ≡ [])
                  same (append-nil_left (here.1) (rest.1) fine) in
              let now : any (λ v. v.attribute_id == b.attribute.id) (here.0) ≡ true =
                subst
                  (λ k.
                    any (λ v. v.attribute_id == b.attribute.id)
                      ((read_entry formats json axis variant_id prefix bindings k raw).0)
                    ≡ true)
                  (sym same)
                  (read_entry-has_value axis variant_id prefix bindings b raw own fine'
                    (ground (arith, hit, set))) in
              ground (arith, now)
          | inr miss ↦
              let later =
                read_attributes-has_value axis variant_id prefix bindings entries b own
                  (append-nil_right (here.1) (rest.1) fine) (ground (arith, miss, set)) in
              ground (arith, later)
        ])

-- What `missing` finds to be there.
pub missing-none :
    (axis : Bool) (prefix : Text) (bindings : List CategoryAttribute) (entries : List (Text × Text))
    → missing axis prefix bindings entries ≡ []
    → All
        (λ b.
          b.is_required ≡ true
          → b.is_variant_axis ≡ axis
          → is_null (value_at entries b.attribute.key) ≡ false)
        bindings
unfolding missing
missing-none axis prefix [] entries fine = tt
missing-none axis prefix (b ∷ bindings) entries fine =
    let bad =
      b.is_required
      && not (differ b.is_variant_axis axis)
      && is_null (value_at entries b.attribute.key) in
    let first = add_field bad (field_in prefix b.attribute.key) in
    let off = add_field-nil bad (field_in prefix b.attribute.key) (append-nil_left first _ fine) in
    (
      λ required level. ground (arith, off, required, level),
      missing-none axis prefix bindings entries (append-nil_right first _ fine),
    )

-- The keys of a category's attributes are unique.
abbrev pub HasOwnKeys : List CategoryAttribute → Type 0
HasOwnKeys bindings = All (λ b. by_key bindings b.attribute.key ≡ some b) bindings

module _ {F : Type 0} (formats : Formats F) (json : Json F Text) where
  -- Every required attribute of a level has a value.
  abbrev pub IsComplete : Bool → List CategoryAttribute → List (AttributeValue F) → Type 0
  IsComplete axis bindings values =
      All
        (λ b.
          b.is_required ≡ true
          → b.is_variant_axis ≡ axis
          → has_value formats json b.attribute.id values ≡ true)
        bindings

  complete :
      (axis : Bool) (variant_id : Option ℕ) (prefix : Text) (all_bindings : List CategoryAttribute)
      → (entries : List (Text × Text)) (bindings : List CategoryAttribute)
      → All (λ b. by_key all_bindings b.attribute.key ≡ some b) bindings
      → (read_attributes formats json axis variant_id prefix all_bindings entries).1 ≡ []
      → All
          (λ b.
            b.is_required ≡ true
            → b.is_variant_axis ≡ axis
            → is_null (value_at entries b.attribute.key) ≡ false)
          bindings
      → IsComplete axis bindings
          ((read_attributes formats json axis variant_id prefix all_bindings entries).0)
  complete axis variant_id prefix all_bindings entries [] own fine set = tt
  complete axis variant_id prefix all_bindings entries (b ∷ bindings) (o, own) fine (s, set) = (
    λ required level.
        read_attributes-has_value formats json axis variant_id prefix all_bindings entries b o fine
          (s required level),
    complete axis variant_id prefix all_bindings entries bindings own fine set,
  )

  pub read_attributes-IsComplete :
      (axis : Bool) (variant_id : Option ℕ) (prefix : Text) (bindings : List CategoryAttribute)
      → (entries : List (Text × Text)) → HasOwnKeys bindings
      → (read_attributes formats json axis variant_id prefix bindings entries).1 ≡ []
      → missing axis prefix bindings entries ≡ []
      → IsComplete axis bindings
          ((read_attributes formats json axis variant_id prefix bindings entries).0)
  read_attributes-IsComplete axis variant_id prefix bindings entries own fine nothing =
      complete axis variant_id prefix bindings entries bindings own fine
        (missing-none axis prefix bindings entries nothing)
