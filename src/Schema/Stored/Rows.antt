-- ===== src/Schema/Stored/Rows.antt =====
-- internal/service/products.go: the rows that insertValues makes of values with different keys.
use mathlib.Core.Path.{subst}
use khans_bike.Common.{
  ℕ, [], ◌∷◌, ◌++◌, List, Bool, true, false, ◌≡◌, refl, sym, ap, ◌∙◌, inl, inr, arith,
  if◌then◌else◌, any, any-append, All, All-imp, All-append, Bool-cases, map, append_assoc,
  append-nil, ==_refl,
}
use khans_bike.Schema.Attributes.{AttributeValue}
use khans_bike.Schema.Values.{deref}
use khans_bike.Schema.Stored.{
  ProductAttributeValue, base_row, option_rows, rows_of_ids, value_rows, attribute_value, is_key,
}
use khans_bike.Schema.Stored.Keys.{ids_at, AgreesWith, slots_of}

abbrev pub is_key_of : {F : Type 0} → AttributeValue F → AttributeValue F → Bool
is_key_of v w = is_key v.attribute_id (deref 0 v.variant_id) w

-- No two values are of one attribute at one place.
abbrev pub HasDistinctKeys : {F : Type 0} → List (AttributeValue F) → Type 0
HasDistinctKeys [] = Unit
HasDistinctKeys (v ∷ values) = All (λ w. is_key_of v w ≡ false) values × HasDistinctKeys values

-- Rows as they are read back.
abbrev pub made : {F : Type 0} → List (ProductAttributeValue F) → List (AttributeValue F)
made = map attribute_value

map-append_rows :
    {F : Type 0} (xs ys : List (ProductAttributeValue F)) → made (xs ++ ys) ≡ made xs ++ made ys
map-append_rows [] ys = refl
map-append_rows (x ∷ xs) ys = ap (λ l. attribute_value x ∷ l) (map-append_rows xs ys)

-- What the rows have of a value that is the only one of its key.
pub record IsStored {F : Type 0} (v : AttributeValue F) (rows : List (AttributeValue F))
    : Type 0 where
  pub agree : All (AgreesWith v.attribute_id (deref 0 v.variant_id) v) rows
  pub present : any (is_key_of v) rows ≡ true
  pub ids : ids_at v.attribute_id (deref 0 v.variant_id) rows ≡ v.option_ids

module _ {F : Type 0} (product attr variant : ℕ) where
  -- The rows of one value, read back.
  abbrev pub IsMadeOf : AttributeValue F → List ℕ → List (AttributeValue F) → Type 0
  IsMadeOf v ids rows =
      All
        (λ r.
          (is_key attr variant r ≡ is_key attr variant v)
          × (slots_of attr variant r ≡ slots_of attr variant v))
        rows
      × (ids_at attr variant rows ≡ (if is_key attr variant v then ids else []))

  option_rows-IsMadeOf :
      (v : AttributeValue F) (ids : List ℕ)
      → IsMadeOf v ids (made (option_rows (base_row product v) ids))
  unfolding option_rows base_row attribute_value
  option_rows-IsMadeOf v [] = (
    tt,
    elim (Bool-cases (is_key attr variant v)) [ inl hit ↦ rw hit refl | inr miss ↦ rw miss refl ],
  )
  option_rows-IsMadeOf v (id ∷ ids) =
      let (rows, later) = option_rows-IsMadeOf v ids in
      (
        ((refl, refl), rows),
        (elim (Bool-cases (is_key attr variant v)) [
          | inl hit ↦ rw hit (ap (λ l. id ∷ l) (later ∙ (rw hit refl)))
          | inr miss ↦ rw miss (later ∙ (rw miss refl))
        ]),
      )

  any-const :
      (b : Bool) (r : AttributeValue F) (rows : List (AttributeValue F))
      → All (λ x. is_key attr variant x ≡ b) (r ∷ rows)
      → any (is_key attr variant) (r ∷ rows) ≡ b
  any-const b r [] (same, h) = ground (arith, same)
  any-const b r (x ∷ rows) (same, h) = ground (arith, same, any-const b x rows h)

  keys_of :
      (v : AttributeValue F) (rows : List (AttributeValue F))
      → All
          (λ r.
            (is_key attr variant r ≡ is_key attr variant v)
            × (slots_of attr variant r ≡ slots_of attr variant v))
          rows
      → All (λ r. is_key attr variant r ≡ is_key attr variant v) rows
  keys_of v rows =
      All-imp
        (λ r.
          (is_key attr variant r ≡ is_key attr variant v)
          × (slots_of attr variant r ≡ slots_of attr variant v))
        (λ r. is_key attr variant r ≡ is_key attr variant v) (λ r h. h.0) rows

  rows_of_ids-IsMadeOf :
      (v : AttributeValue F) (ids : List ℕ)
      → IsMadeOf v ids (made (rows_of_ids (base_row product v) ids))
        × (any (is_key attr variant) (made (rows_of_ids (base_row product v) ids))
            ≡ is_key attr variant v)
  unfolding option_rows base_row attribute_value
  rows_of_ids-IsMadeOf v [] = (
    (
      ((refl, refl), tt),
      (elim (Bool-cases (is_key attr variant v)) [
        | inl hit ↦ rw hit refl
        | inr miss ↦ rw miss refl
      ]),
    ),
    any-const (is_key attr variant v) (record v { option_ids = [] }) [] (refl, tt),
  )
  rows_of_ids-IsMadeOf v (id ∷ ids) =
      let (rows, found) = option_rows-IsMadeOf v (id ∷ ids) in
      (
        (rows, found),
        any-const (is_key attr variant v) (record v { option_ids = id ∷ [] })
            (made (option_rows (base_row product v) ids))
            (keys_of v (made (option_rows (base_row product v) (id ∷ ids))) rows),
      )

  ids_at-append :
      (xs ys : List (AttributeValue F))
      → ids_at attr variant (xs ++ ys) ≡ ids_at attr variant xs ++ ids_at attr variant ys
  ids_at-append [] ys = refl
  ids_at-append (x ∷ xs) ys = elim (Bool-cases (is_key attr variant x)) [
    | inl hit ↦ rw hit (
        ap (λ l. x.option_ids ++ l) (ids_at-append xs ys)
        ∙ sym (append_assoc x.option_ids (ids_at attr variant xs) (ids_at attr variant ys)))
    | inr miss ↦ rw miss (ids_at-append xs ys)
  ]

  -- The rows of a value of another key.
  abbrev pub IsApart : AttributeValue F → List (AttributeValue F) → Type 0
  IsApart v rows =
      All (AgreesWith attr variant v) rows
      × (any (is_key attr variant) rows ≡ false)
      × (ids_at attr variant rows ≡ [])

  other_value-IsApart :
      (v w : AttributeValue F)
      → is_key attr variant w ≡ false
      → IsApart v (made (rows_of_ids (base_row product w) w.option_ids))
  other_value-IsApart v w apart =
      let ((rows, found), present) = rows_of_ids-IsMadeOf w w.option_ids in
      (
        All-imp
            (λ r.
              (is_key attr variant r ≡ is_key attr variant w)
              × (slots_of attr variant r ≡ slots_of attr variant w))
            (AgreesWith attr variant v) (λ r h hit. absurd (ground (arith, h.0, hit, apart)))
            (made (rows_of_ids (base_row product w) w.option_ids)) rows,
        present ∙ apart,
        found ∙ (rw apart refl),
      )

  other_values-IsApart :
      (v : AttributeValue F) (values : List (AttributeValue F))
      → All (λ w. is_key attr variant w ≡ false) values
      → IsApart v (made (value_rows product values))
  unfolding value_rows
  other_values-IsApart v [] h = (tt, refl, refl)
  other_values-IsApart v (w ∷ values) (apart, h) =
      let (agree, missing, none_here) = other_value-IsApart v w apart in
      let (agree', missing', none_there) = other_values-IsApart v values h in
      let here = made (rows_of_ids (base_row product w) w.option_ids) in
      let there = made (value_rows product values) in
      rw
        (map-append_rows (rows_of_ids (base_row product w) w.option_ids)
          (value_rows product values))
        (
          All-append (AgreesWith attr variant v) here there agree agree',
          any-append (is_key attr variant) here there ∙ ground (arith, missing, missing'),
          ids_at-append here there ∙ (rw (none_here, none_there) refl),
        )

module _ {F : Type 0} (product : ℕ) where
  abbrev rows_of : AttributeValue F → List (AttributeValue F)
  rows_of v = made (rows_of_ids (base_row product v) v.option_ids)

  first-IsStored :
      (v : AttributeValue F) (values : List (AttributeValue F))
      → All (λ w. is_key_of v w ≡ false) values
      → IsStored v (rows_of v ++ made (value_rows product values))
  first-IsStored v values h =
      let attr = v.attribute_id in
      let variant = deref 0 v.variant_id in
      let own : is_key attr variant v ≡ true = ground (arith, ==_refl attr, ==_refl variant) in
      let ((rows, found), present) = rows_of_ids-IsMadeOf product attr variant v v.option_ids in
      let (agree', missing', none_there) = other_values-IsApart product attr variant v values h in
      let there = made (value_rows product values) in
      record {
        agree =
            All-append (AgreesWith attr variant v) (rows_of v) there
              (All-imp
                (λ r.
                  (is_key attr variant r ≡ is_key attr variant v)
                  × (slots_of attr variant r ≡ slots_of attr variant v))
                (AgreesWith attr variant v) (λ r e hit. e.1) (rows_of v) rows)
              agree';
        present = any-append (is_key attr variant) (rows_of v) there ∙ ground (arith, present, own);
        ids =
            ids_at-append product attr variant (rows_of v) there
            ∙ (rw (found, none_there) (rw own (append-nil v.option_ids)));
      }

  later-IsStored :
      (v w : AttributeValue F) (rows : List (AttributeValue F))
      → is_key_of v w ≡ false
      → IsStored w rows
      → IsStored w (rows_of v ++ rows)
  later-IsStored v w rows apart stored =
      let attr = w.attribute_id in
      let variant = deref 0 w.variant_id in
      let other : is_key attr variant v ≡ false = ground (arith, apart) in
      let (agree, missing, none_here) = other_value-IsApart product attr variant w v other in
      record {
        agree = All-append (AgreesWith attr variant w) (rows_of v) rows agree stored.agree;
        present =
            any-append (is_key attr variant) (rows_of v) rows
            ∙ ground (arith, missing, stored.present);
        ids = ids_at-append product attr variant (rows_of v) rows ∙ (rw none_here stored.ids);
      }

  pub value_rows-IsStored :
      (values : List (AttributeValue F))
      → HasDistinctKeys values
      → All (λ v. IsStored v (made (value_rows product values))) values
  unfolding value_rows
  value_rows-IsStored [] distinct = tt
  value_rows-IsStored (v ∷ values) (apart, distinct) =
      subst (λ l. All (λ w. IsStored w l) (v ∷ values))
        (sym (
          map-append_rows (rows_of_ids (base_row product v) v.option_ids)
            (value_rows product values)))
        (first-IsStored v values apart, later values apart (value_rows-IsStored values distinct))
    where
      later :
          (ws : List (AttributeValue F))
          → All (λ w. is_key_of v w ≡ false) ws
          → All (λ w. IsStored w (made (value_rows product values))) ws
          → All (λ w. IsStored w (rows_of v ++ made (value_rows product values))) ws
      later [] h stored = tt
      later (w ∷ ws) (off, h) (stored, rest) =
          (later-IsStored v w (made (value_rows product values)) off stored, later ws h rest)
