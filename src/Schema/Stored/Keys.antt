-- ===== src/Schema/Stored/Keys.antt =====
-- internal/service/schema.go: what mergeValues finds under a key, row by row.
use khans_bike.Common.{
  ℕ, [], ◌∷◌, ◌++◌, List, true, false, Option, none, some, ◌≡◌, refl, ap, ◌∙◌, inl, inr, arith,
  if◌then◌else◌, find_row, any, All, Bool-cases, append_assoc, append-nil,
}
use khans_bike.Schema.Attributes.{AttributeValue}
use khans_bike.Schema.Values.{deref}
use khans_bike.Schema.Stored.{is_key, join_value, merge_loop}

module _ {F : Type 0} (attr variant : ℕ) (r v : AttributeValue F) where
  key_same :
      is_key r.attribute_id (deref 0 r.variant_id) v ≡ true
      → is_key attr variant v ≡ is_key attr variant r
  key_same same = ground (arith, same)

  key_other :
      is_key r.attribute_id (deref 0 r.variant_id) v ≡ false
      → is_key attr variant r ≡ true
      → is_key attr variant v ≡ false
  key_other other hit = ground (arith, other, hit)

module _ {F : Type 0} (attr variant : ℕ) where
  -- A value without its options.
  abbrev pub slots_of : AttributeValue F → AttributeValue F
  slots_of v = record v { option_ids = [] }

  abbrev pub ids_in : Option (AttributeValue F) → List ℕ
  ids_in none = []
  ids_in (some v) = v.option_ids

  abbrev pub extend : Option (AttributeValue F) → AttributeValue F → AttributeValue F
  extend none r = r
  extend (some v) r = record v { option_ids = v.option_ids ++ r.option_ids }

  abbrev pub find_value : List (AttributeValue F) → Option (AttributeValue F)
  find_value values = find_row (is_key attr variant) values

  find_value-join_value :
      (r : AttributeValue F) (out : List (AttributeValue F))
      → find_value (join_value r out)
        ≡ (if is_key attr variant r then some (extend (find_value out) r) else find_value out)
  unfolding join_value
  find_value-join_value r [] = refl
  find_value-join_value r (v ∷ out) =
      elim (Bool-cases (is_key r.attribute_id (deref 0 r.variant_id) v)) [
        | inl same ↦ rw same (elim (Bool-cases (is_key attr variant r)) [
          | inl hit ↦ rw (hit, key_same attr variant r v same, hit) refl
          | inr miss ↦ rw (miss, key_same attr variant r v same, miss) refl
        ])
        | inr other ↦ rw other (elim (Bool-cases (is_key attr variant r)) [
          | inl hit ↦
              rw (hit, key_other attr variant r v other hit)
                (find_value-join_value r out ∙ (rw hit refl))
          | inr miss ↦ rw miss (elim (Bool-cases (is_key attr variant v)) [
            | inl own ↦ rw own refl
            | inr not_own ↦ rw not_own (find_value-join_value r out ∙ (rw miss refl))
          ])
        ])
      ]

  -- The options of the rows of the key, in their order.
  abbrev pub ids_at : List (AttributeValue F) → List ℕ
  ids_at [] = []
  ids_at (r ∷ rows) =
      let rest = ids_at rows in if is_key attr variant r then r.option_ids ++ rest else rest

  -- What a row of the key has in its slots.
  abbrev pub AgreesWith : AttributeValue F → AttributeValue F → Type 0
  AgreesWith base r = is_key attr variant r ≡ true → slots_of r ≡ slots_of base

  pub merge_loop-found :
      (base : AttributeValue F) (rows out : List (AttributeValue F))
      → All (AgreesWith base) rows
      → (ids : List ℕ) → find_value out ≡ some (record base { option_ids = ids })
      → find_value (merge_loop out rows) ≡ some (record base { option_ids = ids ++ ids_at rows })
  unfolding merge_loop
  merge_loop-found base [] out agree ids found = rw (append-nil ids) found
  merge_loop-found base (r ∷ rows) out (same, agree) ids found =
      elim (Bool-cases (is_key attr variant r)) [
        | inl hit ↦
            let next : find_value (join_value r out)
                ≡ some (record base { option_ids = ids ++ r.option_ids }) =
              find_value-join_value r out ∙ (rw (hit, found) refl) in
            rw hit (
              merge_loop-found base rows (join_value r out) agree (ids ++ r.option_ids) next
              ∙ ap (λ l. some (record base { option_ids = l }))
                  (append_assoc ids r.option_ids (ids_at rows)))
        | inr miss ↦
            let next : find_value (join_value r out) ≡ some (record base { option_ids = ids }) =
              find_value-join_value r out ∙ (rw miss found) in
            rw miss (merge_loop-found base rows (join_value r out) agree ids next)
      ]

  -- Where a row of the key stands in the list, mergeValues finds its slots and all options of the key.
  pub merge_loop-any :
      (base : AttributeValue F) (rows out : List (AttributeValue F))
      → All (AgreesWith base) rows
      → find_value out ≡ none
      → any (is_key attr variant) rows ≡ true
      → find_value (merge_loop out rows) ≡ some (record base { option_ids = ids_at rows })
  unfolding merge_loop
  merge_loop-any base [] out agree missing some_row = cc
  merge_loop-any base (r ∷ rows) out (same, agree) missing some_row =
      elim (Bool-cases (is_key attr variant r)) [
        | inl hit ↦
            let own : r ≡ record base { option_ids = r.option_ids } =
              ap (λ (s : AttributeValue F). record s { option_ids = r.option_ids }) (same hit) in
            let next : find_value (join_value r out)
                ≡ some (record base { option_ids = r.option_ids }) =
              find_value-join_value r out ∙ (rw (hit, missing) (ap some own)) in
            rw hit (merge_loop-found base rows (join_value r out) agree r.option_ids next)
        | inr miss ↦
            let next : find_value (join_value r out) ≡ none =
              find_value-join_value r out ∙ (rw miss missing) in
            rw miss (
              merge_loop-any base rows (join_value r out) agree next
                (ground (arith, miss, some_row)))
      ]
