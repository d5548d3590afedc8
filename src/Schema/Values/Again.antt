-- ===== src/Schema/Values/Again.antt =====
-- internal/service/schema.go: a value that the API has accepted, read and saved again.
use mathlib.Core.Path.{subst}
use khans_bike.Common.{
  ℕ, [], ◌∷◌, List, Bool, true, false, ◌||◌, Option, some, ok, ◌>>=◌, length, ltb, ◌≡◌, refl, sym,
  ap, ◌∙◌, inl, inr, arith, Option-cases, Result-cases,
}
use khans_bike.Common.Text.{Text, trim_space, is_empty, is_space}
use khans_bike.Common.Trim.{trim_func_idem}
use khans_bike.Schema.Attributes.{
  DataType, text, number, number_range, boolean, enum, multi_enum, color, other_type,
  AttributeOption, Attribute, AttributeValue, Floats, new_attribute_value, fits, no_options,
}
use khans_bike.Schema.Values.Tokens.{HasOwnIds, HasOwnTokens, by_value, tokens_again}
use khans_bike.Schema.Values.{
  Json, max_text_value, option_by_value, no_slots, add_tokens, decode_text, decode_range,
  decode_enum, decode_slots, decode_value, ApiValue, string_value, number_value, range_value,
  bool_value, list_value, single_token, tokens_of, api_value,
}

module _ {F Raw : Type 0} (floats : Floats F) (json : Json F Raw) (encode : ApiValue F → Raw)
    (string_again : (s : Text) → json.string (encode (string_value s)) ≡ some s)
    (float_again : (f : F) → floats.finite f ≡ true → json.float (encode (number_value f)) ≡ some f)
    (range_again : (low high : F)
      → floats.finite low ≡ true
      → floats.finite high ≡ true
      → json.range (encode (range_value low high)) ≡ some (some low, some high))
    (bool_again : (b : Bool) → json.bool (encode (bool_value b)) ≡ some b)
    (strings_again : (ts : List Text) → json.strings (encode (list_value ts)) ≡ some ts) where
  -- What reading and saving a value again gives.
  abbrev IsStable : DataType → List AttributeOption → ℕ → Option ℕ → AttributeValue F → Type 0
  IsStable dt options id variant v =
      (v' : AttributeValue F) × ((decode_slots floats json dt options
            (encode (api_value floats dt options v))
          >>= λ av. new_attribute_value floats id dt variant av)
        ≡ ok v')
      × (api_value floats dt options v' ≡ api_value floats dt options v)

  abbrev Decodes : DataType → List AttributeOption → ℕ → Option ℕ → Raw → AttributeValue F → Type 0
  Decodes dt options id variant raw v =
      (decode_slots floats json dt options raw >>= λ av.
      new_attribute_value floats id dt variant av)
      ≡ ok v

  -- The value with one slot set.
  abbrev with_ids : ℕ → Option ℕ → AttributeValue F → AttributeValue F
  with_ids id variant av = record av { attribute_id = id; variant_id = variant }

  stable :
      (dt : DataType) (options : List AttributeOption) (id : ℕ) (variant : Option ℕ)
      (v w : AttributeValue F)
      → v ≡ w
      → IsStable dt options id variant w
      → IsStable dt options id variant v
  stable dt options id variant v w same h = subst (IsStable dt options id variant) (sym same) h

  text-IsStable :
      (options : List AttributeOption) (id : ℕ) (variant : Option ℕ) (raw : Raw)
      (v : AttributeValue F)
      → Decodes text options id variant raw v
      → IsStable text options id variant v
  unfolding decode_slots decode_text new_attribute_value fits api_value
  text-IsStable options id variant raw v h = elim (Option-cases (json.string raw)) [
    | inl bad ↦ ground arith
    | inr (s, read) ↦
        let s' = trim_space s in
        let w = with_ids id variant (record no_slots { text_slot = some s' }) in
        let same : v ≡ w = ground arith in
        let test : (is_empty s' || ltb max_text_value (length s')) ≡ false = ground arith in
        stable text options id variant v w same
          (w, rw (string_again s', trim_func_idem is_space s, test) refl, refl)
  ]

  number-IsStable :
      (options : List AttributeOption) (id : ℕ) (variant : Option ℕ) (raw : Raw)
      (v : AttributeValue F)
      → Decodes number options id variant raw v
      → IsStable number options id variant v
  unfolding decode_slots new_attribute_value fits api_value
  number-IsStable options id variant raw v h = elim (Option-cases (json.float raw)) [
    | inl bad ↦ ground arith
    | inr (f, read) ↦
        let w = with_ids id variant (record no_slots { num = some f }) in
        let same : v ≡ w = ground arith in
        let test : floats.finite f ≡ true = ground arith in
        stable number options id variant v w same (w, rw (float_again f test, test) refl, refl)
  ]

  boolean-IsStable :
      (options : List AttributeOption) (id : ℕ) (variant : Option ℕ) (raw : Raw)
      (v : AttributeValue F)
      → Decodes boolean options id variant raw v
      → IsStable boolean options id variant v
  unfolding decode_slots new_attribute_value fits api_value
  boolean-IsStable options id variant raw v h = elim (Option-cases (json.bool raw)) [
    | inl bad ↦ ground arith
    | inr (b, read) ↦
        let w = with_ids id variant (record no_slots { bool_slot = some b }) in
        let same : v ≡ w = ground arith in
        stable boolean options id variant v w same (w, rw (bool_again b) refl, refl)
  ]

  range-IsStable :
      (options : List AttributeOption) (id : ℕ) (variant : Option ℕ) (raw : Raw)
      (v : AttributeValue F)
      → Decodes number_range options id variant raw v
      → IsStable number_range options id variant v
  unfolding decode_slots decode_range new_attribute_value fits api_value
  range-IsStable options id variant raw v h = elim (Option-cases (json.range raw)) [
    | inl bad ↦ ground arith
    | inr (r, read) ↦ elim (Option-cases r.0) [
      | inl bad ↦ ground arith
      | inr (low, read_low) ↦ elim (Option-cases r.1) [
        | inl bad ↦ ground arith
        | inr (high, read_high) ↦
            let w =
              with_ids id variant (record no_slots { num_low = some low; num_high = some high }) in
            let same : v ≡ w = ground arith in
            let low_finite : floats.finite low ≡ true = ground arith in
            let high_finite : floats.finite high ≡ true = ground arith in
            let ordered : floats.greater low high ≡ false = ground arith in
            stable number_range options id variant v w same (
              w,
              rw (range_again low high low_finite high_finite, low_finite, high_finite, ordered)
                  refl,
              refl,
            )
      ]
    ]
  ]

  enum_again :
      (options : List AttributeOption) (raw : Raw) (av : AttributeValue F)
      → HasOwnIds options
      → decode_enum floats json options raw ≡ ok av
      → (o : AttributeOption) × (av ≡ record no_slots { option_ids = o.id ∷ [] })
        × (decode_enum floats json options (encode (single_token options (o.id ∷ []))) ≡ ok av)
  unfolding decode_enum single_token
  enum_again options raw av own h = elim (Option-cases (json.string raw)) [
    | inl bad ↦ ground arith
    | inr (s, read) ↦ elim (Option-cases (option_by_value options s)) [
      | inl bad ↦ ground arith
      | inr (o, found) ↦
          let slot : av ≡ record no_slots { option_ids = o.id ∷ [] } = ground arith in
          let (hit, by_id) = by_value options s o own found in
          let token : option_by_value options o.value ≡ some o =
            ap (option_by_value options) hit ∙ found in
          (o, slot, rw (by_id, string_again o.value, token, slot) refl)
    ]
  ]

  enum-IsStable :
      (options : List AttributeOption) (id : ℕ) (variant : Option ℕ) (raw : Raw)
      (v : AttributeValue F)
      → HasOwnIds options
      → Decodes enum options id variant raw v
      → IsStable enum options id variant v
  unfolding decode_slots new_attribute_value fits api_value
  enum-IsStable options id variant raw v own h =
      elim (Result-cases (decode_enum floats json options raw)) [
        | inl (e, bad) ↦ ground arith
        | inr (av, read) ↦
            let (o, slot, again) = enum_again options raw av own read in
            let same : v ≡ with_ids id variant (record no_slots { option_ids = o.id ∷ [] }) =
              ground arith in
            stable enum options id variant v
              (with_ids id variant (record no_slots { option_ids = o.id ∷ [] })) same
              (
                with_ids id variant (record no_slots { option_ids = o.id ∷ [] }),
                rw (again, slot) refl,
                refl,
              )
      ]

  color-IsStable :
      (options : List AttributeOption) (id : ℕ) (variant : Option ℕ) (raw : Raw)
      (v : AttributeValue F)
      → HasOwnIds options
      → Decodes color options id variant raw v
      → IsStable color options id variant v
  unfolding decode_slots new_attribute_value fits api_value
  color-IsStable options id variant raw v own h =
      elim (Result-cases (decode_enum floats json options raw)) [
        | inl (e, bad) ↦ ground arith
        | inr (av, read) ↦
            let (o, slot, again) = enum_again options raw av own read in
            let same : v ≡ with_ids id variant (record no_slots { option_ids = o.id ∷ [] }) =
              ground arith in
            stable color options id variant v
              (with_ids id variant (record no_slots { option_ids = o.id ∷ [] })) same
              (
                with_ids id variant (record no_slots { option_ids = o.id ∷ [] }),
                rw (again, slot) refl,
                refl,
              )
      ]

  multi_enum-IsStable :
      (options : List AttributeOption) (id : ℕ) (variant : Option ℕ) (raw : Raw)
      (v : AttributeValue F)
      → HasOwnIds options
      → HasOwnTokens options
      → Decodes multi_enum options id variant raw v
      → IsStable multi_enum options id variant v
  unfolding decode_slots new_attribute_value fits api_value
  multi_enum-IsStable options id variant raw v own tokens h =
      elim (Option-cases (json.strings raw)) [
        | inl bad ↦ ground arith
        | inr (vals, read) ↦ elim (Result-cases (add_tokens options vals [])) [
          | inl (e, bad) ↦ ground arith
          | inr (ids, named) ↦
              let w = with_ids id variant (record no_slots { option_ids = ids }) in
              let same : v ≡ w = ground arith in
              let filled : no_options ids ≡ false = ground arith in
              let (r, again, kept, rendered) =
                tokens_again options vals ids own tokens named filled in
              stable multi_enum options id variant v w same (
                with_ids id variant (record no_slots { option_ids = r }),
                rw (strings_again (tokens_of options ids), again, kept) refl,
                ap list_value rendered,
              )
        ]
      ]

  -- A value that decodeValue accepts, rendered by apiValue and sent back, is accepted again and rendered
  -- the same, whatever the data type: given that Decode reads back what the JSON encoder writes, and
  -- that the options of an attribute have ids and tokens of their own.
  pub decode_value-api_value :
      (a : Attribute) (raw : Raw) (variant : Option ℕ) (v : AttributeValue F)
      → HasOwnIds a.options
      → HasOwnTokens a.options
      → decode_value floats json a raw variant ≡ ok v
      → (v' : AttributeValue F) × (decode_value floats json a
            (encode (api_value floats a.data_type a.options v))
            variant
          ≡ ok v')
        × (api_value floats a.data_type a.options v' ≡ api_value floats a.data_type a.options v)
  unfolding decode_value
  decode_value-api_value a raw variant v own tokens h = by_type a.data_type h
    where
      by_type :
          (dt : DataType)
          → Decodes dt a.options a.id variant raw v
          → IsStable dt a.options a.id variant v
      by_type text h = text-IsStable a.options a.id variant raw v h
      by_type number h = number-IsStable a.options a.id variant raw v h
      by_type number_range h = range-IsStable a.options a.id variant raw v h
      by_type boolean h = boolean-IsStable a.options a.id variant raw v h
      by_type enum h = enum-IsStable a.options a.id variant raw v own h
      by_type color h = color-IsStable a.options a.id variant raw v own h
      by_type multi_enum h = multi_enum-IsStable a.options a.id variant raw v own tokens h
      by_type (other_type s) h = unfold decode_slots new_attribute_value fits in ground arith
