-- ===== src/Schema/Values.antt =====
-- internal/service/schema.go: decodeValue reads a value from its JSON shape, and apiValue renders it
-- again. encoding/json is the parameter `Json`: what Decode answers for each Go type that the code
-- decodes into.
pub mod Tokens
pub mod Again
use khans_bike.Common.{
  ℕ, [], ◌∷◌, ◌++◌, List, Bool, true, false, not, ◌||◌, ◌&&◌, ◌==◌, Option, none, some,
  if◌then◌else◌, Result, ok, err, ◌>>=◌, ◌>>◌, guard, length, ltb, any, find_row,
}
use khans_bike.Common.Text.{Text, text_eq, trim_space, is_empty}
use khans_bike.Schema.Attributes.{
  DataType, text, number, number_range, boolean, enum, multi_enum, color, other_type,
  AttributeOption, Attribute, AttributeValue, Floats, ValueError, bad_value, new_attribute_value,
}

pub record Json (F Raw : Type 0) : Type 0 where
  pub string : Raw → Option Text
  pub float : Raw → Option F
  pub range : Raw → Option (Option F × Option F)
  pub bool : Raw → Option Bool
  pub strings : Raw → Option (List Text)

abbrev pub max_text_value : ℕ
max_text_value = 1000

-- optionByValue and optionByID.
unfoldable pub option_by_value : List AttributeOption → Text → Option AttributeOption
option_by_value options value = find_row (λ o. text_eq o.value value) options

unfoldable pub option_by_id : List AttributeOption → ℕ → Option AttributeOption
option_by_id options id = find_row (λ o. o.id == id) options

-- slices.Contains on ids.
abbrev pub contains_id : List ℕ → ℕ → Bool
contains_id ids id = any (λ k. k == id) ids

-- The value before its slot is set.
abbrev pub no_slots : {F : Type 0} → AttributeValue F
no_slots = record {
  attribute_id = 0;
  variant_id = none;
  option_ids = [];
  text_slot = none;
  num = none;
  num_low = none;
  num_high = none;
  bool_slot = none;
  etrto = none;
}

abbrev pub decoded : {A : Type 0} → Option A → Result ValueError A
decoded none = err bad_value
decoded (some a) = ok a

-- The loop over the tokens of a multi_enum value.
unfoldable pub add_tokens : List AttributeOption → List Text → List ℕ → Result ValueError (List ℕ)
add_tokens options [] ids = ok ids
add_tokens options (s ∷ vals) ids = decoded (option_by_value options s) >>= λ o.
    add_tokens options vals (if contains_id ids o.id then ids else ids ++ o.id ∷ [])

module _ {F Raw : Type 0} (floats : Floats F) (json : Json F Raw) where
  -- The switch of decodeValue.
  unfoldable pub decode_text : Raw → Result ValueError (AttributeValue F)
  decode_text raw = decoded (json.string raw) >>= λ s.
      let s' = trim_space s in
      guard (not (is_empty s' || ltb max_text_value (length s'))) bad_value
      >> ok (record no_slots { text_slot = some s' })

  unfoldable pub decode_range : Raw → Result ValueError (AttributeValue F)
  decode_range raw = decoded (json.range raw) >>= λ r. decoded (r.0) >>= λ low.
      decoded (r.1) >>= λ high.
      guard (floats.finite low && floats.finite high) bad_value
      >> ok (record no_slots { num_low = some low; num_high = some high })

  unfoldable pub decode_enum : List AttributeOption → Raw → Result ValueError (AttributeValue F)
  decode_enum options raw = decoded (json.string raw) >>= λ s.
      decoded (option_by_value options s) >>= λ o. ok (record no_slots { option_ids = o.id ∷ [] })

  unfoldable pub decode_slots :
      DataType → List AttributeOption → Raw → Result ValueError (AttributeValue F)
  decode_slots text options raw = decode_text raw
  decode_slots number options raw = decoded (json.float raw) >>= λ f.
      guard (floats.finite f) bad_value >> ok (record no_slots { num = some f })
  decode_slots number_range options raw = decode_range raw
  decode_slots boolean options raw =
      decoded (json.bool raw) >>= λ b. ok (record no_slots { bool_slot = some b })
  decode_slots enum options raw = decode_enum options raw
  decode_slots color options raw = decode_enum options raw
  decode_slots multi_enum options raw = decoded (json.strings raw) >>= λ vals.
      add_tokens options vals [] >>= λ ids. ok (record no_slots { option_ids = ids })
  decode_slots (other_type _) options raw = ok no_slots

  -- decodeValue.
  unfoldable pub decode_value : Attribute → Raw → Option ℕ → Result ValueError (AttributeValue F)
  decode_value a raw variant_id = decode_slots a.data_type a.options raw >>= λ av.
      new_attribute_value floats a.id a.data_type variant_id av

-- What apiValue answers with, an `any` of these shapes.
pub data ApiValue (F : Type 0) : Type 0 where
  string_value : Text → ApiValue F
  number_value : F → ApiValue F
  range_value : F → F → ApiValue F
  bool_value : Bool → ApiValue F
  list_value : List Text → ApiValue F
  null_value : ApiValue F

-- deref.
abbrev pub deref : {A : Type 0} → A → Option A → A
deref zero_value none = zero_value
deref zero_value (some a) = a

abbrev pub token_of : {F : Type 0} → Option AttributeOption → ApiValue F
token_of none = null_value
token_of (some o) = string_value o.value

unfoldable pub single_token : {F : Type 0} → List AttributeOption → List ℕ → ApiValue F
single_token options [] = null_value
single_token options (id ∷ []) = token_of (option_by_id options id)
single_token options (_ ∷ _ ∷ _) = null_value

-- The options' order, not that of the ids.
unfoldable pub tokens_of : List AttributeOption → List ℕ → List Text
tokens_of [] ids = []
tokens_of (o ∷ options) ids =
    let rest = tokens_of options ids in if contains_id ids o.id then o.value ∷ rest else rest

-- apiValue.
unfoldable pub api_value :
    {F : Type 0} → Floats F → DataType → List AttributeOption → AttributeValue F → ApiValue F
api_value floats text options v = string_value (deref [] v.text_slot)
api_value floats number options v = number_value (deref floats.zero_float v.num)
api_value floats number_range options v =
    range_value (deref floats.zero_float v.num_low) (deref floats.zero_float v.num_high)
api_value floats boolean options v = bool_value (deref false v.bool_slot)
api_value floats enum options v = single_token options v.option_ids
api_value floats color options v = single_token options v.option_ids
api_value floats multi_enum options v = list_value (tokens_of options v.option_ids)
api_value floats (other_type _) options v = null_value
