-- ===== src/Schema/Attributes.antt =====
-- internal/domain/attribute.go: data types, attributes with their options, and NewAttributeValue.
-- float64 is the parameter `F`, with its zero and its order.
use khans_bike.Common.{
  ℕ, [], ◌∷◌, List, Bool, true, false, not, ◌||◌, ◌==◌, Option, none, some, if◌then◌else◌, Result,
  ok, ◌>>◌, guard, length,
}
use khans_bike.Common.Text.{Text}

pub data DataType : Type 0 where
  text number number_range boolean enum multi_enum color : DataType
  other_type : Text → DataType

-- Valid and UsesOptions.
abbrev pub type_is_valid : DataType → Bool
type_is_valid (other_type _) = false
type_is_valid _ = true

abbrev pub uses_options : DataType → Bool
uses_options enum = true
uses_options multi_enum = true
uses_options color = true
uses_options _ = false

pub record AttributeOption : Type 0 where
  pub id : ℕ
  pub value : Text
  pub label : Text
  pub swatch_hex : Option Text

pub record Attribute : Type 0 where
  pub id : ℕ
  pub key : Text
  pub label : Text
  pub data_type : DataType
  pub unit : Option Text
  pub options : List AttributeOption

pub record AttributeValue (F : Type 0) : Type 0 where
  pub attribute_id : ℕ
  pub variant_id : Option ℕ
  pub option_ids : List ℕ
  pub text_slot : Option Text
  pub num : Option F
  pub num_low : Option F
  pub num_high : Option F
  pub bool_slot : Option Bool
  pub etrto : Option Text

-- Go's float64: zero, `>`, and neither NaN nor infinite.
pub record Floats (F : Type 0) : Type 0 where
  pub zero_float : F
  pub greater : F → F → Bool
  pub finite : F → Bool

-- The reasons are left out.
pub data ValueError : Type 0 where
  bad_value : ValueError

abbrev pub is_set : {A : Type 0} → Option A → Bool
is_set none = false
is_set (some _) = true

abbrev pub no_options : List ℕ → Bool
no_options [] = true
no_options (_ ∷ _) = false

abbrev pub exceeds : {F : Type 0} → Floats F → Option F → Option F → Bool
exceeds floats (some low) (some high) = floats.greater low high
exceeds floats _ _ = false

-- The switch of NewAttributeValue.
unfoldable pub fits : {F : Type 0} → Floats F → DataType → AttributeValue F → Bool
fits floats text av = is_set av.text_slot
fits floats number av = is_set av.num
fits floats number_range av =
    if not (is_set av.num_low) || not (is_set av.num_high)
    then false
    else not (exceeds floats av.num_low av.num_high)
fits floats boolean av = is_set av.bool_slot
fits floats enum av = length av.option_ids == 1
fits floats color av = length av.option_ids == 1
fits floats multi_enum av = not (no_options av.option_ids)
fits floats (other_type _) av = false

-- NewAttributeValue.
unfoldable pub new_attribute_value :
    {F : Type 0}
    → Floats F
    → ℕ
    → DataType
    → Option ℕ
    → AttributeValue F
    → Result ValueError (AttributeValue F)
new_attribute_value floats attribute_id dt variant_id av =
    let av' = record av { attribute_id = attribute_id; variant_id = variant_id } in
    guard (fits floats dt av') bad_value >> ok av'
