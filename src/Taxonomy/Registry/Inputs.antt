-- ===== src/Taxonomy/Registry/Inputs.antt =====
-- internal/service/taxonomy.go: AttributeInput, OptionInput and BindingInput, and their checks.
use khans_bike.Common.{
  ℕ, suc, [], ◌∷◌, ◌++◌, List, Bool, true, false, not, ◌&&◌, ◌||◌, Option, none, some, ◌==◌, leb,
  if◌then◌else◌, length, any, all,
}
use khans_bike.Common.Int.{ℤ, is_neg}
use khans_bike.Common.Text.{Text, codes, text_eq, is_empty, trim_space}
use khans_bike.Platform.Money.{format_nat}
use khans_bike.Schema.Attributes.{
  DataType, text, number, number_range, boolean, enum, multi_enum, color, other_type, type_is_valid,
  uses_options,
}
use khans_bike.Service.Validation.{add_field, require_text, optional_text}

pub record OptionInput : Type 0 where
  pub value : Text
  pub label : Text
  pub swatch_hex : Option Text
  pub position : ℤ

pub record AttributeInput : Type 0 where
  pub key : Text
  pub label : Text
  pub data_type : DataType
  pub unit : Option Text
  pub input_type : Text
  pub is_filterable : Option Bool
  pub is_searchable : Bool
  pub help_text : Option Text
  pub options : List OptionInput

pub record BindingInput : Type 0 where
  pub position : ℤ
  pub is_required : Bool
  pub is_variant_axis : Bool
  pub label_override : Option Text

abbrev pub max_label_len : ℕ
max_label_len = 100

abbrev pub max_help_text_len : ℕ
max_help_text_len = 500

abbrev pub max_unit_len : ℕ
max_unit_len = 20

abbrev pub max_option_value_len : ℕ
max_option_value_len = 100

abbrev pub max_option_label_len : ℕ
max_option_label_len = 200

-- strings.HasSuffix, with the suffix first.
abbrev pub ends_with : Text → Text → Bool
ends_with t [] = is_empty t
ends_with t (c ∷ s) = text_eq t (c ∷ s) || ends_with t s

abbrev pub in_range : ℕ → ℕ → ℕ → Bool
in_range low high c = leb low c && leb c high

-- attributeKeyPattern, ^[a-z][a-z0-9_]{0,62}$.
abbrev pub is_key_char : ℕ → Bool
is_key_char c = in_range b'a' b'z' c || in_range b'0' b'9' c || c == b'_'

unfoldable pub matches_key : Text → Bool
matches_key [] = false
matches_key (c ∷ s) = in_range b'a' b'z' c && leb (length s) 62 && all is_key_char s

unfoldable pub key_is_valid : Text → Bool
key_is_valid key =
    not (not (matches_key key) || ends_with (codes "_min") key || ends_with (codes "_max") key)

-- swatchPattern, ^#[0-9a-fA-F]{6}$.
abbrev pub is_hex : ℕ → Bool
is_hex c = in_range b'0' b'9' c || in_range b'a' b'f' c || in_range b'A' b'F' c

unfoldable pub matches_swatch : Text → Bool
matches_swatch [] = false
matches_swatch (c ∷ s) = c == b'#' && length s == 6 && all is_hex s

-- inputTypes and defaultInputType.
abbrev pub input_types : List Text
input_types =
    codes "select"
    ∷ codes "radio"
    ∷ codes "swatch"
    ∷ codes "range"
    ∷ codes "checkbox"
    ∷ codes "text"
    ∷ []

abbrev pub default_input_type : DataType → Text
default_input_type text = codes "text"
default_input_type number = codes "text"
default_input_type number_range = codes "range"
default_input_type boolean = codes "checkbox"
default_input_type enum = codes "select"
default_input_type multi_enum = codes "checkbox"
default_input_type color = codes "swatch"
default_input_type (other_type _) = []

-- The string that a DataType is.
abbrev pub type_name : DataType → Text
type_name text = codes "text"
type_name number = codes "number"
type_name number_range = codes "number_range"
type_name boolean = codes "boolean"
type_name enum = codes "enum"
type_name multi_enum = codes "multi_enum"
type_name color = codes "color"
type_name (other_type name) = name

-- AttributeInput's validateCommon: the trimmed input and the fields in error.
unfoldable pub validate_common : AttributeInput → AttributeInput × List Text
validate_common input =
    let (label, label_errors) = require_text (codes "label") input.label max_label_len in
    let (unit, unit_errors) = optional_text (codes "unit") input.unit max_unit_len in
    let (help_text, help_errors) =
      optional_text (codes "helpText") input.help_text max_help_text_len in
    let asked = trim_space input.input_type in
    (
      record input {
        label = label;
        unit = unit;
        help_text = help_text;
        input_type = if is_empty asked then default_input_type input.data_type else asked;
      },
      label_errors
          ++ unit_errors
          ++ help_errors
          ++ add_field (not (is_empty asked) && not (any (text_eq asked) input_types))
              (codes "inputType"),
    )

-- OptionInput's validate, of an option whose fields are prefixed by `field`.
abbrev pub is_no_swatch : Option Text → Bool
is_no_swatch none = false
is_no_swatch (some swatch) = not (matches_swatch swatch)

unfoldable pub validate_option : Text → Bool → OptionInput → OptionInput × List Text
validate_option field with_value input =
    let (value, value_errors) =
      if with_value
      then require_text (field ++ codes ".value") input.value max_option_value_len
      else (input.value, []) in
    let (label, label_errors) =
      require_text (field ++ codes ".label") input.label max_option_label_len in
    let (swatch_hex, swatch_errors) =
      optional_text (field ++ codes ".swatchHex") input.swatch_hex 7 in
    (
      record input { value = value; label = label; swatch_hex = swatch_hex },
      value_errors
          ++ label_errors
          ++ swatch_errors
          ++ add_field (is_no_swatch swatch_hex) (field ++ codes ".swatchHex")
          ++ add_field (is_neg input.position) (field ++ codes ".position"),
    )

-- The loop of CreateAttribute over the options of its input, with the values seen so far.
unfoldable pub option_field : ℕ → Text
option_field i = codes "options[" ++ format_nat i ++ codes "]"

unfoldable pub validate_options : ℕ → List Text → List OptionInput → List OptionInput × List Text
validate_options i seen [] = ([], [])
validate_options i seen (raw ∷ rest) =
    let (input, errors) = validate_option (option_field i) true raw in
    let (inputs, others) = validate_options (suc i) (input.value ∷ seen) rest in
    (
      input ∷ inputs,
      errors
          ++ add_field (any (text_eq input.value) seen) (option_field i ++ codes ".value")
          ++ others,
    )

-- The checks of CreateAttribute.
abbrev pub has_options : List OptionInput → Bool
has_options [] = false
has_options (_ ∷ _) = true

unfoldable pub validate_new : AttributeInput → AttributeInput × List Text
validate_new raw =
    let key = trim_space raw.key in
    let (input, errors) = validate_common (record raw { key = key }) in
    let (options, option_errors) = validate_options 0 [] raw.options in
    (
      record input { options = options },
      add_field (not (key_is_valid key)) (codes "key")
          ++ add_field (not (type_is_valid raw.data_type)) (codes "dataType")
          ++ errors
          ++ add_field (not (uses_options raw.data_type) && has_options raw.options)
              (codes "options")
          ++ option_errors,
    )

-- The checks of UpdateAttribute against the attribute that it replaces.
unfoldable pub validate_change : Text → DataType → AttributeInput → AttributeInput × List Text
validate_change key data_type raw =
    let asked_key = trim_space raw.key in
    let asked_type = type_name raw.data_type in
    let (input, errors) = validate_common (record raw { data_type = data_type }) in
    (
      input,
      add_field (not (is_empty asked_key) && not (text_eq asked_key key)) (codes "key")
          ++ add_field (not (is_empty asked_type) && not (text_eq asked_type (type_name data_type)))
              (codes "dataType")
          ++ add_field (has_options raw.options) (codes "options")
          ++ errors,
    )
