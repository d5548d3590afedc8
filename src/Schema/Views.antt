-- ===== src/Schema/Views.antt =====
-- internal/service/schema.go and CategoryAttribute of internal/domain/attribute.go: the bindings of a
-- category, and how values are shown to people. strconv.FormatFloat and `==` on float64 are the fields
-- of `Formats`. The swatch of a view is left out.
use khans_bike.Common.{
  ℕ, [], ◌∷◌, ◌++◌, List, Bool, false, ◌==◌, Option, none, some, if◌then◌else◌, map,
}
use khans_bike.Common.Int.{ℤ}
use khans_bike.Common.Text.{Text, codes, text_eq, is_empty}
use khans_bike.Schema.Attributes.{
  DataType, text, number, number_range, boolean, enum, multi_enum, color, other_type,
  AttributeOption, Attribute, AttributeValue, Floats,
}
use khans_bike.Schema.Values.{ApiValue, api_value, contains_id, deref}

pub record CategoryAttribute : Type 0 where
  pub attribute : Attribute
  pub position : ℤ
  pub is_required : Bool
  pub is_variant_axis : Bool
  pub label_override : Option Text

-- EffectiveLabel.
unfoldable pub effective_label : CategoryAttribute → Text
effective_label b = elim b.label_override [
  | none ↦ b.attribute.label
  | some s ↦ if is_empty s then b.attribute.label else s
]

-- categorySchema: the maps byKey and byID of loadCategorySchema keep the last binding of a key or id.
abbrev pub keep_last :
    Bool → CategoryAttribute → Option CategoryAttribute → Option CategoryAttribute
keep_last hit b (some later) = some later
keep_last hit b none = if hit then some b else none

unfoldable pub by_key : List CategoryAttribute → Text → Option CategoryAttribute
by_key [] key = none
by_key (b ∷ bindings) key = keep_last (text_eq b.attribute.key key) b (by_key bindings key)

unfoldable pub by_id : List CategoryAttribute → ℕ → Option CategoryAttribute
by_id [] id = none
by_id (b ∷ bindings) id = keep_last (b.attribute.id == id) b (by_id bindings id)

-- strings.Join.
abbrev pub join : Text → List Text → Text
join sep [] = []
join sep (s ∷ []) = s
join sep (s ∷ t ∷ rest) = s ++ sep ++ join sep (t ∷ rest)

pub record Formats (F : Type 0) : Type 0 where
  pub floats : Floats F
  pub format_number : F → Text
  pub same_float : F → F → Bool

unfoldable pub labels_of : List AttributeOption → List ℕ → List Text
labels_of [] ids = []
labels_of (o ∷ options) ids =
    let rest = labels_of options ids in if contains_id ids o.id then o.label ∷ rest else rest

-- displayValue.
unfoldable pub with_unit : Attribute → Text → Text
with_unit a s = elim a.unit [
  | none ↦ s
  | some unit ↦ if is_empty unit then s else s ++ codes " " ++ unit
]

module _ {F : Type 0} (formats : Formats F) where
  unfoldable pub display_range : F → F → Text
  display_range low high =
      if formats.same_float low high
      then formats.format_number low
      else formats.format_number low ++ codes "–" ++ formats.format_number high

  unfoldable pub display_value : Attribute → DataType → AttributeValue F → Text
  display_value a text v = deref [] v.text_slot
  display_value a number v =
      with_unit a (formats.format_number (deref (formats.floats.zero_float) v.num))
  display_value a number_range v =
      let zero_float = formats.floats.zero_float in
      with_unit a (display_range (deref zero_float v.num_low) (deref zero_float v.num_high))
  display_value a boolean v = if deref false v.bool_slot then codes "Yes" else codes "No"
  display_value a enum v = join (codes ", ") (labels_of a.options v.option_ids)
  display_value a multi_enum v = join (codes ", ") (labels_of a.options v.option_ids)
  display_value a color v = join (codes ", ") (labels_of a.options v.option_ids)
  display_value a (other_type _) v = join (codes ", ") (labels_of a.options v.option_ids)

pub record AttributeView (F : Type 0) : Type 0 where
  pub key : Text
  pub label : Text
  pub data_type : DataType
  pub unit : Option Text
  pub value : ApiValue F
  pub display : Text

-- `byAttr` of views keeps the last value of an attribute.
unfoldable pub by_attribute : {F : Type 0} → List (AttributeValue F) → ℕ → Option (AttributeValue F)
by_attribute [] id = none
by_attribute (v ∷ values) id = elim (by_attribute values id) [
  | some later ↦ some later
  | none ↦ if v.attribute_id == id then some v else none
]

module _ {F : Type 0} (formats : Formats F) where
  unfoldable pub view_of : CategoryAttribute → AttributeValue F → AttributeView F
  view_of b v = record {
    key = b.attribute.key;
    label = effective_label b;
    data_type = b.attribute.data_type;
    unit = b.attribute.unit;
    value = api_value (formats.floats) b.attribute.data_type b.attribute.options v;
    display = display_value formats b.attribute b.attribute.data_type v;
  }

  abbrev pub cons_view :
      CategoryAttribute
      → Option (AttributeValue F)
      → List (AttributeView F)
      → List (AttributeView F)
  cons_view b none rest = rest
  cons_view b (some v) rest = view_of b v ∷ rest

  -- views, in the schema's order.
  unfoldable pub views : List CategoryAttribute → List (AttributeValue F) → List (AttributeView F)
  views [] values = []
  views (b ∷ bindings) values =
      cons_view b (by_attribute values b.attribute.id) (views bindings values)

  -- derivedSuffix.
  abbrev pub join_views : List (AttributeView F) → Option Text
  join_views [] = none
  join_views (v ∷ rest) = some (join (codes " / ") (map (λ w. w.display) (v ∷ rest)))

  unfoldable pub derived_suffix : List CategoryAttribute → List (AttributeValue F) → Option Text
  derived_suffix bindings values = join_views (views bindings values)

-- projection: the JSON object of the values, later values of a key after earlier ones.
abbrev pub cons_entry :
    {F : Type 0}
    → Floats F
    → Option CategoryAttribute
    → AttributeValue F
    → List (Text × ApiValue F)
    → List (Text × ApiValue F)
cons_entry floats none v rest = rest
cons_entry floats (some b) v rest =
    (b.attribute.key, api_value floats b.attribute.data_type b.attribute.options v) ∷ rest

unfoldable pub projection :
    {F : Type 0}
    → Floats F
    → List CategoryAttribute
    → List (AttributeValue F)
    → List (Text × ApiValue F)
projection floats bindings [] = []
projection floats bindings (v ∷ values) =
    cons_entry floats (by_id bindings v.attribute_id) v (projection floats bindings values)
