-- ===== src/Taxonomy/Registry/Fits.antt =====
-- internal/service/taxonomy.go: what the checks of a request leave of its input, and the options that
-- CreateAttribute inserts.
use mathlib.Core.List.{Memᴰ}
use khans_bike.Common.{
  ℕ, suc, [], ◌∷◌, ◌++◌, List, true, false, not, ◌&&◌, ◌==◌, ◌≡◌, refl, sym, inl, inr, arith, ok,
  Option-cases, >>=-eq-ok, ok-injective, find_row,
}
use khans_bike.Common.Keyed.{find_row-Mem}
use khans_bike.Common.Text.{Text, codes, trim_space}
use khans_bike.Products.Inputs.Entries.{add_field-nil}
use khans_bike.Schema.Attributes.{uses_options, type_is_valid}
use khans_bike.Service.Validation.{validation_err, add_field}
use khans_bike.Taxonomy.Registry.{
  AttributeRow, OptionRow, is_attribute, get_attribute, insert_option,
}
use khans_bike.Taxonomy.Registry.Inputs.{
  OptionInput, AttributeInput, validate_common, validate_new, validate_options, key_is_valid,
  has_options,
}
use khans_bike.Taxonomy.Registry.Kept.{IsOptionTable}
use khans_bike.Taxonomy.Registry.Requests.{new_option, insert_options}
use khans_bike.Taxonomy.Registry.Rows.{insert_option-kept}

pub errors-nil : (errors : List Text) {u : Unit {0}} → validation_err errors ≡ ok u → errors ≡ []
errors-nil [] h = refl
errors-nil (field ∷ others) h = cc

has_options-validate_options :
    (i : ℕ) (seen : List Text) (raw : List OptionInput)
    → has_options (validate_options i seen raw).0 ≡ has_options raw
unfolding validate_options
has_options-validate_options i seen [] = refl
has_options-validate_options i seen (o ∷ raw) = refl

five-nil : (a b c d e : List Text) → (a ++ b ++ c ++ d ++ e) ≡ [] → (a ≡ []) × (b ≡ []) × (d ≡ [])
five-nil [] [] [] [] e h = (refl, refl, refl)
five-nil [] [] [] (x ∷ d) e h = cc
five-nil [] [] (x ∷ c) d e h = cc
five-nil [] (x ∷ b) c d e h = cc
five-nil (x ∷ a) b c d e h = cc

-- What the checks of CreateAttribute leave.
pub validate_new-fits :
    (raw : AttributeInput)
    → (validate_new raw).1 ≡ []
    → (key_is_valid (validate_new raw).0.key ≡ true)
      × (type_is_valid (validate_new raw).0.data_type ≡ true)
      × ((not (uses_options (validate_new raw).0.data_type)
            && has_options (validate_new raw).0.options)
          ≡ false)
unfolding validate_new validate_common
validate_new-fits raw h =
    let (key, type, options) =
      five-nil (add_field (not (key_is_valid (trim_space raw.key))) (codes "key"))
        (add_field (not (type_is_valid raw.data_type)) (codes "dataType"))
        (validate_common (record raw { key = trim_space raw.key })).1
        (add_field (not (uses_options raw.data_type) && has_options raw.options) (codes "options"))
        (validate_options 0 [] raw.options).1 h in
    (
      ground (arith, add_field-nil (not (key_is_valid (trim_space raw.key))) (codes "key") key),
      ground (arith, add_field-nil (not (type_is_valid raw.data_type)) (codes "dataType") type),
      rw (has_options-validate_options 0 [] raw.options) (
          add_field-nil (not (uses_options raw.data_type) && has_options raw.options)
            (codes "options") options),
    )

-- The options that CreateAttribute inserts.
pub insert_options-kept :
    (new_id : ℕ → ℕ) (attributes : List AttributeRow) (a : AttributeRow) (i : ℕ)
    (inputs : List OptionInput) (rows rows' : List OptionRow)
    → Memᴰ a attributes
    → (not (uses_options a.data_type) && has_options inputs) ≡ false
    → IsOptionTable attributes rows
    → insert_options new_id attributes a.id i inputs rows ≡ ok rows'
    → IsOptionTable attributes rows'
unfolding insert_options new_option
insert_options-kept new_id attributes a i [] rows rows' here fits table h =
    rw (sym (ok-injective h)) table
insert_options-kept new_id attributes a i (input ∷ inputs) rows rows' here fits table h =
    let (rows₁, inserted, h') =
      >>=-eq-ok (insert_option attributes (new_option (new_id i) a.id input) rows)
        (λ r. insert_options new_id attributes a.id (suc i) inputs r) h in
    let takes : uses_options a.data_type ≡ true = ground (arith, fits) in
    insert_options-kept new_id attributes a (suc i) inputs rows₁ rows' here (rw takes refl)
      (insert_option-kept attributes (new_option (new_id i) a.id input) rows rows₁ table
        (a, here, refl, takes) inserted)
      h'

pub get_attribute-Mem :
    (id : ℕ) (rows : List AttributeRow) (a : AttributeRow)
    → get_attribute id rows ≡ ok a
    → Memᴰ a rows × (a.id == id ≡ true)
unfolding get_attribute
get_attribute-Mem id rows a h = elim (Option-cases (find_row (is_attribute id) rows)) [
  | inl missing ↦ cc
  | inr (b, found) ↦
      let same : b ≡ a = ok-injective (rw (get_attribute, found) at h) in
      rw (sym same) (find_row-Mem (is_attribute id) rows b found)
]
