-- ===== src/Taxonomy/Categories.antt =====
-- internal/service/taxonomy.go: CreateCategory, UpdateCategory and DeleteCategory, with the statements
-- of internal/store/gen/categories.sql.go and the constraints of the table. The transform of slugs is
-- the parameter `fold`, the media table the parameter `asset_exists`; ids and times are arguments,
-- times in microseconds. Audit entries, and the row that the methods answer with, are left out.
use khans_bike.Common.{
  ℕ, ◌+◌, [], ◌∷◌, ◌++◌, List, Bool, true, false, not, ◌&&◌, ◌||◌, Option, none, some, ◌==◌,
  if◌then◌else◌, Result, ok, err, ◌>>=◌, ◌>>◌, guard, find_row, update_rows, delete_rows, length,
  any,
}
use khans_bike.Common.Int.{ℤ, is_neg, wrap32}
use khans_bike.Common.Text.{Text, codes, text_eq, is_empty, trim_space, starts_with}
use khans_bike.Service.Validation.{
  ServiceError, invalid, not_found, conflict, version_mismatch, unfinished, add_field,
  validation_err, require_text, optional_text, validate_slug, check_if_match, free_slug,
}
use khans_bike.Taxonomy.Paths.{LabelPath, ltree_label, path_prefix, is_under, path_eq, move_path}

pub record Category : Type 0 where
  pub id : ℕ
  pub parent_id : Option ℕ
  pub name : Text
  pub slug : Text
  pub path : LabelPath
  pub position : ℤ
  pub description : Option Text
  pub hero_asset_id : Option ℕ
  pub is_active : Bool
  pub updated_at : ℕ

pub record CategoryInput : Type 0 where
  pub parent_id : Option ℕ
  pub name : Text
  pub slug : Text
  pub position : ℤ
  pub description : Option Text
  pub hero_asset_id : Option ℕ
  pub is_active : Option Bool

abbrev pub max_name_len : ℕ
max_name_len = 100

abbrev pub max_description_len : ℕ
max_description_len = 2000

-- CategoryInput's validate: the trimmed input and the fields in error.
unfoldable pub validate : CategoryInput → CategoryInput × List Text
validate input =
    let (name, name_errors) = require_text (codes "name") input.name max_name_len in
    let (description, description_errors) =
      optional_text (codes "description") input.description max_description_len in
    let slug = trim_space input.slug in
    (
      record input { name = name; description = description; slug = slug },
      name_errors
          ++ description_errors
          ++ (if is_empty slug then [] else validate_slug (codes "slug") slug)
          ++ add_field (is_neg input.position) (codes "position"),
    )

abbrev pub is_category : ℕ → Category → Bool
is_category id c = c.id == id

abbrev pub has_slug : Text → Category → Bool
has_slug slug c = text_eq slug c.slug

abbrev pub has_parent : ℕ → Option ℕ → Bool
has_parent id none = false
has_parent id (some parent) = parent == id

-- GetCategoryByID.
unfoldable pub get_category : ℕ → List Category → Result ServiceError Category
get_category id rows = elim (find_row (is_category id) rows) [
  | none ↦ err not_found
  | some c ↦ ok c
]

-- parentPath: the labels of the prefix; the root prefix has none.
unfoldable pub parent_path : List Category → Option ℕ → Result ServiceError LabelPath
parent_path rows none = ok []
parent_path rows (some parent) = elim (find_row (is_category parent) rows) [
  | none ↦ err (invalid (codes "parentId" ∷ []))
  | some p ↦ ok p.path
]

-- A category cannot become its own ancestor.
abbrev pub is_descendant : ℕ → LabelPath → LabelPath → Option ℕ → Bool
is_descendant id old prefix none = false
is_descendant id old prefix (some parent) =
    parent == id || starts_with (path_prefix old) (path_prefix prefix)

-- A flag of the input, or what stands in for nil.
abbrev pub flag_or : Bool → Option Bool → Bool
flag_or default none = default
flag_or default (some b) = b

-- The references of a row to other rows.
abbrev pub reference_holds : (ℕ → Bool) → Option ℕ → Bool
reference_holds exists none = true
reference_holds exists (some id) = exists id

-- The SET of UPDATE categories, and MoveCategorySubtree.
unfoldable pub replace_category : ℕ → CategoryInput → Text → Bool → Category → Category
replace_category now input slug active c = record c {
  parent_id = input.parent_id;
  name = input.name;
  slug = slug;
  position = wrap32 input.position;
  description = input.description;
  hero_asset_id = input.hero_asset_id;
  is_active = active;
  updated_at = now;
}

unfoldable pub move_category : ℕ → LabelPath → LabelPath → Category → Category
move_category now old new c = record c { path = move_path old new c.path; updated_at = now }

unfoldable pub move_subtree : ℕ → LabelPath → LabelPath → List Category → List Category
move_subtree now old new = update_rows (λ c. is_under old c.path) (move_category now old new)

module _ (asset_exists : ℕ → Bool) where
  -- What the table's keys ask of a row that is written as `id`.
  unfoldable pub constraints :
      List Category → ℕ → Text → Option ℕ → Option ℕ → Result ServiceError (Unit {0})
  constraints rows id slug parent_id hero_asset_id =
      guard (not (any (λ c. not (c.id == id) && has_slug slug c) rows)) conflict
      >> guard
          (reference_holds (λ p. p == id || any (is_category p) rows) parent_id
            && reference_holds asset_exists hero_asset_id)
          (invalid [])

  -- CreateCategory of internal/store/gen.
  unfoldable pub insert_category : Category → List Category → Result ServiceError (List Category)
  insert_category c rows =
      guard (not (any (is_category c.id) rows)) conflict
      >> constraints rows c.id c.slug c.parent_id c.hero_asset_id
      >> ok (c ∷ rows)

  -- The two statements of UpdateCategory that write: none hits the row if its version has moved on.
  unfoldable pub save_category :
      ℕ
      → Category
      → CategoryInput
      → Text
      → Bool
      → LabelPath
      → List Category
      → Result ServiceError (List Category)
  save_category now cur input slug active new_path rows =
      guard (any (λ c. is_category cur.id c && c.updated_at == cur.updated_at) rows)
        version_mismatch
      >> constraints rows cur.id slug input.parent_id input.hero_asset_id
      >> let rows' =
          update_rows (is_category cur.id) (replace_category now input slug active) rows in
        ok (if path_eq new_path cur.path then rows' else move_subtree now cur.path new_path rows')

  -- UpdateCategory from the row `cur` that the transaction has read on. It reads `seen` and writes to
  -- `rows`, which are the same unless another transaction commits in between; the flag says whether
  -- reindex_search is enqueued.
  unfoldable pub update_current :
      ℕ
      → ℕ
      → CategoryInput
      → Text
      → List Category
      → List Category
      → Category
      → Result ServiceError (List Category × Bool)
  update_current now id input if_match seen rows cur =
      let slug = if is_empty input.slug then cur.slug else input.slug in
      check_if_match if_match cur.updated_at
      >> (parent_path seen input.parent_id >>= λ top.
          guard (not (is_descendant id cur.path top input.parent_id))
            (invalid (codes "parentId" ∷ []))
          >> (save_category now cur input slug (flag_or cur.is_active input.is_active)
                (top ++ ltree_label slug ∷ []) rows
              >>= λ rows'. ok (rows', not (text_eq input.name cur.name))))

  -- UpdateCategory.
  unfoldable pub update_category :
      ℕ
      → ℕ
      → CategoryInput
      → Text
      → List Category
      → List Category
      → Result ServiceError (List Category × Bool)
  update_category now id raw if_match seen rows =
      let (input, errors) = validate raw in
      validation_err errors
      >> (get_category id seen >>= update_current now id input if_match seen rows)

-- DeleteCategory; the foreign keys refuse a category with children or products.
unfoldable pub delete_category :
    (ℕ → Bool) → ℕ → List Category → Result ServiceError (List Category)
delete_category has_products id rows = get_category id rows >>= λ cur.
    guard (not (any (λ c. has_parent id c.parent_id) rows || has_products id)) conflict
    >> ok (delete_rows (is_category id) rows)

-- The row that CreateCategory inserts.
unfoldable pub new_category : ℕ → ℕ → CategoryInput → Text → LabelPath → Category
new_category now id input slug top = record {
  id = id;
  parent_id = input.parent_id;
  name = input.name;
  slug = slug;
  path = top ++ ltree_label slug ∷ [];
  position = wrap32 input.position;
  description = input.description;
  hero_asset_id = input.hero_asset_id;
  is_active = flag_or true input.is_active;
  updated_at = now;
}

module _ (fold : Text → Option Text) where
  -- The slug of a new category: the input's, or the first free one of its name.
  unfoldable pub new_slug : CategoryInput → List Category → Result ServiceError Text
  new_slug input rows =
      if is_empty input.slug
      then (elim (free_slug fold (length rows + 1) input.name (λ s. any (has_slug s) rows)) [
        | none ↦ err unfinished
        | some s ↦ ok s
      ])
      else ok input.slug

module _ (fold : Text → Option Text) (asset_exists : ℕ → Bool) where
  -- CreateCategory.
  unfoldable pub create_category :
      ℕ → ℕ → CategoryInput → List Category → Result ServiceError (List Category)
  create_category now id raw rows =
      let (input, errors) = validate raw in
      validation_err errors
      >> (parent_path rows input.parent_id >>= λ top. new_slug fold input rows >>= λ slug.
          insert_category asset_exists (new_category now id input slug top) rows)
