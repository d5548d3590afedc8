-- ===== src/Taxonomy/Tree/Writes/Saved.antt =====
-- internal/service/taxonomy.go and internal/store/gen/categories.sql.go: the rows after the two
-- statements of UpdateCategory.
use khans_bike.Common.{
  ℕ, ◌≡◌, refl, sym, ap, ◌∙◌, inl, inr, List, Bool, true, false, not, ◌||◌, ◌&&◌, Option, none,
  some, arith, Bool-cases, ok, if◌then◌else◌, ◌==◌, update_rows, updated_row, any, find_row-any,
}
use khans_bike.Common.Text.{Text, text_eq, text_eq_refl}
use khans_bike.Taxonomy.Paths.{
  LabelPath, is_under, path_eq, move_path, move_path-same, move_path-other,
}
use khans_bike.Taxonomy.Categories.{
  Category, CategoryInput, is_category, has_slug, replace_category, move_category, move_subtree,
  constraints, save_category,
}
use khans_bike.Taxonomy.Tree.{lookup, lookup-id, lookup-update, IsKeyed-update, IsKeyed}
use khans_bike.Taxonomy.Tree.Moving.{IsMoved}

abbrev map_some : (Category → Category) → Option Category → Option Category
map_some f none = none
map_some f (some c) = some (f c)

-- The row after both statements.
module _ (now : ℕ) (cur : Category) (input : CategoryInput) (slug : Text) (active : Bool)
    (new : LabelPath) where
  pub replaced : Category → Category
  replaced c = if is_category cur.id c then replace_category now input slug active c else c

  pub moved : Category → Category
  moved c = if is_under cur.path c.path then move_category now cur.path new c else c

  replaced-fields :
      (c : Category)
      → ((replaced c).path ≡ c.path)
        × ((c.id == cur.id) ≡ true
            → ((replaced c).parent_id ≡ input.parent_id) × ((replaced c).slug ≡ slug))
        × ((c.id == cur.id) ≡ false
            → ((replaced c).parent_id ≡ c.parent_id) × ((replaced c).slug ≡ c.slug))
  unfolding replaced replace_category
  replaced-fields c = elim (Bool-cases (c.id == cur.id)) [
    | inl y ↦ rw y (refl, (λ _. (refl, refl)), λ e. cc)
    | inr n ↦ rw n (refl, (λ e. cc), λ _. (refl, refl))
  ]

  moved-fields :
      (c : Category)
      → ((moved c).path ≡ move_path cur.path new c.path)
        × ((moved c).parent_id ≡ c.parent_id)
        × ((moved c).slug ≡ c.slug)
  unfolding moved move_category
  moved-fields c = elim (Bool-cases (is_under cur.path c.path)) [
    | inl y ↦ rw y (refl, refl, refl)
    | inr n ↦ rw n (sym (move_path-other cur.path new c.path n), refl, refl)
  ]

  abbrev pub saved_rows : List Category → List Category
  saved_rows rows =
      let rows' = update_rows (is_category cur.id) (replace_category now input slug active) rows in
      if path_eq new cur.path then rows' else move_subtree now cur.path new rows'

  -- The row that an id names afterwards.
  abbrev saved_row : Category → Category
  saved_row c = if path_eq new cur.path then replaced c else moved (replaced c)

  saved_row-IsMoved : (c : Category) → IsMoved cur new input.parent_id slug c (saved_row c)
  saved_row-IsMoved c =
      let (p, own, other) = replaced-fields c in
      elim (Bool-cases (path_eq new cur.path)) [
        | inl y ↦ rw y (p ∙ sym (move_path-same cur.path new c.path y), own, other)
        | inr n ↦
            let (mp, mpar, ms) = moved-fields (replaced c) in
            rw n (
              mp ∙ ap (move_path cur.path new) p,
              λ e. (mpar ∙ (own e).0, ms ∙ (own e).1),
              λ e. (mpar ∙ (other e).0, ms ∙ (other e).1),
            )
      ]

  lookup-replaced :
      (rows : List Category) (i : ℕ) (o : Option Category)
      → lookup i rows ≡ o
      → lookup i (update_rows (is_category cur.id) (replace_category now input slug active) rows)
        ≡ map_some replaced o
  unfolding replaced
  lookup-replaced rows i none h =
      lookup-update (is_category cur.id) (replace_category now input slug active)
        (λ c. unfold replace_category in refl) i rows
      ∙ ap (updated_row (is_category cur.id) (replace_category now input slug active)) h
  lookup-replaced rows i (some c) h =
      lookup-update (is_category cur.id) (replace_category now input slug active)
        (λ c. unfold replace_category in refl) i rows
      ∙ ap (updated_row (is_category cur.id) (replace_category now input slug active)) h

  lookup-moved :
      (rows : List Category) (i : ℕ) (o : Option Category)
      → lookup i rows ≡ o
      → lookup i (move_subtree now cur.path new rows) ≡ map_some moved o
  unfolding moved move_subtree
  lookup-moved rows i none h =
      lookup-update (λ c. is_under cur.path c.path) (move_category now cur.path new)
        (λ c. unfold move_category in refl) i rows
      ∙ ap (updated_row (λ c. is_under cur.path c.path) (move_category now cur.path new)) h
  lookup-moved rows i (some c) h =
      lookup-update (λ c. is_under cur.path c.path) (move_category now cur.path new)
        (λ c. unfold move_category in refl) i rows
      ∙ ap (updated_row (λ c. is_under cur.path c.path) (move_category now cur.path new)) h

  pub lookup-saved_rows :
      (rows : List Category) (i : ℕ) (o : Option Category)
      → lookup i rows ≡ o
      → lookup i (saved_rows rows) ≡ map_some saved_row o
  lookup-saved_rows rows i none h =
      let first = lookup-replaced rows i none h in
      elim (Bool-cases (path_eq new cur.path)) [
        | inl y ↦ rw y first
        | inr n ↦ rw n (lookup-moved _ i none first)
      ]
  lookup-saved_rows rows i (some c) h =
      let first = lookup-replaced rows i (some c) h in
      elim (Bool-cases (path_eq new cur.path)) [
        | inl y ↦ rw y first
        | inr n ↦ rw n (lookup-moved _ i (some (replaced c)) first)
      ]

  pub kept-saved_rows :
      (rows : List Category) (i : ℕ) (c : Category)
      → lookup i rows ≡ some c
      → (c' : Category) × (lookup i (saved_rows rows) ≡ some c')
        × IsMoved cur new input.parent_id slug c c'
  kept-saved_rows rows i c h =
      (saved_row c, lookup-saved_rows rows i (some c) h, saved_row-IsMoved c)

  pub IsKeyed-saved_rows : (rows : List Category) → IsKeyed rows → IsKeyed (saved_rows rows)
  IsKeyed-saved_rows rows keyed =
      let first =
        IsKeyed-update (is_category cur.id) (replace_category now input slug active)
          (λ c. unfold replace_category in refl) rows keyed in
      elim (Bool-cases (path_eq new cur.path)) [
        | inl y ↦ rw y first
        | inr n ↦ rw n (
            unfold move_subtree in
            IsKeyed-update (λ c. is_under cur.path c.path) (move_category now cur.path new)
              (λ c. unfold move_category in refl) _ first)
      ]

-- What a save that succeeds has checked, and what it leaves.
pub save_category-ok :
    (asset_exists : ℕ → Bool) (now : ℕ) (cur : Category) (input : CategoryInput) (slug : Text)
    (active : Bool) (new : LabelPath) (rows rows' : List Category)
    → save_category asset_exists now cur input slug active new rows ≡ ok rows'
    → (any (λ c. not (c.id == cur.id) && has_slug slug c) rows ≡ false)
      × (rows' ≡ saved_rows now cur input slug active new rows)
unfolding save_category constraints
save_category-ok asset_exists now cur input slug active new rows rows' h =
    (ground arith, ground arith)

pub ||-right : (a b : Bool) → (a || b) ≡ false → b ≡ false
||-right a b h = ground arith

-- The unique key of slugs: no other category has the slug that is written.
pub slug_is_free :
    (rows : List Category) (cur : Category) (slug : Text)
    → any (λ c. not (c.id == cur.id) && has_slug slug c) rows ≡ false
    → (i : ℕ) (c : Category) → lookup i rows ≡ some c
    → c.slug ≡ slug
    → i ≡ cur.id
slug_is_free rows cur slug h i c e same =
    let test =
      find_row-any (λ c. not (c.id == cur.id) && has_slug slug c) (is_category i) rows c h e in
    let own = lookup-id i rows c e in
    let equal : text_eq slug c.slug ≡ true = ap (text_eq slug) same ∙ text_eq_refl slug in
    ground arith
