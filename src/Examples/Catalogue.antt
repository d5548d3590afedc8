-- ===== src/Examples/Catalogue.antt =====
-- Concrete runs of the category tree and of the version test.
use khans_bike.Common.{
  ℕ, ◌≡◌, ◌↔◌, refl, [], ◌∷◌, ◌++◌, List, Bool, true, false, Option, none, some, Result, ok, err,
  arith, map,
}
use khans_bike.Common.Int.{pos, wrap32}
use khans_bike.Common.Text.{Text, codes, is_space}
use khans_bike.Service.Validation.{
  ServiceError, invalid, conflict, etag, check_if_match, tag_matches, digits36, require_text,
  optional_text, validate_slug, free_slug, slug_base,
}
use khans_bike.Service.Validation.Versions.{check_if_match-etag}
use khans_bike.Taxonomy.Categories.{
  Category, CategoryInput, create_category, update_category, delete_category, validate, parent_path,
  new_slug, insert_category, constraints, new_category, update_current, save_category,
  replace_category, move_category, move_subtree, get_category,
}
use khans_bike.Taxonomy.Paths.{move_path}
use khans_bike.Platform.Slug.{
  slugify, sanitise, write_slug, slug_round, unique_from, candidate, slugify_with_suffix,
}
use khans_bike.Platform.Slug.Shape.{matches_slug}
use khans_bike.Taxonomy.Tree.{IsTree}
use khans_bike.Taxonomy.Tree.Reach.{Reachable, start, later, created, replaced, Reachable-IsTree}
use khans_bike.Taxonomy.Tree.Visible.{Ancestor, category_is_visible, category_is_visible-Ancestor}

abbrev read_at : ℕ
read_at = 5

abbrev changed_at : ℕ
changed_at = 7

check_if_match-etag_example :
    ((check_if_match (etag read_at) changed_at ≡ ok tt) ↔ (read_at ≡ changed_at))
    × ((check_if_match (codes "W/" ++ etag read_at) changed_at ≡ ok tt) ↔ (read_at ≡ changed_at))
check_if_match-etag_example = check_if_match-etag read_at changed_at (omega arith) (omega arith)

abbrev input : Option ℕ → Text → Text → CategoryInput
input parent name slug = record {
  parent_id = parent;
  name = name;
  slug = slug;
  position = pos 0;
  description = none;
  hero_asset_id = none;
  is_active = none;
}

abbrev category : ℕ → Option ℕ → Text → Text → List Text → ℕ → Category
category id parent name slug path at = record {
  id = id;
  parent_id = parent;
  name = name;
  slug = slug;
  path = path;
  position = pos 0;
  description = none;
  hero_asset_id = none;
  is_active = true;
  updated_at = at;
}

abbrev bikes : Category
bikes = category 1 none (codes "Bikes") (codes "bikes") (codes "bikes" ∷ []) 10

abbrev tyres : List Text → ℕ → Category
tyres path at =
    category 2 (some 1) (codes "Tyres") (codes "bike-tyres") (path ++ codes "bike_tyres" ∷ []) at

create_bikes :
    create_category some (λ _. true) 10 1 (input none (codes " Bikes ") []) [] ≡ ok (bikes ∷ [])
unfolding create_category validate require_text optional_text validate_slug parent_path new_slug
    free_slug slug_base slugify sanitise write_slug slug_round unique_from candidate
    slugify_with_suffix insert_category constraints new_category is_space wrap32 matches_slug
create_bikes = refl

create_tyres :
    create_category some
      (λ _. true)
      11
      2
      (input (some 1) (codes "Tyres") (codes "bike-tyres"))
      (bikes ∷ [])
    ≡ ok (tyres (codes "bikes" ∷ []) 11 ∷ bikes ∷ [])
unfolding create_category validate require_text optional_text validate_slug parent_path new_slug
    free_slug slug_base slugify sanitise write_slug slug_round unique_from candidate
    slugify_with_suffix insert_category constraints new_category is_space wrap32 matches_slug
create_tyres = refl

abbrev cycles : Category
cycles = category 1 none (codes "Cycles") (codes "cycles") (codes "cycles" ∷ []) 12

-- A new slug moves the subtree, and a new name rebuilds the search index.
rename_bikes :
    update_category
      (λ _. true)
      12
      1
      (input none (codes "Cycles") (codes "cycles"))
      (etag 10)
      (tyres (codes "bikes" ∷ []) 11 ∷ bikes ∷ [])
      (tyres (codes "bikes" ∷ []) 11 ∷ bikes ∷ [])
    ≡ ok (tyres (codes "cycles" ∷ []) 12 ∷ cycles ∷ [], true)
unfolding update_category update_current save_category replace_category move_category move_subtree
    move_path get_category check_if_match tag_matches etag digits36 validate require_text
    optional_text validate_slug parent_path new_slug free_slug slug_base slugify sanitise write_slug
    slug_round unique_from candidate slugify_with_suffix insert_category constraints new_category
    is_space wrap32 matches_slug
rename_bikes = refl

abbrev shop : List Category
shop = tyres (codes "cycles" ∷ []) 12 ∷ cycles ∷ []

reaches_shop : Reachable some shop
reaches_shop =
    later
      (later (later start (created (λ _. true) 10 1 (input none (codes " Bikes ") []) create_bikes))
        (created (λ _. true) 11 2 (input (some 1) (codes "Tyres") (codes "bike-tyres"))
          create_tyres))
      (replaced (λ _. true) 12 1 (input none (codes "Cycles") (codes "cycles")) (etag 10)
        rename_bikes)

Reachable-IsTree_example : IsTree shop
Reachable-IsTree_example = Reachable-IsTree some shop reaches_shop

category_is_visible-Ancestor_example :
    (category_is_visible 2 shop ≡ true)
    ↔ ((a : Category) → Ancestor shop a (tyres (codes "cycles" ∷ []) 12) → a.is_active ≡ true)
category_is_visible-Ancestor_example =
    category_is_visible-Ancestor shop (Reachable-IsTree some shop reaches_shop) 2
      (tyres (codes "cycles" ∷ []) 12) refl

-- A category under its own child is refused.
under_itself :
    update_category (λ _. true) 13 1 (input (some 2) (codes "Cycles") []) [] shop shop
    ≡ err (invalid (codes "parentId" ∷ []))
unfolding update_category update_current save_category get_category check_if_match validate
    require_text optional_text validate_slug parent_path new_slug free_slug slug_base slugify
    sanitise write_slug slug_round unique_from candidate slugify_with_suffix insert_category
    constraints new_category is_space wrap32 matches_slug
under_itself = refl

-- A category with children is not deleted.
delete_cycles : delete_category (λ _. false) 1 shop ≡ err conflict
unfolding delete_category get_category
delete_cycles = refl

-- Two roots, and two updates that have both read them before either is written: each category ends up
-- as the parent of the other.
abbrev roots : List Category
roots =
    category 1 none (codes "A") (codes "a") (codes "a" ∷ []) 10
    ∷ category 2 none (codes "B") (codes "b") (codes "b" ∷ []) 10
    ∷ []

abbrev parents : Result ServiceError (List Category × Bool) → List (Option ℕ)
parents (err _) = []
parents (ok (rows, _)) = map (λ c. c.parent_id) rows

abbrev answered_rows : Result ServiceError (List Category × Bool) → List Category
answered_rows (err _) = []
answered_rows (ok (rows, _)) = rows

own_ancestors :
    parents (
      update_category
        (λ _. true)
        21
        2
        (input (some 1) (codes "B") [])
        (etag 10)
        roots
        (answered_rows
          (update_category (λ _. true) 20 1 (input (some 2) (codes "A") []) (etag 10) roots roots)))
    ≡ some 2 ∷ some 1 ∷ []
unfolding update_category update_current save_category replace_category move_category move_subtree
    move_path get_category check_if_match tag_matches etag digits36 validate require_text
    optional_text validate_slug parent_path new_slug free_slug slug_base slugify sanitise write_slug
    slug_round unique_from candidate slugify_with_suffix insert_category constraints new_category
    is_space wrap32 matches_slug
own_ancestors = refl
