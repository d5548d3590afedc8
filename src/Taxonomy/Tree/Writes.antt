-- ===== src/Taxonomy/Tree/Writes.antt =====
-- internal/service/taxonomy.go: CreateCategory, UpdateCategory and DeleteCategory on a tree. What
-- their checks establish stands here, the writes in the modules below.
pub mod Saved
pub mod Update
pub mod Create
pub mod Delete
use khans_bike.Common.{
  ℕ, zero, suc, ◌<◌, ◌≡◌, ◌≤◌, ◌+◌, refl, sym, ap, ◌∙◌, inl, inr, [], ◌∷◌, ◌++◌, List, Bool, true,
  false, not, ◌||◌, ◌&&◌, Option, none, some, arith, Bool-cases, Option-cases, Result, ok, err,
  ok-injective, length, length-append, if◌then◌else◌, ◌==◌, ==_refl,
}
use khans_bike.Common.Text.{
  Text, codes, is_empty, trim_space, text_eq, text_eq→eq, text_eq_refl, starts_with,
}
use khans_bike.Common.Int.{is_neg}
use khans_bike.Service.Validation.{
  require_text, optional_text, ServiceError, invalid, not_found, validation_err, add_field,
  validate_slug,
}
use khans_bike.Platform.Slug.Shape.{matches_slug}
use khans_bike.Taxonomy.Paths.{
  LabelPath, ltree_label, path_prefix, is_under, no_dots, no_dots-append, starts_with-path_prefix,
}
use khans_bike.Taxonomy.Labels.{is_plain, matches_slug-plain, no_dot-ltree_label}
use khans_bike.Taxonomy.Categories.{
  Category, CategoryInput, max_name_len, max_description_len, validate, get_category, parent_path,
  is_descendant,
}
use khans_bike.Taxonomy.Tree.{lookup, Hangs, IsTree, IsPlaced}

nothing_added : (xs ys zs ws : List Text) → validation_err (xs ++ ys ++ zs ++ ws) ≡ ok tt → zs ≡ []
nothing_added [] [] [] ws h = refl
nothing_added (x ∷ xs) ys zs ws h = cc
nothing_added [] (y ∷ ys) zs ws h = cc
nothing_added [] [] (z ∷ zs) ws h = cc

-- A slug that passes the checks is plain.
pub validate-slug :
    (raw : CategoryInput)
    → validation_err (validate raw).1 ≡ ok tt
    → is_empty (validate raw).0.slug ≡ false
    → is_plain (validate raw).0.slug ≡ true
unfolding validate validate_slug
validate-slug raw h filled =
    let slug = trim_space raw.slug in
    let none_added =
      nothing_added (require_text (codes "name") raw.name max_name_len).1
        (optional_text (codes "description") raw.description max_description_len).1
        (if is_empty slug then [] else validate_slug (codes "slug") slug)
        (add_field (is_neg raw.position) (codes "position")) h in
    matches_slug-plain slug (ground arith)

answered :
    (o : Option Category) (path : LabelPath)
    → (elim o as (λ _. Result ServiceError LabelPath) [
      | none ↦ err (invalid (codes "parentId" ∷ []))
      | some p ↦ ok p.path
    ])
      ≡ ok path
    → (q : Category) × (o ≡ some q) × (path ≡ q.path)
answered none path h = cc
answered (some q) path h = (q, refl, sym (ok-injective h))

pub parent_path-some :
    (rows : List Category) (p : ℕ) (path : LabelPath)
    → parent_path rows (some p) ≡ ok path
    → (q : Category) × (lookup p rows ≡ some q) × (path ≡ q.path)
unfolding parent_path
parent_path-some rows p path h = answered (lookup p rows) path h

got :
    (o : Option Category) (c : Category)
    → (elim o as (λ _. Result ServiceError Category) [ none ↦ err not_found | some x ↦ ok x ])
      ≡ ok c
    → o ≡ some c
got none c h = cc
got (some x) c h = ap some (ok-injective h)

pub get_category-some :
    (id : ℕ) (rows : List Category) (c : Category)
    → get_category id rows ≡ ok c
    → lookup id rows ≡ some c
unfolding get_category
get_category-some id rows c h = got (lookup id rows) c h

-- The prefix that parentPath answers with is the parent's path.
pub parent_path-Hangs :
    (rows : List Category) (parent : Option ℕ) (prefix_ : LabelPath) (slug : Text)
    → parent_path rows parent ≡ ok prefix_
    → Hangs rows parent (prefix_ ++ ltree_label slug ∷ []) slug
unfolding parent_path
parent_path-Hangs rows none prefix_ slug h =
    ap (λ p. p ++ ltree_label slug ∷ []) (sym (ok-injective h))
parent_path-Hangs rows (some p) prefix_ slug h =
    let (q, at, e) = parent_path-some rows p prefix_ h in
    (q, at, ap (λ path. path ++ ltree_label slug ∷ []) e)

no_dots-Hangs :
    (rows : List Category) (par : Option ℕ) (path : LabelPath) (slug : Text)
    → is_plain slug ≡ true
    → Hangs rows par path slug
    → ((p : ℕ) (q : Category)
        → lookup p rows ≡ some q
        → length q.path < length path
        → no_dots q.path ≡ true)
    → no_dots path ≡ true
no_dots-Hangs rows none path slug plain h shorter = rw (h, no_dot-ltree_label slug plain) refl
no_dots-Hangs rows (some p) path slug plain (q, at, e) shorter = rw e (
    no_dots-append q.path (ltree_label slug ∷ [])
      (shorter p q at (rw e (omega (arith, length-append q.path (ltree_label slug ∷ [])))))
      (rw (no_dot-ltree_label slug plain) refl))

-- The paths of a tree have no dots in their labels.
no_dots-within :
    (rows : List Category)
    → IsTree rows
    → (n i : ℕ) (c : Category) → lookup i rows ≡ some c
    → length c.path < n
    → no_dots c.path ≡ true
no_dots-within rows tree zero i c h bound = absurd (omega arith)
no_dots-within rows tree (suc n) i c h bound =
    no_dots-Hangs rows c.parent_id c.path c.slug (tree.2 i c h).0 (tree.2 i c h).1
      (λ p q at less. no_dots-within rows tree n p q at (omega arith))

pub no_dots-path :
    (rows : List Category)
    → IsTree rows
    → (i : ℕ) (c : Category) → lookup i rows ≡ some c
    → no_dots c.path ≡ true
no_dots-path rows tree i c h = no_dots-within rows tree (suc (length c.path)) i c h (omega arith)
