-- ===== src/Taxonomy/Tree/Writes/Delete.antt =====
-- internal/service/taxonomy.go: DeleteCategory, which deletes leaves only, on a tree of categories.
use mathlib.Core.Path.{subst}
use khans_bike.Common.{
  ℕ, ◌≡◌, refl, sym, ap, ◌∙◌, inl, inr, [], ◌∷◌, List, Bool, false, Option, none, some, arith,
  Bool-cases, Result-cases, ok, ◌==◌, ==→eq, any, find_row-any, All, delete_rows,
}
use khans_bike.Taxonomy.Paths.{LabelPath}
use khans_bike.Common.Text.{Text}
use khans_bike.Taxonomy.Categories.{
  Category, is_category, has_parent, get_category, delete_category,
}
use khans_bike.Taxonomy.Tree.{lookup, Hangs, IsTree}

module _ (id : ℕ) where
  lookup-gone : (rows : List Category) → lookup id (delete_rows (is_category id) rows) ≡ none
  lookup-gone [] = refl
  lookup-gone (c ∷ rows) = elim (Bool-cases (c.id == id)) [
    | inl y ↦ rw y (lookup-gone rows)
    | inr n ↦ rw (n, n) (lookup-gone rows)
  ]

  lookup-left :
      (i : ℕ) (rows : List Category)
      → (i == id) ≡ false
      → lookup i (delete_rows (is_category id) rows) ≡ lookup i rows
  lookup-left i [] ne = refl
  lookup-left i (c ∷ rows) ne = elim (Bool-cases (c.id == id)) [
    | inl y ↦ let miss : (c.id == i) ≡ false = ground arith in rw (y, miss) (lookup-left i rows ne)
    | inr n ↦ elim (Bool-cases (c.id == i)) [
      | inl here ↦ rw (n, here) refl
      | inr away ↦ rw (n, away) (lookup-left i rows ne)
    ]
  ]

  -- Only other ids name a category afterwards.
  survivor :
      (i : ℕ) (rows : List Category) (c : Category)
      → lookup i (delete_rows (is_category id) rows) ≡ some c
      → ((i == id) ≡ false) × (lookup i rows ≡ some c)
  survivor i rows c h = elim (Bool-cases (i == id)) [
    | inr n ↦ (n, sym (lookup-left i rows n) ∙ h)
    | inl y ↦
        let gone : lookup i (delete_rows (is_category id) rows) ≡ none =
          ap (λ k. lookup k (delete_rows (is_category id) rows)) (==→eq i id y)
          ∙ lookup-gone rows in
        cc
  ]

  module _ (rows : List Category)
      (childless : any (λ c. has_parent id c.parent_id) rows ≡ false) where
    parent_left :
        (par : Option ℕ) (path : LabelPath) (slug : Text)
        → has_parent id par ≡ false
        → Hangs rows par path slug
        → Hangs (delete_rows (is_category id) rows) par path slug
    parent_left none path slug n h = h
    parent_left (some p) path slug n (q, at, e) = (q, lookup-left p rows n ∙ at, e)

    kept_keys :
        (xs : List Category)
        → All (λ c. lookup c.id rows ≡ some c) xs
        → All
            (λ c. lookup c.id (delete_rows (is_category id) rows) ≡ some c)
            (delete_rows (is_category id) xs)
    kept_keys [] h = tt
    kept_keys (c ∷ xs) (here, h) = elim (Bool-cases (c.id == id)) [
      | inl y ↦ rw y (kept_keys xs h)
      | inr n ↦ rw n (lookup-left c.id rows n ∙ here, kept_keys xs h)
    ]

    leaf-IsTree : IsTree rows → IsTree (delete_rows (is_category id) rows)
    leaf-IsTree (keyed, unique, placed) = (
      kept_keys rows keyed,
      λ i j c d ec ed same. unique i j c d (survivor i rows c ec).1 (survivor j rows d ed).1 same,
      λ i c e.
          let (plain, hangs) = placed i c (survivor i rows c e).1 in
          (
            plain,
            parent_left c.parent_id c.path c.slug
                (find_row-any (λ d. has_parent id d.parent_id) (is_category i) rows c childless
                  (survivor i rows c e).1)
                hangs,
          ),
    )

-- DeleteCategory keeps the categories a tree.
pub delete_category-IsTree :
    (has_products : ℕ → Bool) (id : ℕ) (rows rows' : List Category)
    → IsTree rows
    → delete_category has_products id rows ≡ ok rows'
    → IsTree rows'
unfolding delete_category
delete_category-IsTree has_products id rows rows' tree h =
    elim (Result-cases (get_category id rows)) [
      | inl (e, no_) ↦ ground arith
      | inr (cur, yes_) ↦
          let childless : any (λ c. has_parent id c.parent_id) rows ≡ false = ground arith in
          let left : rows' ≡ delete_rows (is_category id) rows = ground arith in
          subst IsTree (sym left) (leaf-IsTree id rows childless tree)
    ]
