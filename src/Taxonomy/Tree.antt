-- ===== src/Taxonomy/Tree.antt =====
-- internal/service/taxonomy.go: when the rows of the table of categories form a tree, whose paths are
-- the chains of labels from the roots down.
mod Moving
pub mod Writes
pub mod Reach
pub mod Visible
use khans_bike.Common.{
  ℕ, ◌≡◌, refl, sym, ap, ◌∙◌, ◌⊎◌, inl, inr, [], ◌∷◌, ◌++◌, List, Bool, true, false, Option, none,
  some, ◌==◌, find_row, update_rows, updated_row, find_row-update_rows, find_row-All,
  update_rows-All, All, All-pure, All-imp, ==→eq, if◌then◌else◌, Bool-cases, Option-cases,
}
use khans_bike.Common.Text.{Text}
use khans_bike.Taxonomy.Paths.{LabelPath, ltree_label}
use khans_bike.Taxonomy.Labels.{is_plain}
use khans_bike.Taxonomy.Categories.{Category, is_category}

-- The category that an id names.
abbrev pub lookup : ℕ → List Category → Option Category
lookup id rows = find_row (is_category id) rows

-- A path hangs under its parent's path by the label of its slug.
abbrev pub Hangs : List Category → Option ℕ → LabelPath → Text → Type 0
Hangs rows none path slug = path ≡ ltree_label slug ∷ []
Hangs rows (some p) path slug =
    (parent : Category) × (lookup p rows ≡ some parent)
    × (path ≡ parent.path ++ ltree_label slug ∷ [])

abbrev pub IsPlaced : List Category → Category → Type 0
IsPlaced rows c = (is_plain c.slug ≡ true) × Hangs rows c.parent_id c.path c.slug

abbrev pub HasUniqueSlugs : List Category → Type 0
HasUniqueSlugs rows =
    (i j : ℕ) (c d : Category)
    → lookup i rows ≡ some c
    → lookup j rows ≡ some d
    → c.slug ≡ d.slug
    → i ≡ j

-- Every row is the one that its id names.
abbrev pub IsKeyed : List Category → Type 0
IsKeyed rows = All (λ c. lookup c.id rows ≡ some c) rows

abbrev pub IsTree : List Category → Type 0
IsTree rows =
    IsKeyed rows
    × HasUniqueSlugs rows
    × ((i : ℕ) (c : Category) → lookup i rows ≡ some c → IsPlaced rows c)

pub lookup-id : (i : ℕ) (rows : List Category) (c : Category) → lookup i rows ≡ some c → c.id ≡ i
lookup-id i rows c h =
    ==→eq c.id i
      (find_row-All (λ _. Unit {0}) (is_category i) rows c (All-pure (λ _. Unit {0}) (λ _. tt) rows)
        h).0

-- Every path ends in the label of its slug.
pub Hangs-label :
    (rows : List Category) (parent : Option ℕ) (path : LabelPath) (slug : Text)
    → Hangs rows parent path slug
    → (above : LabelPath) × (path ≡ above ++ ltree_label slug ∷ [])
Hangs-label rows none path slug h = ([], h)
Hangs-label rows (some p) path slug (parent, _, e) = (parent.path, e)

module _ (q : Category → Bool) (f : Category → Category)
    (same : (c : Category) → (f c).id ≡ c.id) where
  pub lookup-update :
      (i : ℕ) (rows : List Category)
      → lookup i (update_rows q f rows) ≡ updated_row q f (lookup i rows)
  lookup-update i rows = find_row-update_rows q f (is_category i) (λ c. rw (same c) refl) rows

  pub IsKeyed-update : (rows : List Category) → IsKeyed rows → IsKeyed (update_rows q f rows)
  IsKeyed-update rows keyed =
      update_rows-All (λ c. lookup c.id (update_rows q f rows) ≡ some c)
        (λ c. lookup c.id rows ≡ some c) q f rows
        (λ c here hit.
          ap (λ i. lookup i (update_rows q f rows)) (same c)
          ∙ lookup-update c.id rows
          ∙ ap (updated_row q f) here
          ∙ rw hit refl)
        (λ c here miss. lookup-update c.id rows ∙ ap (updated_row q f) here ∙ rw miss refl) keyed
