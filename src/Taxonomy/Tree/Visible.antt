-- ===== src/Taxonomy/Tree/Visible.antt =====
-- CategoryIsVisible of internal/store/gen/categories.sql.go, which compares paths, against the
-- ancestors that the parents' ids lead to.
use mathlib.Core.Option.{some-injective}
use mathlib.Core.Path.{subst}
use khans_bike.Common.{
  ℕ, zero, suc, ◌<◌, ◌≡◌, ◌↔◌, refl, sym, ap, ◌∙◌, inl, inr, [], ◌∷◌, ◌++◌, List, Bool, true, false,
  not, ◌&&◌, Option, none, some, arith, Bool-cases, ◌==◌, any, any-some, find_row-any, &&-eq-true,
  ==→eq, length, length-append,
}
use khans_bike.Taxonomy.Paths.{
  ltree_label, path_eq, path_eq→eq, is_under, is_under_refl, is_under-append, is_under-snoc,
  is_under-root, snoc_last,
}
use khans_bike.Taxonomy.Labels.{ltree_label-injective}
use khans_bike.Taxonomy.Categories.{Category, is_category}
use khans_bike.Taxonomy.Tree.{lookup, lookup-id, Hangs, Hangs-label, IsTree}

-- An ancestor of the category `$1` by its path, that is not active.
abbrev pub hides : Category → Category → Bool
hides c anc = is_under anc.path c.path && not anc.is_active

-- CategoryIsVisible.
unfoldable pub category_is_visible : ℕ → List Category → Bool
category_is_visible id rows = not (any (λ c. is_category id c && any (hides c) rows) rows)

-- A category and what the ids of the parents lead to from it: `a` lies above `c`, or is it.
pub data Ancestor (rows : List Category) (a : Category) : Category → Type 0 where
  itself : Ancestor rows a a
  below :
      {c parent : Category} (p : ℕ)
      → c.parent_id ≡ some p
      → lookup p rows ≡ some parent
      → Ancestor rows a parent
      → Ancestor rows a c

hidden_or : (i j : ℕ) (b : Bool) → j ≡ i → (j == i && b) ≡ false → b ≡ false
hidden_or i j b e h = ground arith

module _ (rows : List Category) (tree : IsTree rows) where
  same_path :
      (i j : ℕ) (c a : Category)
      → lookup i rows ≡ some c
      → lookup j rows ≡ some a
      → c.path ≡ a.path
      → c ≡ a
  same_path i j c a ec ea same =
      let (topc, endc) = Hangs-label rows c.parent_id c.path c.slug (tree.2 i c ec).1 in
      let (topa, enda) = Hangs-label rows a.parent_id a.path a.slug (tree.2 j a ea).1 in
      let labels =
        snoc_last topc topa (ltree_label c.slug) (ltree_label a.slug) (sym endc ∙ same ∙ enda) in
      let slugs = ltree_label-injective c.slug a.slug (tree.2 i c ec).0 (tree.2 j a ea).0 labels in
      let ids = tree.1 i j c a ec ea slugs in
      some-injective c a (sym ec ∙ ap (λ k. lookup k rows) ids ∙ ea)

  to_parent :
      (a c : Category) (i : ℕ) (par : Option ℕ)
      → c.parent_id ≡ par
      → lookup i rows ≡ some c
      → Hangs rows par c.path c.slug
      → path_eq c.path a.path ≡ false
      → is_under a.path c.path ≡ true
      → ((j : ℕ) (q : Category)
          → lookup j rows ≡ some q
          → length q.path < length c.path
          → is_under a.path q.path ≡ true
          → Ancestor rows a q)
      → is_under a.path [] ≡ false
      → Ancestor rows a c
  to_parent a c i none is_par e path ne under shorter not_root =
      let up : is_under a.path ([] ++ ltree_label c.slug ∷ []) ≡ is_under a.path [] =
        is_under-snoc a.path [] (ltree_label c.slug) (ap (λ p. path_eq p a.path) (sym path) ∙ ne) in
      let there : is_under a.path ([] ++ ltree_label c.slug ∷ []) ≡ true =
        ap (is_under a.path) (sym path) ∙ under in
      absurd (cc)
  to_parent a c i (some p) is_par e (q, at, path) ne under shorter not_root =
      let up =
        is_under-snoc a.path q.path (ltree_label c.slug)
          (ap (λ p. path_eq p a.path) (sym path) ∙ ne) in
      let less : length q.path < length c.path =
        rw path (omega (arith, length-append q.path (ltree_label c.slug ∷ []))) in
      below p is_par at (shorter p q at less (sym up ∙ ap (is_under a.path) (sym path) ∙ under))

  found_above :
      (n i j : ℕ) (a c : Category)
      → lookup j rows ≡ some a
      → lookup i rows ≡ some c
      → length c.path < n
      → is_under a.path c.path ≡ true
      → Ancestor rows a c
  found_above zero i j a c ea ec bound under = absurd (omega arith)
  found_above (suc n) i j a c ea ec bound under = elim (Bool-cases (path_eq c.path a.path)) [
    | inl same ↦
        subst (Ancestor rows a) (sym (same_path i j c a ec ea (path_eq→eq c.path a.path same)))
          itself
    | inr ne ↦
        let (top, ends) = Hangs-label rows a.parent_id a.path a.slug (tree.2 j a ea).1 in
        to_parent a c i c.parent_id refl ec (tree.2 i c ec).1 ne under
          (λ k q at less low. found_above n k j a q ea at (omega arith) low)
          (ap (λ p. is_under p []) ends ∙ is_under-root top (ltree_label a.slug))
  ]

  -- An ancestor is a row, and the path of its descendant lies under its own.
  Ancestor-under :
      (a : Category) (i : ℕ) (c : Category)
      → Ancestor rows a c
      → lookup i rows ≡ some c
      → (j : ℕ) × (lookup j rows ≡ some a) × (is_under a.path c.path ≡ true)
  Ancestor-under a i c itself e = (i, e, is_under_refl a.path)
  Ancestor-under a i c (below {parent = parent} p is_par at up) e =
      let (j, ea, under) = Ancestor-under a p parent up at in
      let (q, at', path) = subst (λ par. Hangs rows par c.path c.slug) is_par (tree.2 i c e).1 in
      let same : q ≡ parent = some-injective q parent (sym at' ∙ at) in
      (
        j,
        ea,
        ap (is_under a.path) (path ∙ ap (λ x. x.path ++ ltree_label c.slug ∷ []) same)
            ∙ is_under-append a.path parent.path (ltree_label c.slug ∷ []) under,
      )

  -- In a tree, a category is visible exactly when it and every ancestor, by the ids of the parents, are
  -- active.
  pub category_is_visible-Ancestor :
      (i : ℕ) (c : Category)
      → lookup i rows ≡ some c
      → (category_is_visible i rows ≡ true)
        ↔ ((a : Category) → Ancestor rows a c → a.is_active ≡ true)
  unfolding category_is_visible
  category_is_visible-Ancestor i c e = (
    λ visible a up.
        let (j, ea, under) = Ancestor-under a i c up e in
        let shown : any (λ d. is_category i d && any (hides d) rows) rows ≡ false = ground arith in
        let own =
          find_row-any (λ d. is_category i d && any (hides d) rows) (is_category i) rows c shown
            e in
        let at = lookup-id i rows c e in
        let unhidden : any (hides c) rows ≡ false = hidden_or i c.id (any (hides c) rows) at own in
        let test = find_row-any (hides c) (is_category j) rows a unhidden ea in ground arith,
    λ active. elim (Bool-cases (any (λ d. is_category i d && any (hides d) rows) rows)) [
      | inr n ↦ rw n refl
      | inl y ↦
          let (d, ed, tests) =
            any-some (λ x. lookup x.id rows ≡ some x) (λ d. is_category i d && any (hides d) rows)
              rows tree.0 y in
          let (is_i, hidden) = &&-eq-true (d.id == i) (any (hides d) rows) tests in
          let same : d ≡ c =
            some-injective d c (sym ed ∙ ap (λ k. lookup k rows) (==→eq d.id i is_i) ∙ e) in
          let (a, ea, hiding) =
            any-some (λ x. lookup x.id rows ≡ some x) (hides c) rows tree.0
              (ap (λ x. any (hides x) rows) (sym same) ∙ hidden) in
          let (under, idle) = &&-eq-true (is_under a.path c.path) (not a.is_active) hiding in
          let shown =
            active a (found_above (suc (length c.path)) i a.id a c ea e (omega arith) under) in
          absurd (cc)
    ],
  )
