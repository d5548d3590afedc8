-- ===== src/Taxonomy/Tree/Moving.antt =====
-- internal/service/taxonomy.go: what UpdateCategory does to a tree, seen through the ids: one category
-- gets a new parent and slug, and the paths under its old path move to its new one.
use mathlib.Core.Option.{some-injective}
use mathlib.Core.Path.{subst}
use khans_bike.Common.{
  ℕ, ◌≡◌, refl, sym, ap, ◌∙◌, inl, inr, [], ◌∷◌, ◌++◌, List, true, false, Option, none, some, ◌==◌,
  ==→eq, Bool-cases, Option-cases, ==_refl, arith,
}
use khans_bike.Common.Text.{Text}
use khans_bike.Taxonomy.Paths.{
  LabelPath, ltree_label, path_eq, path_eq→eq, is_under, move_path, move_path_self, move_path-other,
  move_path-snoc, snoc_last, is_under-root,
}
use khans_bike.Taxonomy.Labels.{is_plain, ltree_label-injective}
use khans_bike.Taxonomy.Categories.{Category}
use khans_bike.Taxonomy.Tree.{lookup, lookup-id, Hangs, Hangs-label, IsPlaced, HasUniqueSlugs}

-- What becomes of a row `c` when `cur` is replaced and its subtree moves to `new`.
abbrev pub IsMoved : Category → LabelPath → Option ℕ → Text → Category → Category → Type 0
IsMoved cur new parent slug c c' =
    (c'.path ≡ move_path cur.path new c.path)
    × ((c.id == cur.id) ≡ true → (c'.parent_id ≡ parent) × (c'.slug ≡ slug))
    × ((c.id == cur.id) ≡ false → (c'.parent_id ≡ c.parent_id) × (c'.slug ≡ c.slug))

-- The new parent is neither the category nor under it.
abbrev pub IsAbove : List Category → Category → Option ℕ → Type 0
IsAbove rows cur parent =
    (p : ℕ) (q : Category)
    → parent ≡ some p
    → lookup p rows ≡ some q
    → is_under cur.path q.path ≡ false

module _ (rows rows' : List Category) (cur : Category) (new : LabelPath) (parent : Option ℕ)
    (slug : Text) (unique : HasUniqueSlugs rows)
    (placed : (i : ℕ) (c : Category) → lookup i rows ≡ some c → IsPlaced rows c)
    (here : lookup cur.id rows ≡ some cur)
    (free : (i : ℕ) (c : Category) → lookup i rows ≡ some c → c.slug ≡ slug → i ≡ cur.id)
    (plain : is_plain slug ≡ true) (hangs : Hangs rows parent new slug)
    (above : IsAbove rows cur parent)
    (lost : (i : ℕ) → lookup i rows ≡ none → lookup i rows' ≡ none)
    (kept : (i : ℕ) (c : Category)
      → lookup i rows ≡ some c
      → (c' : Category) × (lookup i rows' ≡ some c') × IsMoved cur new parent slug c c') where
  before :
      (i : ℕ) (c' : Category)
      → lookup i rows' ≡ some c'
      → (c : Category) × (lookup i rows ≡ some c) × IsMoved cur new parent slug c c'
  before i c' h = elim (Option-cases (lookup i rows)) [
    | inl gone ↦ cc (lost i gone)
    | inr (c, e) ↦
        let (c2, e2, moved) = kept i c e in
        let same : c2 ≡ c' = some-injective c2 c' (sym e2 ∙ h) in
        (c, e, subst (IsMoved cur new parent slug c) same moved)
  ]

  -- The old path is not empty.
  root_stays : move_path cur.path new [] ≡ []
  root_stays =
      let (top, ends) =
        Hangs-label rows cur.parent_id cur.path cur.slug (placed cur.id cur here).1 in
      move_path-other cur.path new []
        (ap (λ p. is_under p []) ends ∙ is_under-root top (ltree_label cur.slug))

  own_row :
      (i : ℕ) (c : Category)
      → lookup i rows ≡ some c
      → (c.id == cur.id) ≡ true
      → (i ≡ cur.id) × (c ≡ cur)
  own_row i c e eq =
      let at : i ≡ cur.id = sym (lookup-id i rows c e) ∙ ==→eq c.id cur.id eq in
      (at, some-injective c cur (sym e ∙ ap (λ k. lookup k rows) at ∙ here))

  -- No other category's path is the old path of `cur`.
  other_path :
      (i : ℕ) (c : Category) (p : LabelPath)
      → lookup i rows ≡ some c
      → (c.id == cur.id) ≡ false
      → path_eq (p ++ ltree_label c.slug ∷ []) cur.path ≡ false
  other_path i c p e other = elim (Bool-cases (path_eq (p ++ ltree_label c.slug ∷ []) cur.path)) [
    | inr no_ ↦ no_
    | inl same ↦
        let (top, ends) =
          Hangs-label rows cur.parent_id cur.path cur.slug (placed cur.id cur here).1 in
        let labels =
          snoc_last p top (ltree_label c.slug) (ltree_label cur.slug)
            (path_eq→eq (p ++ ltree_label c.slug ∷ []) cur.path same ∙ ends) in
        let slugs =
          ltree_label-injective c.slug cur.slug (placed i c e).0 (placed cur.id cur here).0
            labels in
        let ids = unique i cur.id c cur e here slugs in
        let own = lookup-id i rows c e in ground arith
  ]

  -- The category itself hangs under its new parent, which does not move.
  IsPlaced-cur : (c' : Category) → IsMoved cur new parent slug cur c' → IsPlaced rows' c'
  IsPlaced-cur c' (path, own, other) =
      let (p, s) = own (==_refl cur.id) in
      let at_new : c'.path ≡ new = path ∙ move_path_self cur.path new in
      rw (p, s, at_new) (plain, under parent hangs above)
    where
      under :
          (par : Option ℕ)
          → Hangs rows par new slug
          → IsAbove rows cur par
          → Hangs rows' par new slug
      under none h free_of = h
      under (some i) (q, e, path') free_of =
          let (q', e', moved) = kept i q e in
          (q', e', rw (moved.0, move_path-other cur.path new q.path (free_of i q refl e)) path')

  -- Any other category hangs where it hung, and its parent's path moves with its own.
  IsPlaced-other :
      (i : ℕ) (c c' : Category)
      → lookup i rows ≡ some c
      → (c.id == cur.id) ≡ false
      → IsMoved cur new parent slug c c'
      → IsPlaced rows' c'
  IsPlaced-other i c c' e ne (path, own, other) =
      let (p, s) = other ne in rw (p, s) ((placed i c e).0, under c.parent_id (placed i c e).1)
    where
      under : (par : Option ℕ) → Hangs rows par c.path c.slug → Hangs rows' par c'.path c.slug
      under none h =
          rw (path, h, move_path-snoc cur.path new [] (ltree_label c.slug) (other_path i c [] e ne))
            (rw root_stays refl)
      under (some j) (q, at, h) =
          let (q', at', moved) = kept j q at in
          (
            q',
            at',
            rw
                (
                  path,
                  h,
                  move_path-snoc cur.path new q.path (ltree_label c.slug)
                      (other_path i c q.path e ne),
                  moved.0,
                )
                refl,
          )

  pub IsPlaced-moved : (i : ℕ) (c' : Category) → lookup i rows' ≡ some c' → IsPlaced rows' c'
  IsPlaced-moved i c' h =
      let (c, e, moved) = before i c' h in
      elim (Bool-cases (c.id == cur.id)) [
        | inr ne ↦ IsPlaced-other i c c' e ne moved
        | inl eq ↦
            IsPlaced-cur c'
              (subst (λ x. IsMoved cur new parent slug x c') (own_row i c e eq).1 moved)
      ]

  pub unique_moved : HasUniqueSlugs rows'
  unique_moved i j c' d' hc hd same =
      let (c, ec, mc) = before i c' hc in
      let (d, ed, md) = before j d' hd in
      elim (Bool-cases (c.id == cur.id)) [
        | inl a ↦ elim (Bool-cases (d.id == cur.id)) [
          | inl b ↦ (own_row i c ec a).0 ∙ sym (own_row j d ed b).0
          | inr b ↦
              (own_row i c ec a).0 ∙ sym (free j d ed (sym (md.2 b).1 ∙ sym same ∙ (mc.1 a).1))
        ]
        | inr a ↦ elim (Bool-cases (d.id == cur.id)) [
          | inl b ↦ free i c ec (sym (mc.2 a).1 ∙ same ∙ (md.1 b).1) ∙ sym (own_row j d ed b).0
          | inr b ↦ unique i j c d ec ed (sym (mc.2 a).1 ∙ same ∙ (md.2 b).1)
        ]
      ]
