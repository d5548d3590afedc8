-- ===== src/Taxonomy/Tree/Writes/Create.antt =====
-- internal/service/taxonomy.go: CreateCategory on a tree of categories.
use mathlib.Core.Option.{some-injective}
use mathlib.Core.Path.{subst}
use khans_bike.Common.{
  ℕ, ◌≡◌, ◌≢◌, ◌⊎◌, refl, sym, ap, ◌∙◌, inl, inr, ◌∷◌, List, Bool, true, false, not, ◌&&◌, Option,
  none, some, arith, Bool-cases, Option-cases, Result-cases, ok, ◌==◌, ==_refl, ==→eq, any,
  find_row-any, All-imp, length, ◌+◌,
}
use khans_bike.Common.Text.{Text, is_empty, text_eq, text_eq_refl}
use khans_bike.Service.Validation.{validation_err, free_slug}
use khans_bike.Taxonomy.Paths.{LabelPath}
use khans_bike.Taxonomy.Labels.{is_plain, free_slug-plain}
use khans_bike.Taxonomy.Categories.{
  Category, CategoryInput, validate, is_category, has_slug, parent_path, constraints,
  insert_category, new_category, new_slug, create_category,
}
use khans_bike.Taxonomy.Tree.{lookup, lookup-id, Hangs, IsTree, IsPlaced}
use khans_bike.Taxonomy.Tree.Writes.{validate-slug, parent_path-Hangs}

-- A row in front of a table that has neither its id nor its slug.
module _ (rows : List Category) (new : Category) (tree : IsTree rows)
    (fresh : any (is_category new.id) rows ≡ false)
    (free : any (λ c. not (c.id == new.id) && has_slug new.slug c) rows ≡ false)
    (placed : IsPlaced rows new) where
  other_id : (i : ℕ) (c : Category) → lookup i rows ≡ some c → (new.id == i) ≡ false
  other_id i c e =
      let test = find_row-any (is_category new.id) (is_category i) rows c fresh e in
      let own = lookup-id i rows c e in ground arith

  kept : (i : ℕ) (c : Category) → lookup i rows ≡ some c → lookup i (new ∷ rows) ≡ some c
  kept i c e = rw (other_id i c e) e

  found :
      (i : ℕ) (c : Category)
      → lookup i (new ∷ rows) ≡ some c
      → ((i ≡ new.id) × (c ≡ new)) ⊎ (lookup i rows ≡ some c)
  found i c e = elim (Bool-cases (new.id == i)) [
    | inl y ↦ inl (sym (==→eq new.id i y), sym (some-injective new c (ground arith)))
    | inr n ↦ inr (ground arith)
  ]

  Hangs-kept :
      (par : Option ℕ) (path : LabelPath) (slug : Text)
      → Hangs rows par path slug
      → Hangs (new ∷ rows) par path slug
  Hangs-kept none path slug h = h
  Hangs-kept (some p) path slug (q, at, e) = (q, kept p q at, e)

  slug_taken : (i : ℕ) (c : Category) → lookup i rows ≡ some c → new.slug ≢ c.slug
  slug_taken i c e same =
      let test =
        find_row-any (λ c. not (c.id == new.id) && has_slug new.slug c) (is_category i) rows c free
          e in
      let own = lookup-id i rows c e in
      let other = other_id i c e in
      let equal : text_eq new.slug c.slug ≡ true =
        ap (text_eq new.slug) (sym same) ∙ text_eq_refl new.slug in
      ground arith

  cons-IsTree : IsTree (new ∷ rows)
  cons-IsTree = (
    (
      rw (==_refl new.id) refl,
      All-imp (λ c. lookup c.id rows ≡ some c) (λ c. lookup c.id (new ∷ rows) ≡ some c)
          (λ c e. kept c.id c e) rows tree.0,
    ),
    λ i j c d ec ed same. elim (found i c ec) [
      | inl (ic, cn) ↦ elim (found j d ed) [
        | inl (jd, dn) ↦ ic ∙ sym jd
        | inr old ↦ absurd (slug_taken j d old (sym (ap (λ c. c.slug) cn) ∙ same))
      ]
      | inr old ↦ elim (found j d ed) [
        | inl (jd, dn) ↦ absurd (slug_taken i c old (sym (ap (λ c. c.slug) dn) ∙ sym same))
        | inr older ↦ tree.1 i j c d old older same
      ]
    ],
    λ i c e. elim (found i c e) [
      | inl (ic, cn) ↦
          subst (IsPlaced (new ∷ rows)) (sym cn)
            (placed.0, Hangs-kept new.parent_id new.path new.slug placed.1)
      | inr old ↦
          let (plain, hangs) = tree.2 i c old in (plain, Hangs-kept c.parent_id c.path c.slug hangs)
    ],
  )

insert_category-ok :
    (asset_exists : ℕ → Bool) (c : Category) (rows rows' : List Category)
    → insert_category asset_exists c rows ≡ ok rows'
    → (any (is_category c.id) rows ≡ false)
      × (any (λ d. not (d.id == c.id) && has_slug c.slug d) rows ≡ false)
      × (rows' ≡ c ∷ rows)
unfolding insert_category constraints
insert_category-ok asset_exists c rows rows' h = (ground arith, ground arith, ground arith)

module _ (fold : Text → Option Text) where
  abbrev derived : CategoryInput → List Category → Option Text
  derived raw rows =
      free_slug fold (length rows + 1) (validate raw).0.name (λ s. any (has_slug s) rows)

  new_slug-plain :
      (raw : CategoryInput) (rows : List Category) (slug : Text)
      → validation_err (validate raw).1 ≡ ok tt
      → new_slug fold (validate raw).0 rows ≡ ok slug
      → is_plain slug ≡ true
  unfolding new_slug
  new_slug-plain raw rows slug valid h = elim (Bool-cases (is_empty (validate raw).0.slug)) [
    | inr n ↦
        let same : slug ≡ (validate raw).0.slug = ground arith in
        rw same (validate-slug raw valid n)
    | inl y ↦ elim (Option-cases (derived raw rows)) [
      | inl gone ↦ ground arith
      | inr (s, e) ↦
          let same : slug ≡ s = ground arith in
          rw same
            (free_slug-plain fold (length rows + 1) (validate raw).0.name
              (λ s. any (has_slug s) rows) s e).0
    ]
  ]

  module _ (asset_exists : ℕ → Bool) where
    -- CreateCategory keeps the categories a tree.
    pub create_category-IsTree :
        (now id : ℕ) (raw : CategoryInput) (rows rows' : List Category)
        → IsTree rows
        → create_category fold asset_exists now id raw rows ≡ ok rows'
        → IsTree rows'
    unfolding create_category
    create_category-IsTree now id raw rows rows' tree h =
        let input = (validate raw).0 in
        elim (Result-cases (parent_path rows input.parent_id)) [
          | inl (e, no_) ↦ ground arith
          | inr (top, parent) ↦ elim (Result-cases (new_slug fold input rows)) [
            | inl (e, no_) ↦ ground arith
            | inr (slug, named) ↦
                let new = new_category now id input slug top in
                let (fresh, free, left) =
                  insert_category-ok asset_exists new rows rows' (ground arith) in
                subst IsTree (sym left) (
                  cons-IsTree rows new tree fresh free (
                    unfold new_category in
                    (
                      new_slug-plain raw rows slug (ground arith) named,
                      parent_path-Hangs rows input.parent_id top slug parent,
                    )))
          ]
        ]
