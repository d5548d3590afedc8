-- ===== src/Importer/Commit/Safe.antt =====
-- internal/importer/importer.go: the nil pointers that the committer could dereference.
use khans_bike.Common.{
  ℕ, ◌≡◌, ◌≢◌, refl, inl, inr, Bool, true, ◌&&◌, Option, none, some, List, [], ◌∷◌, arith, All,
  Bool-cases, Option-cases, Result, ok, err, ◌>>=◌,
}
use khans_bike.Common.Text.{Text, text_eq}
use khans_bike.Domain.Status.{is_merge}
use khans_bike.Importer.Staging.{Proposal}
use khans_bike.Importer.Review.{ImportRow}
use khans_bike.Importer.Ready.{row_is_ready}
use khans_bike.Importer.Commit.{
  VariantInput, Services, Committer, Failure, service_error, nil_dereference, call, is_applied,
  rows_of, last_target, brand_id_of, supplier_id_of, variant_input, variant_inputs, merge_row,
  merge_rows, extend_product, new_product, place_variants, set_targets, add_rows, apply_group,
}

-- Results that are no panic.
abbrev pub Safe : {A E : Type 0} → Result (Failure E) A → Type 0
Safe r = r ≢ err nil_dereference

Safe-call : {A E : Type 0} (r : Result E A) → Safe (call r)
Safe-call (err e) h = cc
Safe-call (ok a) h = cc

Safe->>= :
    {A B E : Type 0} (m : Result (Failure E) A) (rest : A → Result (Failure E) B)
    → Safe m
    → ((a : A) → Safe (rest a))
    → Safe (m >>= rest)
Safe->>= (err (service_error e)) rest h k same = cc
Safe->>= (err nil_dereference) rest h k same = h refl
Safe->>= (ok a) rest h k same = k a same

-- Every row to be merged names its product and its variant.
abbrev pub AreReady : List ImportRow → Type 0
AreReady = All (λ r. row_is_ready r.row ≡ true)

pub AreReady-rows_of :
    (key : Text) (rows : List ImportRow) → AreReady rows → AreReady (rows_of key rows)
unfolding rows_of
AreReady-rows_of key [] h = tt
AreReady-rows_of key (r ∷ rows) (ready, h) =
    elim (Bool-cases (is_applied r && text_eq key r.row.proposal.group_key)) [
      | inl y ↦ rw y (ready, AreReady-rows_of key rows h)
      | inr n ↦ rw n (AreReady-rows_of key rows h)
    ]

module _ {E S Document : Type 0} (services : Services E S Document) (lower : Text → Text)
    (public : Bool) where
  Safe-supplier_id_of :
      (name : Text) (c : Committer S) → Safe (supplier_id_of services lower public name c)
  unfolding supplier_id_of
  Safe-supplier_id_of name c h = ground (arith, Safe-call (services.create_supplier name c.store))

  Safe-brand_id_of :
      (name : Text) (c : Committer S) → Safe (brand_id_of services lower public name c)
  unfolding brand_id_of
  Safe-brand_id_of name c h = ground (arith, Safe-call (services.create_brand name c.store))

  Safe-variant_input :
      (p : Proposal) (c : Committer S) → Safe (variant_input services lower public p c)
  unfolding variant_input
  Safe-variant_input p c =
      Safe->>= (supplier_id_of services lower public p.supplier c) _
        (Safe-supplier_id_of p.supplier c) (λ a h. cc)

  Safe-variant_inputs :
      (rows : List ImportRow) (c : Committer S) → Safe (variant_inputs services lower public rows c)
  unfolding variant_inputs
  Safe-variant_inputs [] c = λ h. cc
  Safe-variant_inputs (r ∷ rows) c =
      Safe->>= (variant_input services lower public r.row.proposal c) _
        (Safe-variant_input r.row.proposal c)
        (λ first.
          Safe->>= (variant_inputs services lower public rows first.1) _
            (Safe-variant_inputs rows first.1) (λ a h. cc))

  Safe-merge_row :
      (r : ImportRow) (c : Committer S)
      → row_is_ready r.row ≡ true
      → is_merge r.row.decision ≡ true
      → Safe (merge_row services lower public r c)
  unfolding merge_row
  Safe-merge_row r c ready merging = elim (Option-cases r.row.target) [
    | inl missing ↦ λ h. ground arith
    | inr (product, named_product) ↦ elim (Option-cases r.row.proposal.target_variant_id) [
      | inl missing ↦ λ h. ground arith
      | inr (variant, named_variant) ↦
          rw (named_product, named_variant)
            (Safe->>=
              (call (
                services.update_variant_in_tx product variant r.row.proposal.prices
                  r.row.proposal.stock_status c.store))
              _ (Safe-call _) (λ a h. cc))
    ]
  ]

  Safe-merge_rows :
      (rows : List ImportRow) (target : Option ℕ) (c : Committer S)
      → AreReady rows
      → Safe (merge_rows services lower public rows target c)
  unfolding merge_rows
  Safe-merge_rows [] target c ready = λ h. cc
  Safe-merge_rows (r ∷ rows) target c (now, ready) =
      let target' = last_target r.row.target target in
      elim (Bool-cases (is_merge r.row.decision)) [
        | inl y ↦ rw y (
            Safe->>= (merge_row services lower public r c) _ (Safe-merge_row r c now y) (λ c'.
              Safe->>= (merge_rows services lower public rows target' c') _
                (Safe-merge_rows rows target' c' ready) (λ a h. cc)))
        | inr n ↦ rw n (
            Safe->>= (merge_rows services lower public rows target' c) _
              (Safe-merge_rows rows target' c ready) (λ a h. cc))
      ]

  Safe-set_targets :
      (product : ℕ) (rows : List ImportRow) (c : Committer S)
      → Safe (set_targets services lower public product rows c)
  unfolding set_targets
  Safe-set_targets product [] c = λ h. cc
  Safe-set_targets product (r ∷ rows) c =
      Safe->>= (call (services.set_row_target r.id product c.store)) _ (Safe-call _)
        (λ store. Safe-set_targets product rows (record c { store = store }))

  Safe-place_variants :
      (target : Option ℕ) (p : Proposal) (variants : List VariantInput) (c : Committer S)
      → Safe (place_variants services lower public target p variants c)
  unfolding place_variants extend_product new_product
  Safe-place_variants (some product) p variants c =
      Safe->>= (extend_product services lower public product variants c) _
        (Safe->>= (call (services.product_document product c.store)) _ (Safe-call _) (λ document.
          Safe->>=
            (call
              (services.update_product product (services.add_variants document variants) c.store))
            _ (Safe-call _) (λ a h. cc)))
        (λ a h. cc)
  Safe-place_variants none p variants c =
      Safe->>= (new_product services lower public p variants c) _
        (Safe->>= (brand_id_of services lower public p.brand c) _ (Safe-brand_id_of p.brand c)
          (λ brand.
            Safe->>= (call (services.create_product _ brand.1.store)) _ (Safe-call _) (λ a h. cc)))
        (λ a h. cc)

  Safe-add_rows :
      (target : Option ℕ) (rows : List ImportRow) (applied : ℕ) (c : Committer S)
      → Safe (add_rows services lower public target rows applied c)
  unfolding add_rows
  Safe-add_rows target [] applied c = λ h. cc
  Safe-add_rows target (r ∷ rows) applied c =
      Safe->>= (variant_inputs services lower public (r ∷ rows) c) _
        (Safe-variant_inputs (r ∷ rows) c)
        (λ made.
          Safe->>= (place_variants services lower public target r.row.proposal made.0 made.1) _
            (Safe-place_variants target r.row.proposal made.0 made.1)
            (λ placed.
              Safe->>= (set_targets services lower public placed.0 (r ∷ rows) placed.2) _
                (Safe-set_targets placed.0 (r ∷ rows) placed.2) (λ a h. cc)))

  pub Safe-apply_group :
      (rows : List ImportRow) (c : Committer S)
      → AreReady rows
      → Safe (apply_group services lower public rows c)
  unfolding apply_group
  Safe-apply_group rows c ready =
      Safe->>= (merge_rows services lower public rows none c) _ (Safe-merge_rows rows none c ready)
        (λ merged. Safe-add_rows merged.0 merged.1 merged.2 merged.3)
