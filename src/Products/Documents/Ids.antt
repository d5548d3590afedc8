-- ===== src/Products/Documents/Ids.antt =====
-- internal/service/products.go: the ids, SKUs and default flags of the variants that validateDocument
-- finds no fault with.
use khans_bike.Common.{
  ℕ, suc, ◌+◌, ◌≤◌, ◌<◌, [], ◌∷◌, List, Bool, true, false, ◌==◌, Option, none, some, ◌≡◌, ◌⊎◌, refl,
  ap, inl, inr, arith, length, All, All-imp, map, count_rows, Bool-cases, ==→eq, append-nil_left,
  append-nil_right,
}
use khans_bike.Common.Text.{Text, text_eq, trim_space}
use khans_bike.Products.Documents.{
  Lookups, Seen, contains_text, id_or_new, is_wrong_id, is_unset, mark_id, mark_seen,
  checked_variant, checked_variants, variant_errors, variants_errors, count_defaults,
}
use khans_bike.Products.Documents.Variants.{variant_errors-none, IsSound, checked_variant-IsSound}
use khans_bike.Products.Inputs.{VariantInput, VariantDocument}
use khans_bike.Products.Inputs.Entries.{HasOwnKeys}
use khans_bike.Products.Variants.{ValidatedVariant}
use khans_bike.Products.Variants.Synced.{HasDistinctIds}
use khans_bike.Schema.Values.{Json, contains_id}
use khans_bike.Schema.Views.{CategoryAttribute, Formats}

-- NewID mints ids that are used nowhere else.
pub record HasFreshIds (existing : ℕ → Bool) (new_id : ℕ → ℕ) : Type 0 where
  pub apart : (i j : ℕ) → i < j → (new_id j == new_id i) ≡ false
  pub unused : (i : ℕ) → existing (new_id i) ≡ false

-- The ids that can follow: a new one from a position on, or one of the product's that the document has
-- not named before.
abbrev pub IsNext : {F : Type 0} → (ℕ → Bool) → (ℕ → ℕ) → ℕ → List ℕ → VariantDocument F → Type 0
IsNext existing new_id i seen d =
    ((d.row.is_new ≡ true) × (j : ℕ) × (i ≤ j) × (d.row.id ≡ new_id j))
    ⊎ ((d.row.is_new ≡ false) × (existing d.row.id ≡ true) × (contains_id seen d.row.id ≡ false))

abbrev pub HasDistinctSkus : {F : Type 0} → List (VariantDocument F) → Type 0
HasDistinctSkus [] = Unit
HasDistinctSkus (d ∷ rest) =
    All (λ e. text_eq d.row.sku e.row.sku ≡ false) rest × HasDistinctSkus rest

abbrev pub rows_of : {F : Type 0} → List (VariantDocument F) → List ValidatedVariant
rows_of = map (λ d. d.row)

differs :
    (existing : ℕ → Bool) (a b : ℕ) → existing a ≡ true → existing b ≡ false → (a == b) ≡ false
differs existing a b ha hb = elim (Bool-cases (a == b)) [
  | inl same ↦ absurd (ground (arith, ap existing (==→eq a b same), ha, hb))
  | inr other ↦ other
]

flipped : (a b : ℕ) → (a == b) ≡ false → (b == a) ≡ false
flipped a b h = ground (arith, h)

module _ {F : Type 0} (existing : ℕ → Bool) (new_id : ℕ → ℕ) where
  later :
      (i : ℕ) (id : Option ℕ) (seen : List ℕ) (d : VariantDocument F)
      → IsNext existing new_id (i + 1) (mark_id id seen) d
      → IsNext existing new_id i seen d
  later i id seen d (inl (new, j, le, same)) = inl (new, j, omega (arith, le), same)
  later i none seen d (inr old) = inr old
  later i (some k) seen d (inr (old, known, apart)) = inr (old, known, ground (arith, apart))

  apart_from :
      HasFreshIds existing new_id
      → (i : ℕ) (id : Option ℕ) (seen : List ℕ) (d e : VariantDocument F)
      → d.row.id ≡ id_or_new (new_id i) id
      → is_wrong_id existing seen id ≡ false
      → IsNext existing new_id (i + 1) (mark_id id seen) e
      → (e.row.id == d.row.id) ≡ false
  apart_from fresh i none seen d e same fine (inl (_, j, le, id)) =
      rw (same, id) (fresh.apart i j (omega (arith, le)))
  apart_from fresh i none seen d e same fine (inr (_, known, _)) =
      rw same (differs existing e.row.id (new_id i) known (fresh.unused i))
  apart_from fresh i (some k) seen d e same fine (inl (_, j, le, id)) =
      let known : existing k ≡ true = ground (arith, fine) in
      rw (same, id) (flipped k (new_id j) (differs existing k (new_id j) known (fresh.unused j)))
  apart_from fresh i (some k) seen d e same fine (inr (_, _, apart)) =
      rw same (flipped k e.row.id (ground (arith, apart)))

module _ {F : Type 0} (formats : Formats F) (json : Json F Text) (upper : Text → Text)
    (lookups : Lookups) (existing : ℕ → Bool) (new_id : ℕ → ℕ) (publishing : Bool)
    (bindings : List CategoryAttribute) where
  abbrev errors_of : ℕ → List VariantInput → Seen → List Text
  errors_of i vs seen =
      variants_errors formats json upper lookups existing new_id publishing bindings i vs seen

  abbrev checked : ℕ → List VariantInput → List (VariantDocument F)
  checked i vs = checked_variants formats json upper new_id bindings i vs

  checked_variant-IsNext :
      (i : ℕ) (vi : VariantInput) (seen : Seen)
      → is_wrong_id existing seen.ids vi.id ≡ false
      → IsNext existing new_id i seen.ids (checked_variant formats json upper new_id bindings i vi)
  unfolding checked_variant
  checked_variant-IsNext i vi seen fine = next (vi.id) fine
    where
      next :
          (id : Option ℕ)
          → is_wrong_id existing seen.ids id ≡ false
          → ((is_unset id ≡ true) × (j : ℕ) × (i ≤ j) × (id_or_new (new_id i) id ≡ new_id j))
            ⊎ ((is_unset id ≡ false)
                × (existing (id_or_new (new_id i) id) ≡ true)
                × (contains_id seen.ids (id_or_new (new_id i) id) ≡ false))
      next none e = inl (refl, i, omega arith, refl)
      next (some k) e = inr (refl, ground (arith, e), ground (arith, e))

  -- What holds of the variants from a position on, behind those that are seen.
  pub checked_variants-IsNext :
      (i : ℕ) (vs : List VariantInput) (seen : Seen)
      → errors_of i vs seen ≡ []
      → All (IsNext existing new_id i seen.ids) (checked i vs)
  unfolding checked_variants variants_errors
  checked_variants-IsNext i [] seen h = tt
  checked_variants-IsNext i (vi ∷ vs) seen h =
      let here =
        variant_errors formats json upper lookups existing new_id publishing bindings i vi seen in
      let fine = append-nil_left here (errors_of (i + 1) vs (mark_seen vi seen)) h in
      let rest = append-nil_right here (errors_of (i + 1) vs (mark_seen vi seen)) h in
      let (id, _, _, _, _, _) =
        variant_errors-none formats json upper lookups existing new_id publishing bindings i vi seen
          fine in
      (
        checked_variant-IsNext i vi seen id,
        All-imp (IsNext existing new_id (i + 1) (mark_id vi.id seen.ids))
            (IsNext existing new_id i seen.ids) (later existing new_id i vi.id seen.ids)
            (checked (i + 1) vs) (checked_variants-IsNext (i + 1) vs (mark_seen vi seen) rest),
      )

  All-rows :
      (id : ℕ) (ds : List (VariantDocument F))
      → All (λ d. (d.row.id == id) ≡ false) ds
      → All (λ w. (w.id == id) ≡ false) (rows_of ds)
  All-rows id [] h = tt
  All-rows id (d ∷ ds) (apart, h) = (apart, All-rows id ds h)

  pub checked_variants-HasDistinctIds :
      HasFreshIds existing new_id
      → (i : ℕ) (vs : List VariantInput) (seen : Seen) → errors_of i vs seen ≡ []
      → HasDistinctIds (rows_of (checked i vs))
  unfolding checked_variants variants_errors checked_variant
  checked_variants-HasDistinctIds fresh i [] seen h = tt
  checked_variants-HasDistinctIds fresh i (vi ∷ vs) seen h =
      let here =
        variant_errors formats json upper lookups existing new_id publishing bindings i vi seen in
      let fine = append-nil_left here (errors_of (i + 1) vs (mark_seen vi seen)) h in
      let rest = append-nil_right here (errors_of (i + 1) vs (mark_seen vi seen)) h in
      let (id, _, _, _, _, _) =
        variant_errors-none formats json upper lookups existing new_id publishing bindings i vi seen
          fine in
      let d = checked_variant formats json upper new_id bindings i vi in
      (
        All-rows d.row.id (checked (i + 1) vs) (
            All-imp (IsNext existing new_id (i + 1) (mark_id vi.id seen.ids))
              (λ e. (e.row.id == d.row.id) ≡ false)
              (λ e. apart_from existing new_id fresh i vi.id seen.ids d e refl id)
              (checked (i + 1) vs) (checked_variants-IsNext (i + 1) vs (mark_seen vi seen) rest)),
        checked_variants-HasDistinctIds fresh (i + 1) vs (mark_seen vi seen) rest,
      )

  checked_variants-skus :
      (i : ℕ) (vs : List VariantInput) (seen : Seen)
      → errors_of i vs seen ≡ []
      → All (λ d. contains_text seen.skus d.row.sku ≡ false) (checked i vs)
        × HasDistinctSkus (checked i vs)
  unfolding checked_variants variants_errors checked_variant
  checked_variants-skus i [] seen h = (tt, tt)
  checked_variants-skus i (vi ∷ vs) seen h =
      let here =
        variant_errors formats json upper lookups existing new_id publishing bindings i vi seen in
      let fine = append-nil_left here (errors_of (i + 1) vs (mark_seen vi seen)) h in
      let rest = append-nil_right here (errors_of (i + 1) vs (mark_seen vi seen)) h in
      let (_, _, again, _, _, _) =
        variant_errors-none formats json upper lookups existing new_id publishing bindings i vi seen
          fine in
      let (apart, distinct) = checked_variants-skus (i + 1) vs (mark_seen vi seen) rest in
      let sku = trim_space vi.sku in
      (
        (
          again,
          All-imp (λ d. contains_text (sku ∷ seen.skus) d.row.sku ≡ false)
              (λ d. contains_text seen.skus d.row.sku ≡ false) (λ d e. ground (arith, e))
              (checked (i + 1) vs) apart,
        ),
        (
          All-imp (λ d. contains_text (sku ∷ seen.skus) d.row.sku ≡ false)
              (λ d. text_eq sku d.row.sku ≡ false) (λ d e. ground (arith, e)) (checked (i + 1) vs)
              apart,
          distinct,
        ),
      )

  pub checked_variants-HasDistinctSkus :
      (i : ℕ) (vs : List VariantInput) (seen : Seen)
      → errors_of i vs seen ≡ []
      → HasDistinctSkus (checked i vs)
  checked_variants-HasDistinctSkus i vs seen h = (checked_variants-skus i vs seen h).1

  pub checked_variants-IsSound :
      HasOwnKeys bindings
      → (i : ℕ) (vs : List VariantInput) (seen : Seen) → errors_of i vs seen ≡ []
      → All (IsSound formats json bindings publishing) (checked i vs)
  unfolding checked_variants variants_errors
  checked_variants-IsSound own i [] seen h = tt
  checked_variants-IsSound own i (vi ∷ vs) seen h =
      let here =
        variant_errors formats json upper lookups existing new_id publishing bindings i vi seen in
      (
        checked_variant-IsSound formats json upper lookups existing new_id publishing bindings i vi
            seen own (append-nil_left here (errors_of (i + 1) vs (mark_seen vi seen)) h),
        checked_variants-IsSound own (i + 1) vs (mark_seen vi seen)
            (append-nil_right here (errors_of (i + 1) vs (mark_seen vi seen)) h),
      )

  pub checked_variants-defaults :
      (i : ℕ) (vs : List VariantInput)
      → count_rows (λ d. d.row.is_default) (checked i vs) ≡ count_defaults vs
  unfolding checked_variants checked_variant
  checked_variants-defaults i [] = refl
  checked_variants-defaults i (vi ∷ vs) = ground (arith, checked_variants-defaults (i + 1) vs)

  pub length-checked_variants : (i : ℕ) (vs : List VariantInput) → length (checked i vs) ≡ length vs
  unfolding checked_variants
  length-checked_variants i [] = refl
  length-checked_variants i (vi ∷ vs) = ap suc (length-checked_variants (i + 1) vs)
