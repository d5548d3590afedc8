-- ===== src/Taxonomy/Finished.antt =====
-- internal/service/taxonomy.go: the loop of CreateCategory that looks for a free slug, and the rounds
-- that it is given in this model.
use khans_bike.Common.{
  ℕ, ◌+◌, Result, ◌>>=◌, ◌≡◌, refl, sym, ap, ◌∙◌, [], ◌∷◌, List, Bool, true, false, Option, none,
  some, map, any, length, arith, ok, err,
}
use khans_bike.Common.Text.{Text}
use khans_bike.Platform.Slug.{candidate, unique_slug}
use khans_bike.Platform.Slug.Unique.{contains, unique_slug_first}
use khans_bike.Service.Validation.{
  unfinished, ServiceError, invalid, not_found, conflict, version_mismatch, validation_err,
  slug_base, free_slug,
}
use khans_bike.Taxonomy.Categories.{
  Category, CategoryInput, validate, has_slug, parent_path, insert_category, constraints,
  new_category, new_slug, create_category,
}

-- Not the answer of a loop that ran out of rounds.
abbrev is_finished {κ} : {A : Type κ} → Result ServiceError A → Bool
is_finished (err unfinished) = false
is_finished (err (invalid fields)) = true
is_finished (err not_found) = true
is_finished (err conflict) = true
is_finished (err version_mismatch) = true
is_finished (ok a) = true

bind_is_finished {κ κ'} :
    {A : Type κ} {B : Type κ'} (r : Result ServiceError A) (k : A → Result ServiceError B)
    → is_finished r ≡ true
    → ((a : A) → is_finished (k a) ≡ true)
    → is_finished (r >>= k) ≡ true
bind_is_finished (err unfinished) k h f = h
bind_is_finished (err (invalid fields)) k h f = refl
bind_is_finished (err not_found) k h f = refl
bind_is_finished (err conflict) k h f = refl
bind_is_finished (err version_mismatch) k h f = refl
bind_is_finished (ok a) k h f = f a

validation_err-is_finished : (fields : List Text) → is_finished (validation_err fields) ≡ true
validation_err-is_finished [] = refl
validation_err-is_finished (f ∷ fields) = refl

parent_path-is_finished :
    (rows : List Category) (parent : Option ℕ) → is_finished (parent_path rows parent) ≡ true
unfolding parent_path
parent_path-is_finished rows none = refl
parent_path-is_finished rows (some parent) = ground arith

abbrev slugs : List Category → List Text
slugs = map (λ c. c.slug)

length-slugs : (rows : List Category) → length (slugs rows) ≡ length rows
length-slugs [] = refl
length-slugs (c ∷ rows) = omega (arith, length-slugs rows)

slug_is_listed :
    (s : Text) (rows : List Category)
    → any (has_slug s) rows ≡ true
    → contains s (slugs rows) ≡ true
unfolding contains
slug_is_listed s [] h = h
slug_is_listed s (c ∷ rows) h = ground (arith, slug_is_listed s rows)

module _ (fold : Text → Option Text) where
  free_slug-found :
      (name : Text) (rows : List Category)
      → (s : Text) × (free_slug fold (length rows + 1) name (λ s. any (has_slug s) rows) ≡ some s)
  unfolding free_slug unique_slug khans_bike.Platform.Slug.unique_from
  free_slug-found name rows =
      let base = slug_base fold name in
      let (k, _, found, _, _) =
        unique_slug_first fold base (λ s. any (has_slug s) rows) (slugs rows)
          (λ m h. slug_is_listed (candidate fold base m) rows h) in
      (
        candidate fold base k,
        ap (λ n. unique_slug fold (n + 1) base (λ s. any (has_slug s) rows))
              (sym (length-slugs rows))
            ∙ found,
      )

  new_slug-is_finished :
      (input : CategoryInput) (rows : List Category) → is_finished (new_slug fold input rows) ≡ true
  unfolding new_slug
  new_slug-is_finished input rows =
      let (s, found) = free_slug-found input.name rows in ground (arith, found)

module _ (fold : Text → Option Text) (asset_exists : ℕ → Bool) where
  insert_category-is_finished :
      (c : Category) (rows : List Category)
      → is_finished (insert_category asset_exists c rows) ≡ true
  unfolding insert_category constraints
  insert_category-is_finished c rows = ground arith

  -- CreateCategory, with the rounds that it is given, never runs out of them.
  create_category-is_finished :
      (now id : ℕ) (raw : CategoryInput) (rows : List Category)
      → is_finished (create_category fold asset_exists now id raw rows) ≡ true
  unfolding create_category
  create_category-is_finished now id raw rows =
      let (input, errors) = validate raw in
      bind_is_finished (validation_err errors) _ (validation_err-is_finished errors) (λ _.
        bind_is_finished (parent_path rows input.parent_id) _
          (parent_path-is_finished rows input.parent_id)
          (λ top.
            bind_is_finished (new_slug fold input rows) _ (new_slug-is_finished fold input rows)
              (λ slug. insert_category-is_finished (new_category now id input slug top) rows)))
