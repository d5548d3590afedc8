-- ===== src/Platform/Slug.antt =====
-- internal/platform/slug.go: Slugify, SlugifyWithSuffix and UniqueSlug. The transform of
-- golang.org/x/text that folds diacritics is the parameter `fold`; `none` is its error.
pub mod Shape
pub mod Unique
use khans_bike.Common.{
  ℕ, zero, suc, ◌+◌, [], ◌∷◌, ◌++◌, Bool, true, false, not, ◌&&◌, ◌||◌, Option, none, some, leb,
  ◌==◌, if◌then◌else◌,
}
use khans_bike.Common.Text.{Text, is_empty, trim_func, codes}
use khans_bike.Platform.Money.{format_nat}

abbrev pub is_hyphen : ℕ → Bool
is_hyphen c = c == b'-'

abbrev pub is_upper : ℕ → Bool
is_upper c = leb b'A' c && leb c b'Z'

abbrev pub is_slug_char : ℕ → Bool
is_slug_char c = leb b'a' c && leb c b'z' || leb b'0' c && leb c b'9'

-- One round of the loop over the folded runes, on the builder's text and `prevHyphen`.
unfoldable pub slug_round : ℕ → Text → Bool → Text × Bool
slug_round r out prev_hyphen =
    if is_upper r
    then (out ++ (r + 32) ∷ [], false)
    else if is_slug_char r
    then (out ++ r ∷ [], false)
    else if not prev_hyphen && not (is_empty out)
    then (out ++ b'-' ∷ [], true)
    else (out, prev_hyphen)

unfoldable pub write_slug : Text → Text × Bool → Text
write_slug [] (out, prev_hyphen) = out
write_slug (r ∷ rest) (out, prev_hyphen) = write_slug rest (slug_round r out prev_hyphen)

-- The second half of Slugify, on folded text.
unfoldable pub sanitise : Text → Text
sanitise folded = trim_func is_hyphen (write_slug folded ([], false))

module _ (fold : Text → Option Text) where
  unfoldable pub slugify : Text → Text
  slugify s = elim (fold s) [ some folded ↦ sanitise folded | none ↦ sanitise s ]

  unfoldable pub slugify_with_suffix : Text → ℕ → Text
  slugify_with_suffix s n =
      let base = slugify s in
      if leb n 1 then base else if is_empty base then format_nat n else base ++ b'-' ∷ format_nat n

  -- The body of UniqueSlug's loop.
  unfoldable pub candidate : Text → ℕ → Text
  candidate name n =
      let slug = slugify_with_suffix name n in
      if is_empty slug then codes "item-" ++ format_nat n else slug

  -- `for n := 1; ; n++`, at most `fuel` rounds; `none` is a loop that has not ended yet.
  unfoldable pub unique_from : ℕ → ℕ → Text → (Text → Bool) → Option Text
  unique_from zero n name exists = none
  unique_from (suc fuel) n name exists =
      let next = unique_from fuel (n + 1) name exists in
      if not (exists (candidate name n)) then some (candidate name n) else next

  unfoldable pub unique_slug : ℕ → Text → (Text → Bool) → Option Text
  unfolding unique_from
  unique_slug fuel name exists = unique_from fuel 1 name exists
