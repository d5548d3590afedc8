-- ===== src/Service/Validation.antt =====
-- internal/service/common.go: the checks of text fields, slugs and If-Match headers that every
-- service makes, and the slug derived from a name. The messages of field errors are left out.
pub mod Versions
use khans_bike.Common.{
  ℕ, zero, suc, ◌+◌, ◌-◌, ◌/◌, ◌%◌, [], ◌∷◌, ◌++◌, List, Bool, not, ◌||◌, Option, none, some, ltb,
  ◌==◌, if◌then◌else◌, Result, ok, err, length, take, any,
}
use khans_bike.Common.Text.{
  Text, codes, text_eq, is_empty, trim_space, trim_func, byte_len, trim_prefix, split_on,
}
use khans_bike.Platform.Slug.{is_hyphen, slugify, unique_from}
use khans_bike.Platform.Slug.Shape.{matches_slug}

-- The sentinel errors that a service answers with; `invalid` holds the fields in question, none for
-- a value that the database refuses. `unfinished` is no error of the code: it stands for a loop that
-- has not ended within its fuel.
pub data ServiceError : Type 0 where
  invalid : List Text → ServiceError
  not_found conflict version_mismatch unfinished : ServiceError

-- ValidationError's Add and Err.
abbrev pub add_field : Bool → Text → List Text
add_field bad field = if bad then field ∷ [] else []

abbrev pub validation_err : List Text → Result ServiceError (Unit {0})
validation_err [] = ok tt
validation_err (field ∷ others) = err (invalid (field ∷ others))

-- requireText: the trimmed text, and the error that it adds.
unfoldable pub require_text : Text → Text → ℕ → Text × List Text
require_text field s max_len =
    let s' = trim_space s in (s', add_field (length s' == 0 || ltb max_len (length s')) field)

-- optionalText.
unfoldable pub optional_text : Text → Option Text → ℕ → Option Text × List Text
optional_text field none max_len = (none, [])
optional_text field (some s) max_len =
    let t = trim_space s in
    if is_empty t then (none, []) else (some t, add_field (ltb max_len (length t)) field)

abbrev pub max_slug_len : ℕ
max_slug_len = 120

unfoldable pub validate_slug : Text → Text → List Text
validate_slug field slug =
    add_field (ltb max_slug_len (byte_len slug) || not (matches_slug slug)) field

-- strconv.FormatInt in base 36 of a number that is not negative, the last digit first in the
-- recursion; thirteen digits hold every int64.
abbrev pub digit36 : ℕ → ℕ
digit36 d = if ltb d 10 then b'0' + d else b'a' + (d - 10)

unfoldable pub digits36 : ℕ → ℕ → Text → Text
digits36 zero n out = out
digits36 (suc fuel) n out =
    let more = digits36 fuel (n / 36) (digit36 (n % 36) ∷ out) in
    if ltb n 36 then digit36 n ∷ out else more

-- ETag of a row whose updated_at is so many microseconds after the epoch.
unfoldable pub etag : ℕ → Text
etag updated_at = b'"' ∷ digits36 13 updated_at [] ++ b'"' ∷ []

-- checkIfMatch.
unfoldable pub tag_matches : Text → Text → Bool
tag_matches current tag = text_eq (trim_prefix (codes "W/") (trim_space tag)) current

unfoldable pub check_if_match : Text → ℕ → Result ServiceError (Unit {0})
check_if_match if_match updated_at =
    let asked = trim_space if_match in
    if is_empty asked || text_eq asked (codes "*")
    then ok tt
    else if any (tag_matches (etag updated_at)) (split_on b',' asked)
    then ok tt
    else err version_mismatch

-- uniqueSlug: a slug has one byte per character, so `take` cuts what base[:maxSlugLen-6] cuts.
module _ (fold : Text → Option Text) where
  unfoldable pub slug_base : Text → Text
  slug_base name =
      let base = slugify fold name in
      if ltb (max_slug_len - 6) (byte_len base)
      then trim_func is_hyphen (take (max_slug_len - 6) base)
      else base

  -- The loop is that of UniqueSlug, at most `fuel` rounds; `none` is a loop that has not ended.
  unfoldable pub free_slug : ℕ → Text → (Text → Bool) → Option Text
  free_slug fuel name taken = unique_from fold fuel 1 (slug_base name) taken
