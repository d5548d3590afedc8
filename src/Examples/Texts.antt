-- ===== src/Examples/Texts.antt =====
-- Names and their slugs, and the theorems on them.
use khans_bike.Common.{ℕ, ◌≤◌, Bool, Option, some, List, [], ◌∷◌}
use khans_bike.Common.Text.{Text, codes}
use khans_bike.Platform.Slug.{slugify, unique_slug}
use khans_bike.Platform.Slug.Shape.{IsSlug, slugify-IsSlug}
use khans_bike.Platform.Slug.Unique.{contains, IsFirstFree, unique_slug_first}
use khans_bike.Importer.Distance.{levenshtein}
use khans_bike.Importer.Distance.Script.{Edits}
use khans_bike.Importer.Distance.Least.{levenshtein_least}

-- A transform that changes nothing.
abbrev plain : Text → Option Text
plain s = some s

abbrev name : Text
name = codes "BMX 20"

slugify-IsSlug_example : IsSlug (slugify plain name)
slugify-IsSlug_example = slugify-IsSlug plain name

-- The slugs that are there already.
abbrev used : List Text
used = codes "bmx-20" ∷ codes "bmx-20-2" ∷ []

abbrev is_used : Text → Bool
is_used c = contains c used

unique_slug_first_example : IsFirstFree plain name is_used 1 (unique_slug plain 3 name is_used)
unique_slug_first_example = unique_slug_first plain name is_used used (λ m h. h)

levenshtein_least_example :
    Edits (codes "matt") (codes "mate") (levenshtein (codes "matt") (codes "mate"))
    × ((n : ℕ)
        → Edits (codes "matt") (codes "mate") n
        → levenshtein (codes "matt") (codes "mate") ≤ n)
levenshtein_least_example = levenshtein_least (codes "matt") (codes "mate")
