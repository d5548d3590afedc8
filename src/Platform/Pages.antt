-- ===== src/Platform/Pages.antt =====
-- internal/platform/pagination.go: ClampLimit. (Cursors are encoding/json and base64.)
use khans_bike.Common.{ℕ, ◌≤◌, ◌<◌, arith, leb, ltb, if◌then◌else◌}
use khans_bike.Common.Int.{ℤ, pos, negsuc}

-- `n` is what the client asked for; the defaults are never negative.
unfoldable pub clamp_limit : ℤ → ℕ → ℕ → ℕ
clamp_limit (negsuc n) default_size max_limit = default_size
clamp_limit (pos n) default_size max_limit =
    if leb n 0 then default_size else if ltb max_limit n then max_limit else n

-- A page holds between one row and the maximum, given a default within these bounds.
pub clamp_limit_bounds :
    (n : ℤ) (default_size max_limit : ℕ)
    → 0 < default_size
    → default_size ≤ max_limit
    → (0 < clamp_limit n default_size max_limit)
      × (clamp_limit n default_size max_limit ≤ max_limit)
unfolding clamp_limit
clamp_limit_bounds (pos n) d m h k = ground arith
clamp_limit_bounds (negsuc n) d m h k = (h, k)
