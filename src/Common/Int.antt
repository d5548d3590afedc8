-- ===== src/Common/Int.antt =====
-- Go's signed integers: ℤ over the native numbers, and the wrap-around of int64.
use Prim.Native.Nat.{ℕ, zero, suc, ◌+◌, ◌-◌, ◌*◌, ◌%◌, ◌^◌}
use mathlib.Core.Path.{◌≡◌}
use mathlib.Core.Bool.{Bool, true, false}
use native.Mathlib.Omega.{arith}
use khans_bike.Common.Tests.{leb, ltb, ◌==◌, if◌then◌else◌}

-- `negsuc n` is -(n + 1).
pub data ℤ : Type 0 where
  pos : ℕ → ℤ
  negsuc : ℕ → ℤ

abbrev pub pos_part : ℤ → ℕ
pos_part (pos n) = n
pos_part (negsuc n) = 0

abbrev pub neg_part : ℤ → ℕ
neg_part (pos n) = 0
neg_part (negsuc n) = suc n

-- The absolute value.
abbrev pub magnitude : ℤ → ℕ
magnitude (pos n) = n
magnitude (negsuc n) = suc n

abbrev pub is_neg : ℤ → Bool
is_neg (pos n) = false
is_neg (negsuc n) = true

-- -n.
abbrev pub negate : ℕ → ℤ
negate zero = pos 0
negate (suc n) = negsuc n

-- A sign and a magnitude.
abbrev pub signed : Bool → ℕ → ℤ
signed true n = negate n
signed false n = pos n

-- a - b, as an integer.
abbrev pub sub_ℕ : ℕ → ℕ → ℤ
sub_ℕ a b = if leb b a then pos (a - b) else negsuc (b - a - 1)

infixl 65 ◌+ℤ◌ ◌-ℤ◌
infixl 70 ◌*ℤ◌
unfoldable pub ◌+ℤ◌ : ℤ → ℤ → ℤ
a +ℤ b = sub_ℕ (pos_part a + pos_part b) (neg_part a + neg_part b)

unfoldable pub ◌-ℤ◌ : ℤ → ℤ → ℤ
a -ℤ b = sub_ℕ (pos_part a + neg_part b) (neg_part a + pos_part b)

unfoldable pub ◌*ℤ◌ : ℤ → ℤ → ℤ
a *ℤ b =
    sub_ℕ (pos_part a * pos_part b + neg_part a * neg_part b)
      (pos_part a * neg_part b + neg_part a * pos_part b)

abbrev pub eq_ℤ : ℤ → ℤ → Bool
eq_ℤ (pos a) (pos b) = a == b
eq_ℤ (negsuc a) (negsuc b) = a == b
eq_ℤ _ _ = false

-- math.MaxInt64.
abbrev pub max_int64 : ℕ
max_int64 = 2 ^ 63 - 1

-- big.Int's IsInt64.
abbrev pub is_int64 : ℤ → Bool
is_int64 (pos n) = leb n max_int64
is_int64 (negsuc n) = leb n max_int64

-- The two's complement bit pattern of an integer, and the int64 that a pattern stands for.
abbrev pub pattern64 : ℤ → ℕ
pattern64 (pos n) = n % 2 ^ 64
pattern64 (negsuc n) = 2 ^ 64 - 1 - n % 2 ^ 64

abbrev pub from_pattern64 : ℕ → ℤ
from_pattern64 p = if leb p max_int64 then pos p else negsuc (2 ^ 64 - 1 - p)

-- int64 arithmetic wraps around.
unfoldable pub wrap64 : ℤ → ℤ
wrap64 z = from_pattern64 (pattern64 z)

pub wrap64_id : (z : ℤ) → is_int64 z ≡ true → wrap64 z ≡ z
unfolding wrap64
wrap64_id (pos n) h = ground arith
wrap64_id (negsuc n) h = ground arith

pub wrap64_in_range : (z : ℤ) → is_int64 (wrap64 z) ≡ true
unfolding wrap64
wrap64_in_range (pos n) = ground arith
wrap64_in_range (negsuc n) = ground arith

-- The conversion to int32, which keeps the low 32 bits.
unfoldable pub wrap32 : ℤ → ℤ
wrap32 z =
    let low = pattern64 z % 2 ^ 32 in
    if ltb low (2 ^ 31) then pos low else negsuc (2 ^ 32 - 1 - low)
