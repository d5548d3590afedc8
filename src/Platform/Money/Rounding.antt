-- ===== src/Platform/Money/Rounding.antt =====
-- internal/platform/money.go: MulRatio rounds half away from zero.
use native.Mathlib.Nat.{div-eq_of_lt-le, div-add-mod, mod-lt}
use khans_bike.Common.{
  ℕ, zero, suc, ◌+◌, ◌*◌, ◌/◌, ◌%◌, ◌≤◌, ◌<◌, ◌≡◌, refl, Bool, true, false, ok, err, arith, differ,
  leb, if◌then◌else◌, not, ◌==◌,
}
use khans_bike.Common.Int.{
  ℤ, pos, negsuc, magnitude, is_neg, signed, ◌*ℤ◌, ◌-ℤ◌, ◌+ℤ◌, eq_ℤ, is_int64,
}
use khans_bike.Platform.Money.{
  Money, division_by_zero, mul_ratio_overflow, round_quotient, mul_ratio, round_cents,
}

-- a / d to the nearest whole number, where a half goes up.
abbrev pub nearest : ℕ → ℕ → ℕ
nearest a d = (2 * a + d) / (2 * d)

nearest-rem : (a d : ℕ) → 0 < d → nearest a d ≡ (if leb d (2 * (a % d)) then a / d + 1 else a / d)
nearest-rem a d h =
    let e : d * (a / d) + a % d ≡ a = div-add-mod a d in
    let r : a % d < d = mod-lt a h in if_nearest e r
  where
    if_nearest :
        d * (a / d) + a % d ≡ a
        → a % d < d
        → nearest a d ≡ (if leb d (2 * (a % d)) then a / d + 1 else a / d)
    if_nearest e r = ground (
      arith,
      div-eq_of_lt-le {k = a / d} (2 * d) {m = 2 * a + d},
      div-eq_of_lt-le {k = a / d + 1} (2 * d) {m = 2 * a + d},
    )

away :
    (neg : Bool) (q : ℕ)
    → (if neg then signed neg q -ℤ pos 1 else signed neg q +ℤ pos 1) ≡ signed neg (q + 1)
unfolding ◌+ℤ◌ ◌-ℤ◌
away true zero = refl
away true (suc q) = ground arith
away false q = ground arith

-- The rounded quotient has the sign of the exact one and its magnitude to the nearest whole number.
pub round_quotient-nearest :
    (p d : ℤ)
    → 0 < magnitude d
    → round_quotient p d
      ≡ signed (differ (is_neg p) (is_neg d)) (nearest (magnitude p) (magnitude d))
unfolding round_quotient
round_quotient-nearest p d h =
    let neg = differ (is_neg p) (is_neg d) in
    let q = magnitude p / magnitude d in
    rw (nearest-rem (magnitude p) (magnitude d) h) (ground (arith, away neg q))

-- The amount that MulRatio is meant to give.
abbrev pub scaled : Money → ℤ → ℤ → ℤ
scaled m num den =
    let p = m.amount_minor *ℤ num in
    signed (differ (is_neg p) (is_neg den)) (nearest (magnitude p) (magnitude den))

-- On every input MulRatio fails for a zero denominator, fails when the rounded amount is no int64,
-- and otherwise gives amount * num / den rounded half away from zero, in the same currency.
pub mul_ratio-scaled :
    (m : Money) (num den : ℤ)
    → mul_ratio m num den ≡ (
        if eq_ℤ den (pos 0)
        then err division_by_zero
        else if is_int64 (scaled m num den)
        then ok (record m { amount_minor = scaled m num den })
        else err mul_ratio_overflow)
unfolding mul_ratio
mul_ratio-scaled m num (pos zero) = refl
mul_ratio-scaled m num (pos (suc d)) =
    rw (round_quotient-nearest (m.amount_minor *ℤ num) (pos (suc d)) (omega arith)) (ground arith)
mul_ratio-scaled m num (negsuc d) =
    rw (round_quotient-nearest (m.amount_minor *ℤ num) (negsuc d) (omega arith)) (ground arith)

-- `nearest a d` lies within half a unit of a / d.
pub nearest_bounds :
    (a d : ℕ)
    → 0 < d
    → (2 * (nearest a d * d) ≤ 2 * a + d) × (2 * a + d < 2 * (nearest a d * d) + 2 * d)
nearest_bounds a d h =
    let e : 2 * d * nearest a d + (2 * a + d) % (2 * d) ≡ 2 * a + d =
      div-add-mod (2 * a + d) (2 * d) in
    let r : (2 * a + d) % (2 * d) < 2 * d = mod-lt (2 * a + d) (omega arith) in
    (omega arith, omega arith)

-- ParseMoneyRounded rounds half away from zero, and reports a rounding exactly when the amount is no
-- whole number of minor units.
pub round_cents-nearest :
    (num : ℤ) (den : ℕ)
    → 0 < den
    → round_cents num den
      ≡ (signed (is_neg num) (nearest (magnitude num) den), not (magnitude num % den == 0))
unfolding round_cents
round_cents-nearest num den h =
    rw (nearest-rem (magnitude num) den h) (ground (arith, away (is_neg num) (magnitude num / den)))
