-- ===== src/Auth/Lockout.antt =====
-- internal/auth/service.go: lockoutFor. Durations are in seconds.
use native.Mathlib.Nat.{pow-suc}
use khans_bike.Common.{
  ℕ, zero, suc, ◌-◌, ◌*◌, ◌^◌, ◌≤◌, ◌<◌, ◌≡◌, min, arith, ltb, if◌then◌else◌, Bool-cases, inl, inr,
}

abbrev pub lockout_threshold : ℕ
lockout_threshold = 5

abbrev pub lockout_base : ℕ
lockout_base = 60

abbrev pub lockout_max : ℕ
lockout_max = 3600

-- `for i := lockoutThreshold; i < failures && d < lockoutMax; i++ { d *= 2 }`, with the rounds left.
unfoldable pub double_while : ℕ → ℕ → ℕ
double_while zero d = d
double_while (suc rounds) d =
    let more = double_while rounds (d * 2) in if ltb d lockout_max then more else d

unfoldable pub lockout_for : ℕ → ℕ
lockout_for failures =
    if ltb failures lockout_threshold
    then 0
    else min (double_while (failures - lockout_threshold) lockout_base) lockout_max

pub pow_pos : (n : ℕ) → 0 < 2 ^ n
pow_pos zero = omega arith
pow_pos (suc n) = rw (pow-suc 2 n) (omega (arith, pow_pos n))

le-mul_pow : (d n : ℕ) → d ≤ d * (2 ^ n * 2)
le-mul_pow d n = grind (arith, pow_pos n)

double_while-pow :
    (rounds d : ℕ) → min (double_while rounds d) lockout_max ≡ min (d * 2 ^ rounds) lockout_max
unfolding double_while
double_while-pow zero d = omega arith
double_while-pow (suc rounds) d = elim (Bool-cases (ltb d lockout_max)) [
  | inl below ↦ rw (below, pow-suc 2 rounds, double_while-pow rounds (d * 2)) (omega arith)
  | inr above ↦ rw (above, pow-suc 2 rounds) (ground (arith, le-mul_pow d rounds))
]

-- No lock below five failures; from then on a minute that doubles with each failure, up to an hour.
pub lockout_for-pow :
    (failures : ℕ)
    → lockout_for failures ≡ (if ltb failures 5 then 0 else min (60 * 2 ^ (failures - 5)) 3600)
unfolding lockout_for
lockout_for-pow failures = rw (double_while-pow (failures - 5) 60)

pub le-lockout_for : (failures : ℕ) → 5 ≤ failures → 60 ≤ lockout_for failures
le-lockout_for failures h = rw (lockout_for-pow failures) (ground (arith, pow_pos (failures - 5)))
