-- ===== src/Auth/Throttle.antt =====
-- internal/auth/service.go: how many passwords one can try on an account, by Login and lockoutFor.
use khans_bike.Common.{
  ℕ, ◌+◌, ◌-◌, ◌*◌, ◌≤◌, ◌≡◌, ◌≢◌, refl, sym, ap, true, false, Option, none, some, List, [], ◌∷◌,
  arith, ltb, leb, Bool-cases, Option-cases, ◌∙◌, inl, inr, All,
}
use mathlib.Core.Option.{some-injective}
use khans_bike.Common.Text.{Text}
use khans_bike.Auth.Lockout.{lockout_for, le-lockout_for}
use khans_bike.Auth.Login.{
  User, Hashing, is_locked, lock_until, record_failed_login, record_failure, login, logins,
}

-- The guesser's account: from `start` on no password was right so far.
abbrev Throttled : ℕ → User → Type 0
Throttled start u =
    5 ≤ u.failed_login_count
    → (until : ℕ) × (u.locked_until ≡ some until)
      × (start + 60 * (u.failed_login_count - 4) ≤ until)

lock_passed :
    (start now count : ℕ) (lock : Option ℕ)
    → start ≤ now
    → elim lock [ none ↦ false | some until ↦ ltb now until ] ≡ false
    → (5 ≤ count → (until : ℕ) × (lock ≡ some until) × (start + 60 * (count - 4) ≤ until))
    → start + 60 * (count - 4) ≤ now
lock_passed start now count none s free t = elim (Bool-cases (leb 5 count)) [
  | inl five ↦ ground (arith, t (ground arith))
  | inr few ↦ ground arith
]
lock_passed start now count (some until) s free t = elim (Bool-cases (leb 5 count)) [
  | inl five ↦ let (bar, e, bound) = t (ground arith) in ground (arith, bound, some-injective _ _ e)
  | inr few ↦ ground arith
]

record_failure-Throttled :
    (start now : ℕ) (u : User)
    → start ≤ now
    → is_locked now u ≡ false
    → Throttled start u
    → Throttled start (record_failure now u)
unfolding lock_until record_failed_login is_locked
record_failure-Throttled start now u s free t five = (
  now + lockout_for (u.failed_login_count + 1),
  ground (arith, le-lockout_for (u.failed_login_count + 1)),
  omega (
    arith,
    lock_passed start now u.failed_login_count u.locked_until s free t,
    le-lockout_for (u.failed_login_count + 1),
  ),
)

-- The times of a run do not go back before `start`, nor past `finish`, and no password is right.
abbrev pub IsGuess : Hashing → Text → ℕ → ℕ → ℕ × Text → Type 0
IsGuess h stored start finish (now, password) =
    (start ≤ now) × (now ≤ finish) × (h.verify stored password ≢ some true)

-- What a guesser's account keeps: the hash, the lock that counts the failures, and the bound.
abbrev Guarded : Text → ℕ → ℕ → User → Type 0
Guarded stored start finish u =
    (u.password_hash ≡ stored)
    × Throttled start u
    × (start + 60 * (u.failed_login_count - 5) ≤ finish)

record_failure-Guarded :
    (stored : Text) (start finish now : ℕ) (u : User)
    → start ≤ now
    → now ≤ finish
    → is_locked now u ≡ false
    → Guarded stored start finish u
    → Guarded stored start finish (record_failure now u)
unfolding lock_until record_failed_login is_locked
record_failure-Guarded stored start finish now u s f free (same, t, bound) = (
  same,
  record_failure-Throttled start now u s free t,
  omega (arith, lock_passed start now u.failed_login_count u.locked_until s free t),
)

login-Guarded :
    (h : Hashing) (stored : Text) (start finish now : ℕ) (password : Text) (u : User)
    → IsGuess h stored start finish (now, password)
    → Guarded stored start finish u
    → Guarded stored start finish (login h now password u).1
unfolding login
login-Guarded h stored start finish now password u (s, f, wrong) g =
    let same = g.0 in
    elim (Bool-cases (is_locked now u)) [
      | inl locked ↦ rw locked g
      | inr free ↦ elim (Option-cases (h.verify u.password_hash password)) [
        | inl failed ↦ rw (free, failed) g
        | inr (ok, e) ↦ elim (Bool-cases ok) [
          | inl right ↦ absurd (wrong (rw (sym same) (e ∙ ap some right)))
          | inr bad ↦
              rw (free, e, bad) (record_failure-Guarded stored start finish now u s f free g)
        ]
      ]
    ]

logins-Guarded :
    (h : Hashing) (stored : Text) (start finish : ℕ) (tries : List (ℕ × Text)) (u : User)
    → All (IsGuess h stored start finish) tries
    → Guarded stored start finish u
    → Guarded stored start finish (logins h tries u)
unfolding logins
logins-Guarded h stored start finish [] u guesses g = g
logins-Guarded h stored start finish ((now, password) ∷ rest) u (guess, guesses) g =
    logins-Guarded h stored start finish rest (login h now password u).1 guesses
      (login-Guarded h stored start finish now password u guess g)

-- Of any number of logins with wrong passwords that are made one after the other between `start` and
-- `finish`, each over before the next begins, on an account that had no failure, at most five and one
-- more for each whole minute are counted: all others meet the lock.
pub logins-throttled :
    (h : Hashing) (start finish : ℕ) (tries : List (ℕ × Text)) (u : User)
    → u.failed_login_count ≡ 0
    → start ≤ finish
    → All (IsGuess h u.password_hash start finish) tries
    → start + 60 * ((logins h tries u).failed_login_count - 5) ≤ finish
logins-throttled h start finish tries u fresh order guesses =
    (logins-Guarded h u.password_hash start finish tries u guesses
      (refl, λ five. ground arith, ground arith)).2
