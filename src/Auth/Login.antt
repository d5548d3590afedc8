-- ===== src/Auth/Login.antt =====
-- internal/auth/service.go: Login, on the row of the user whose email was given. Checking a password
-- against its hash (argon2) is a parameter; times are in seconds.
use khans_bike.Common.{
  ℕ, ◌+◌, ◌≡◌, Bool, true, false, ◌||◌, Option, none, some, List, [], ◌∷◌, arith, ltb,
  if◌then◌else◌,
}
use khans_bike.Auth.Lockout.{lockout_for}
use khans_bike.Common.Text.{Text}

pub record User : Type 0 where
  pub id : ℕ
  pub password_hash : Text
  pub failed_login_count : ℕ
  pub locked_until : Option ℕ

pub data LoginResult : Type 0 where
  session_opened invalid_credentials internal_error : LoginResult

-- What package crypto answers: VerifyPassword (`none` is its error), needsRehash and HashPassword.
pub record Hashing : Type 0 where
  pub verify : Text → Text → Option Bool
  pub needs_rehash : Text → Bool
  pub hash : Text → Text

-- user.LockedUntil.Valid && user.LockedUntil.Time.After(now), which is User.IsLocked.
unfoldable pub is_locked : ℕ → User → Bool
is_locked now u = elim u.locked_until [ none ↦ false | some until ↦ ltb now until ]

-- The lock that the next failure earns, by the row that Login has read.
unfoldable pub lock_until : ℕ → User → Option ℕ
lock_until now seen =
    let d = lockout_for (seen.failed_login_count + 1) in if ltb 0 d then some (now + d) else none

-- RecordFailedLogin: a statement of its own, on the row as it is by then.
unfoldable pub record_failed_login : Option ℕ → User → User
record_failed_login until u = record u {
  failed_login_count = u.failed_login_count + 1;
  locked_until = until;
}

-- Both, when no other statement on the row comes between.
abbrev pub record_failure : ℕ → User → User
record_failure now u = record_failed_login (lock_until now u) u

-- ResetFailedLogin.
unfoldable pub reset_failures : User → User
reset_failures u = record u { failed_login_count = 0; locked_until = none }

abbrev pub has_lock : Option ℕ → Bool
has_lock none = false
has_lock (some _) = true

-- The writes of a successful login.
unfoldable pub open_session : Hashing → Text → User → User
unfolding reset_failures
open_session h password u =
    let u' =
      if ltb 0 u.failed_login_count || has_lock u.locked_until then reset_failures u else u in
    if h.needs_rehash u.password_hash
    then record (reset_failures u') { password_hash = h.hash password }
    else u'

-- Login of a user that exists, between whose statements there is no other login of that user: the
-- result and the user's row.
unfoldable pub login : Hashing → ℕ → Text → User → LoginResult × User
login h now password u =
    if is_locked now u then (invalid_credentials, u) else elim (h.verify u.password_hash password) [
      | none ↦ (internal_error, u)
      | some true ↦ (session_opened, open_session h password u)
      | some false ↦ (invalid_credentials, record_failure now u)
    ]

-- Login by email: an email that nobody has gives the same answer as a wrong password.
unfoldable pub login_by_email : Hashing → ℕ → Text → Option User → LoginResult × Option User
login_by_email h now password none = (invalid_credentials, none)
login_by_email h now password (some u) = let (r, u') = login h now password u in (r, some u')

-- Logins one after the other, each at its time with its password: each is over before the next one
-- reads the row.
unfoldable pub logins : Hashing → List (ℕ × Text) → User → User
logins h [] u = u
logins h ((now, password) ∷ rest) u = logins h rest (login h now password u).1

-- A login that opens a session, with no other login of the user between its statements, leaves
-- no failure and no lock behind; the account was not locked and the password was right.
pub login_opened :
    (h : Hashing) (now : ℕ) (password : Text) (u : User)
    → (login h now password u).0 ≡ session_opened
    → let u' = (login h now password u).1 in
      (is_locked now u ≡ false)
      × (h.verify u.password_hash password ≡ some true)
      × (u'.failed_login_count ≡ 0)
      × (u'.locked_until ≡ none)
unfolding login open_session
login_opened h now password u e = ground arith
