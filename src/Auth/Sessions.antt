-- ===== src/Auth/Sessions.antt =====
-- internal/auth/service.go: sessions, devices and pairing codes, with the statements of
-- db/queries/users.sql that they run. A transaction is one step. Token hashes, password hashing and
-- new identifiers are arguments; times are in seconds.
use khans_bike.Common.{
  ℕ, zero, suc, ◌-◌, Bool, true, false, not, ◌&&◌, Option, none, some, List, ◌∷◌, ltb, ◌==◌,
  if◌then◌else◌, Result, ok, err, ◌>>=◌, guard, find_row, update_rows, delete_rows, count_rows,
}
use khans_bike.Common.Text.{Text, text_eq}
use khans_bike.Auth.Login.{User, Hashing}

pub record Session : Type 0 where
  pub id : ℕ
  pub user_id : ℕ
  pub token_hash : Text
  pub expires_at : ℕ
  pub last_seen_at : ℕ

pub record Device : Type 0 where
  pub id : ℕ
  pub user_id : ℕ
  pub name : Text
  pub token_hash : Text
  pub last_seen_at : Option ℕ
  pub revoked_at : Option ℕ

pub record PairingCode : Type 0 where
  pub code : Text
  pub user_id : ℕ
  pub expires_at : ℕ
  pub consumed_at : Option ℕ

pub record Accounts : Type 0 where
  pub users : List User
  pub sessions : List Session
  pub devices : List Device
  pub codes : List PairingCode

-- Principal: who makes a request. A session principal is an admin, a device principal a device.
pub data Caller : Type 0 where
  by_session by_device : Caller

pub record Principal : Type 0 where
  pub user_id : ℕ
  pub kind : Caller
  pub credential : ℕ

pub data AuthError : Type 0 where
  unauthorized forbidden not_found internal wrong_password weak_password conflict : AuthError

abbrev pub is_session : Principal → Bool
is_session p = elim p.kind [ by_session ↦ true | by_device ↦ false ]

abbrev pub touch_interval : ℕ
touch_interval = 300

abbrev pub is_null : Option ℕ → Bool
is_null none = true
is_null (some _) = false

-- GetSessionByTokenHash.
unfoldable pub is_live : ℕ → Text → Session → Bool
is_live now hash s = text_eq s.token_hash hash && ltb now s.expires_at

unfoldable pub touch_session : ℕ → ℕ → List Session → List Session
touch_session now id = update_rows (λ s. s.id == id) (λ s. record s { last_seen_at = now })

-- AuthenticateSession, on the hash of the token; it may touch the session.
unfoldable pub authenticate_session : ℕ → Text → Accounts → Result AuthError Principal × Accounts
authenticate_session now hash db = elim (find_row (is_live now hash) db.sessions) [
  | none ↦ (err unauthorized, db)
  | some s ↦ (
    ok (record { user_id = s.user_id; kind = by_session; credential = s.id }),
    if ltb touch_interval (now - s.last_seen_at)
        then record db { sessions = touch_session now s.id db.sessions }
        else db,
  )
]

-- GetDeviceTokenByHash.
unfoldable pub is_paired : Text → Device → Bool
is_paired hash d = text_eq d.token_hash hash && is_null d.revoked_at

unfoldable pub touch_device : ℕ → ℕ → List Device → List Device
touch_device now id = update_rows (λ d. d.id == id) (λ d. record d { last_seen_at = some now })

abbrev pub device_is_stale : ℕ → Option ℕ → Bool
device_is_stale now none = true
device_is_stale now (some seen) = ltb touch_interval (now - seen)

unfoldable pub authenticate_device : ℕ → Text → Accounts → Result AuthError Principal × Accounts
authenticate_device now hash db = elim (find_row (is_paired hash) db.devices) [
  | none ↦ (err unauthorized, db)
  | some d ↦ (
    ok (record { user_id = d.user_id; kind = by_device; credential = d.id }),
    if device_is_stale now d.last_seen_at
        then record db { devices = touch_device now d.id db.devices }
        else db,
  )
]

-- Logout.
unfoldable pub logout : Principal → Accounts → Result AuthError Accounts
logout p db = guard (is_session p) forbidden >>= λ _.
    ok (record db { sessions = delete_rows (λ s. s.id == p.credential) db.sessions })

-- DeleteOtherSessions: user_id = $1 AND id <> keep.
unfoldable pub is_other_session : ℕ → ℕ → Session → Bool
is_other_session user keep s = s.user_id == user && not (s.id == keep)

-- UpdateUserPassword.
unfoldable pub set_password : ℕ → Text → List User → List User
set_password id hash =
    update_rows (λ u. u.id == id)
      (λ u. record u { password_hash = hash; failed_login_count = 0; locked_until = none })

-- The transaction of ChangePassword and of ResetPassword.
unfoldable pub replace_password : ℕ → Text → ℕ → Accounts → Accounts
replace_password user hash keep db = record db {
  users = set_password user hash db.users;
  sessions = delete_rows (is_other_session user keep) db.sessions;
}

-- ChangePassword; `valid` is ValidatePassword.
unfoldable pub change_password :
    Hashing → (Text → Bool) → Principal → Text → Text → Accounts → Result AuthError Accounts
change_password h valid p current next db = guard (is_session p) forbidden >>= λ _.
    elim (find_row (λ u. u.id == p.user_id) db.users) [
      | none ↦ err not_found
      | some u ↦ elim (h.verify u.password_hash current) [
        | none ↦ err internal
        | some false ↦ err wrong_password
        | some true ↦ guard (valid next) weak_password >>= λ _.
            ok (replace_password p.user_id (h.hash next) p.credential db)
      ]
    ]

-- The attempts that are left of CreatePairingCode, with the codes that newPairingCode draws for
-- them; a code that is taken is a conflict.
unfoldable pub try_codes : ℕ → (ℕ → Text) → ℕ → ℕ → Accounts → Result AuthError Accounts
try_codes zero draw expires user db = err conflict
try_codes (suc attempts) draw expires user db =
    let again = try_codes attempts draw expires user db in
    let code = draw attempts in
    elim (find_row (λ c. text_eq c.code code) db.codes) [
      | none ↦ ok (record db {
        codes =
            record { code = code; user_id = user; expires_at = expires; consumed_at = none }
            ∷ db.codes;
      })
      | some _ ↦ again
    ]

abbrev pub pairing_attempts : ℕ
pairing_attempts = 4

-- CreatePairingCode.
unfoldable pub create_pairing_code :
    (ℕ → Text) → ℕ → Principal → Accounts → Result AuthError Accounts
create_pairing_code draw expires p db =
    guard (is_session p) forbidden >>= λ _. try_codes pairing_attempts draw expires p.user_id db

-- ConsumePairingCode: code = $1 AND consumed_at IS NULL AND expires_at > now().
unfoldable pub is_redeemable : ℕ → Text → PairingCode → Bool
is_redeemable now code c = text_eq c.code code && is_null c.consumed_at && ltb now c.expires_at

-- RedeemPairingCode, with the new device's id, name and token hash.
unfoldable pub redeem_pairing_code :
    ℕ → Text → ℕ → Text → Text → Accounts → Result AuthError Accounts
redeem_pairing_code now code id name hash db = elim (find_row (is_redeemable now code) db.codes) [
  | none ↦ err unauthorized
  | some c ↦ ok (record db {
    codes =
        update_rows (is_redeemable now code) (λ r. record r { consumed_at = some now }) db.codes;
    devices =
        record {
          id = id;
          user_id = c.user_id;
          name = name;
          token_hash = hash;
          last_seen_at = none;
          revoked_at = none;
        }
        ∷ db.devices;
  })
]

-- RevokeDeviceToken and RevokeDevice.
unfoldable pub is_revocable : ℕ → ℕ → Device → Bool
is_revocable user id d = d.id == id && d.user_id == user && is_null d.revoked_at

unfoldable pub revoke_device : ℕ → ℕ → ℕ → Accounts → Result AuthError Accounts
revoke_device now user id db =
    if count_rows (is_revocable user id) db.devices == 0
    then err not_found
    else ok (record db {
      devices =
          update_rows (is_revocable user id) (λ d. record d { revoked_at = some now }) db.devices;
    })
