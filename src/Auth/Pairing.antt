-- ===== src/Auth/Pairing.antt =====
-- internal/auth/service.go: a pairing code that was redeemed, whatever happens afterwards.
use mathlib.Core.Path.{subst}
use khans_bike.Common.{
  ℕ, zero, suc, ◌+◌, ◌-◌, ◌≤◌, ◌≡◌, refl, sym, Bool, true, false, not, ◌||◌, some, List, [], ◌∷◌,
  arith, ◌==◌, ltb, leb, All, Bool-cases, Option-cases, inl, inr, Result, ok, err, guard, find_row,
  delete_rows, count_rows, update_rows-All, find_row-none, All-pure, >>=-eq-ok, ok-injective,
}
use khans_bike.Common.Text.{Text, text_eq}
use khans_bike.Auth.Login.{Hashing}
use khans_bike.Auth.Access.{change_password_lem}
use khans_bike.Auth.Sessions.{
  PairingCode, Accounts, Principal, AuthError, is_session, is_null, authenticate_session,
  authenticate_device, logout, change_password, replace_password, try_codes, pairing_attempts,
  create_pairing_code, is_redeemable, redeem_pairing_code, is_revocable, revoke_device,
  unauthorized, forbidden, is_live, is_paired, touch_interval, device_is_stale,
}

-- DeleteStalePairingCodes, a day after a code has expired.
abbrev pub is_stale : ℕ → PairingCode → Bool
is_stale now c = ltb (c.expires_at + 86400) now

unfoldable pub delete_stale_codes : ℕ → Accounts → Accounts
delete_stale_codes now db = record db { codes = delete_rows (is_stale now) db.codes }

-- What happens to sessions, devices and codes, with the time and what it draws.
pub data AccountOp : Type 0 where
  session_seen : ℕ → Text → AccountOp
  device_seen : ℕ → Text → AccountOp
  logged_out : Principal → AccountOp
  password_changed : Hashing → (Text → Bool) → Principal → Text → Text → AccountOp
  code_created : (ℕ → Text) → ℕ → Principal → AccountOp
  code_redeemed : ℕ → Text → ℕ → Text → Text → AccountOp
  device_revoked : ℕ → ℕ → ℕ → AccountOp
  codes_swept : ℕ → AccountOp

-- A request that fails changes nothing.
abbrev pub done_or : Accounts → Result AuthError Accounts → Accounts
done_or db (ok db') = db'
done_or db (err _) = db

unfoldable pub on_accounts : AccountOp → Accounts → Accounts
on_accounts (session_seen now hash) db = (authenticate_session now hash db).1
on_accounts (device_seen now hash) db = (authenticate_device now hash db).1
on_accounts (logged_out p) db = done_or db (logout p db)
on_accounts (password_changed h valid p current next) db =
    done_or db (change_password h valid p current next db)
on_accounts (code_created draw expires p) db = done_or db (create_pairing_code draw expires p db)
on_accounts (code_redeemed now code id name hash) db =
    done_or db (redeem_pairing_code now code id name hash db)
on_accounts (device_revoked now user id) db = done_or db (revoke_device now user id db)
on_accounts (codes_swept now) db = delete_stale_codes now db

unfoldable pub account_history : List AccountOp → Accounts → Accounts
account_history [] db = db
account_history (op ∷ ops) db = account_history ops (on_accounts op db)

-- The codes that are created are others.
abbrev pub DrawsOther : Text → AccountOp → Type 0
DrawsOther code (code_created draw expires p) = (k : ℕ) → text_eq (draw k) code ≡ false
DrawsOther code _ = Unit {0}

module _ (now : ℕ) (code : Text) where
  -- A row that does not let anybody redeem the code any more.
  abbrev is_spent : PairingCode → Bool
  is_spent c = not (text_eq c.code code) || not (is_null c.consumed_at) || leb c.expires_at now

  abbrev IsSpent : Accounts → Type 0
  IsSpent db = All (λ c. is_spent c ≡ true) db.codes

  done_or-IsSpent :
      (db : Accounts) (res : Result AuthError Accounts)
      → IsSpent db
      → ((db' : Accounts) → res ≡ ok db' → IsSpent db')
      → IsSpent (done_or db res)
  done_or-IsSpent db (ok db') h k = k db' refl
  done_or-IsSpent db (err e) h k = h

  session_seen-IsSpent :
      (later : ℕ) (hash : Text) (db : Accounts)
      → IsSpent db
      → IsSpent (authenticate_session later hash db).1
  unfolding authenticate_session
  session_seen-IsSpent later hash db h =
      elim (Option-cases (find_row (is_live later hash) db.sessions)) [
        | inl missing ↦ rw (authenticate_session, missing) h
        | inr (s, hit) ↦ elim (Bool-cases (ltb touch_interval (later - s.last_seen_at))) [
          | inl old ↦ rw (authenticate_session, hit, old) h
          | inr fresh ↦ rw (authenticate_session, hit, fresh) h
        ]
      ]

  device_seen-IsSpent :
      (later : ℕ) (hash : Text) (db : Accounts)
      → IsSpent db
      → IsSpent (authenticate_device later hash db).1
  unfolding authenticate_device
  device_seen-IsSpent later hash db h = elim (Option-cases (find_row (is_paired hash) db.devices)) [
    | inl missing ↦ rw (authenticate_device, missing) h
    | inr (d, hit) ↦ elim (Bool-cases (device_is_stale later d.last_seen_at)) [
      | inl old ↦ rw (authenticate_device, hit, old) h
      | inr fresh ↦ rw (authenticate_device, hit, fresh) h
    ]
  ]

  try_codes-IsSpent :
      (attempts : ℕ) (draw : ℕ → Text) (expires user : ℕ) (db db' : Accounts)
      → ((k : ℕ) → text_eq (draw k) code ≡ false)
      → IsSpent db
      → try_codes attempts draw expires user db ≡ ok db'
      → IsSpent db'
  unfolding try_codes
  try_codes-IsSpent zero draw expires user db db' other h e = cc
  try_codes-IsSpent (suc attempts) draw expires user db db' other h e =
      elim (Option-cases (find_row (λ c. text_eq c.code (draw attempts)) db.codes)) [
        | inl free ↦
            subst IsSpent (ok-injective (rw (try_codes, free) at e)) (rw (other attempts) refl, h)
        | inr (c, taken) ↦
            try_codes-IsSpent attempts draw expires user db db' other h (rw (try_codes, taken) at e)
      ]

  redeem-IsSpent :
      (later : ℕ) (other : Text) (id : ℕ) (name hash : Text) (db db' : Accounts)
      → IsSpent db
      → redeem_pairing_code later other id name hash db ≡ ok db'
      → IsSpent db'
  unfolding redeem_pairing_code
  redeem-IsSpent later other id name hash db db' h e =
      let consumed =
        update_rows-All (λ c. is_spent c ≡ true) (λ c. is_spent c ≡ true)
          (is_redeemable later other) (λ r. record r { consumed_at = some later }) db.codes
          (λ c s _. ground (arith, s)) (λ c s _. s) h in
      elim (Option-cases (find_row (is_redeemable later other) db.codes)) [
        | inl missing ↦ cc (rw (redeem_pairing_code, missing) at e)
        | inr (c, hit) ↦ subst IsSpent (ok-injective (rw (redeem_pairing_code, hit) at e)) consumed
      ]

  revoke-IsSpent :
      (later user id : ℕ) (db db' : Accounts)
      → IsSpent db
      → revoke_device later user id db ≡ ok db'
      → IsSpent db'
  unfolding revoke_device
  revoke-IsSpent later user id db db' h e =
      elim (Bool-cases (count_rows (is_revocable user id) db.devices == 0)) [
        | inl missing ↦ cc (rw (revoke_device, missing) at e)
        | inr found ↦ subst IsSpent (ok-injective (rw (revoke_device, found) at e)) h
      ]

  create-IsSpent :
      (draw : ℕ → Text) (expires : ℕ) (p : Principal) (db db' : Accounts)
      → ((k : ℕ) → text_eq (draw k) code ≡ false)
      → IsSpent db
      → create_pairing_code draw expires p db ≡ ok db'
      → IsSpent db'
  unfolding create_pairing_code
  create-IsSpent draw expires p db db' other h e =
      let (_, _, e') = >>=-eq-ok (guard (is_session p) forbidden) _ e in
      try_codes-IsSpent pairing_attempts draw expires p.user_id db db' other h e'

  logout-IsSpent :
      (p : Principal) (db db' : Accounts) → IsSpent db → logout p db ≡ ok db' → IsSpent db'
  unfolding logout
  logout-IsSpent p db db' h e =
      let (_, _, e') = >>=-eq-ok (guard (is_session p) forbidden) _ e in
      subst IsSpent (ok-injective e') h

  change_password-IsSpent :
      (hashing : Hashing) (valid : Text → Bool) (p : Principal) (current next : Text)
      (db db' : Accounts)
      → IsSpent db
      → change_password hashing valid p current next db ≡ ok db'
      → IsSpent db'
  unfolding replace_password
  change_password-IsSpent hashing valid p current next db db' h e =
      let (_, _, same) = change_password_lem hashing valid p current next db db' e in
      subst IsSpent (sym same) h

  swept-IsSpent :
      (later : ℕ) (codes : List PairingCode)
      → All (λ c. is_spent c ≡ true) codes
      → All (λ c. is_spent c ≡ true) (delete_rows (is_stale later) codes)
  swept-IsSpent later [] h = tt
  swept-IsSpent later (c ∷ codes) (s, h) = elim (Bool-cases (is_stale later c)) [
    | inl old ↦ rw old (swept-IsSpent later codes h)
    | inr kept ↦ rw kept (s, swept-IsSpent later codes h)
  ]

  on_accounts-IsSpent :
      (op : AccountOp) (db : Accounts)
      → DrawsOther code op
      → IsSpent db
      → IsSpent (on_accounts op db)
  unfolding on_accounts delete_stale_codes
  on_accounts-IsSpent (session_seen later hash) db other h = session_seen-IsSpent later hash db h
  on_accounts-IsSpent (device_seen later hash) db other h = device_seen-IsSpent later hash db h
  on_accounts-IsSpent (logged_out p) db other h =
      done_or-IsSpent db (logout p db) h (λ db' e. logout-IsSpent p db db' h e)
  on_accounts-IsSpent (password_changed hashing valid p current next) db other h =
      done_or-IsSpent db (change_password hashing valid p current next db) h
        (λ db' e. change_password-IsSpent hashing valid p current next db db' h e)
  on_accounts-IsSpent (code_created draw expires p) db other h =
      done_or-IsSpent db (create_pairing_code draw expires p db) h
        (λ db' e. create-IsSpent draw expires p db db' other h e)
  on_accounts-IsSpent (code_redeemed later token id name hash) db other h =
      done_or-IsSpent db (redeem_pairing_code later token id name hash db) h
        (λ db' e. redeem-IsSpent later token id name hash db db' h e)
  on_accounts-IsSpent (device_revoked later user id) db other h =
      done_or-IsSpent db (revoke_device later user id db) h
        (λ db' e. revoke-IsSpent later user id db db' h e)
  on_accounts-IsSpent (codes_swept later) db other h = swept-IsSpent later db.codes h

  account_history-IsSpent :
      (ops : List AccountOp) (db : Accounts)
      → All (DrawsOther code) ops
      → IsSpent db
      → IsSpent (account_history ops db)
  unfolding account_history
  account_history-IsSpent [] db other h = h
  account_history-IsSpent (op ∷ ops) db (new, other) h =
      account_history-IsSpent ops (on_accounts op db) other (on_accounts-IsSpent op db new h)

  redeemable_or_spent : (c : PairingCode) → is_redeemable now code c ≡ false → is_spent c ≡ true
  unfolding is_redeemable
  redeemable_or_spent c h = ground (arith, h)

  consumed_code : (c : PairingCode) → is_spent (record c { consumed_at = some now }) ≡ true
  consumed_code c = ground arith

  redeemed-IsSpent :
      (id : ℕ) (name hash : Text) (db db' : Accounts)
      → redeem_pairing_code now code id name hash db ≡ ok db'
      → IsSpent db'
  unfolding redeem_pairing_code
  redeemed-IsSpent id name hash db db' e =
      let consumed =
        update_rows-All (λ c. is_spent c ≡ true) (λ _. Unit {0}) (is_redeemable now code)
          (λ r. record r { consumed_at = some now }) db.codes (λ c _ _. consumed_code c)
          (λ c _ miss. redeemable_or_spent c miss) (All-pure (λ _. Unit {0}) (λ _. tt) db.codes) in
      elim (Option-cases (find_row (is_redeemable now code) db.codes)) [
        | inl missing ↦ cc (rw (redeem_pairing_code, missing) at e)
        | inr (c, hit) ↦ subst IsSpent (ok-injective (rw (redeem_pairing_code, hit) at e)) consumed
      ]

  spent_code :
      (later : ℕ) (c : PairingCode)
      → now ≤ later
      → is_spent c ≡ true
      → is_redeemable later code c ≡ false
  unfolding is_redeemable
  spent_code later c order h = ground (arith, order, h)

-- RedeemPairingCode consumes its code: once it has succeeded, and whatever requests on sessions,
-- devices and codes follow, as long as none of them creates the same code again, no later call redeems
-- that code.
pub redeem_pairing_code-once :
    (now later : ℕ) (code : Text) (id id2 : ℕ) (name name2 hash hash2 : Text) (db db' : Accounts)
    (ops : List AccountOp)
    → redeem_pairing_code now code id name hash db ≡ ok db'
    → All (DrawsOther code) ops
    → now ≤ later
    → redeem_pairing_code later code id2 name2 hash2 (account_history ops db') ≡ err unauthorized
unfolding redeem_pairing_code
redeem_pairing_code-once now later code id id2 name name2 hash hash2 db db' ops e other order =
    let end = account_history ops db' in
    let spent =
      account_history-IsSpent now code ops db' other
        (redeemed-IsSpent now code id name hash db db' e) in
    let missing =
      find_row-none (λ c. is_spent now code c ≡ true) (is_redeemable later code) end.codes
        (λ c s. spent_code now code later c order s) spent in
    rw (redeem_pairing_code, missing) refl
