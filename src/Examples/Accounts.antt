-- ===== src/Examples/Accounts.antt =====
-- Accounts, and the theorems on logins, sessions, pairing codes and devices at them.
use khans_bike.Common.{
  ℕ, ◌+◌, ◌-◌, ◌*◌, ◌^◌, ◌≤◌, ◌≡◌, refl, Bool, true, false, none, some, List, [], ◌∷◌, arith, ltb,
  take, if◌then◌else◌, ok, err,
}
use khans_bike.Common.Text.{Text, codes}
use khans_bike.Common.{min}
use khans_bike.Auth.Lockout.{lockout_for, double_while, lockout_for-pow}
use khans_bike.Auth.Login.{
  User, Hashing, session_opened, is_locked, login, logins, login_opened, lock_until,
  record_failed_login,
}
use khans_bike.Auth.Throttle.{IsGuess, logins-throttled}
use khans_bike.Auth.Sessions.{
  Session, Device, PairingCode, Accounts, Principal, by_session, by_device, is_session,
  change_password, authenticate_session, authenticate_device, redeem_pairing_code, revoke_device,
  unauthorized, is_live, is_paired, is_redeemable, is_revocable, is_other_session, set_password,
  replace_password,
}
use khans_bike.Auth.Access.{change_password-sessions, revoke_device-authenticate}
use khans_bike.Auth.Pairing.{
  AccountOp, code_created, code_redeemed, device_revoked, codes_swept, account_history,
  redeem_pairing_code-once,
}
use khans_bike.Common.Text.{text_eq}

-- Hashes that are the passwords themselves.
abbrev plain_hashing : Hashing
plain_hashing = record {
  verify = λ hash password. some (text_eq hash password);
  needs_rehash = λ _. false;
  hash = λ password. password;
}

abbrev right : Text
right = codes "right"

abbrev wrong : Text
wrong = codes "wrong"

abbrev owner : User
owner = record { id = 1; password_hash = right; failed_login_count = 0; locked_until = none }

lockout_for-pow_example : lockout_for 7 ≡ (if ltb 7 5 then 0 else min (60 * 2 ^ (7 - 5)) 3600)
lockout_for-pow_example = lockout_for-pow 7

opens : (login plain_hashing 100 right owner).0 ≡ session_opened
unfolding login is_locked
opens = refl

login_opened_example :
    let u' = (login plain_hashing 100 right owner).1 in
    (is_locked 100 owner ≡ false)
    × (some (text_eq right right) ≡ some true)
    × (u'.failed_login_count ≡ 0)
    × (u'.locked_until ≡ none)
login_opened_example = login_opened plain_hashing 100 right owner opens

-- Five failures lock the account for a minute: the sixth guess is refused, the seventh counts.
abbrev guesses : List (ℕ × Text)
guesses =
    (100, wrong)
    ∷ (100, wrong)
    ∷ (100, wrong)
    ∷ (100, wrong)
    ∷ (100, wrong)
    ∷ (130, wrong)
    ∷ (160, wrong)
    ∷ []

six_are_counted : (logins plain_hashing guesses owner).failed_login_count ≡ 6
unfolding logins login is_locked lock_until record_failed_login lockout_for double_while
six_are_counted = refl

-- A slow login that has read the row before the others writes its own lock over theirs: none.
slow_login_unlocks :
    (record_failed_login
      (lock_until 100 owner)
      (logins plain_hashing (take 5 guesses) owner)).locked_until
    ≡ none
unfolding logins login is_locked lock_until record_failed_login lockout_for double_while
slow_login_unlocks = refl

guess :
    (start now : ℕ) → start ≤ now → now ≤ 160 → IsGuess plain_hashing right start 160 (now, wrong)
guess start now low high = (low, high, λ e. ground arith)

logins-throttled_example :
    100 + 60 * ((logins plain_hashing guesses owner).failed_login_count - 5) ≤ 160
logins-throttled_example =
    let first = guess 100 100 (omega arith) (omega arith) in
    logins-throttled plain_hashing 100 160 guesses owner refl (omega arith) (
      first,
      (
        first,
        (
          first,
          (
            first,
            (
              first,
              (
                guess 100 130 (omega arith) (omega arith),
                (guess 100 160 (omega arith) (omega arith), tt),
              ),
            ),
          ),
        ),
      ),
    )

abbrev session_of : ℕ → Text → Session
session_of id token = record {
  id = id;
  user_id = 1;
  token_hash = token;
  expires_at = 1000;
  last_seen_at = 100;
}

abbrev phone : Device
phone = record {
  id = 5;
  user_id = 1;
  name = codes "phone";
  token_hash = codes "p";
  last_seen_at = none;
  revoked_at = none;
}

abbrev tablet : Device
tablet = record {
  id = 6;
  user_id = 1;
  name = codes "tablet";
  token_hash = codes "t";
  last_seen_at = none;
  revoked_at = none;
}

abbrev code : PairingCode
code = record { code = codes "ABCD"; user_id = 1; expires_at = 500; consumed_at = none }

abbrev accounts : Accounts
accounts = record {
  users = owner ∷ [];
  sessions = session_of 8 (codes "a") ∷ session_of 9 (codes "b") ∷ [];
  devices = phone ∷ tablet ∷ [];
  codes = code ∷ [];
}

abbrev here : Principal
here = record { user_id = 1; kind = by_session; credential = 8 }

abbrev strong : Text → Bool
strong _ = true

-- The accounts after the owner changed the password from session 8.
abbrev changed : Accounts
changed = record accounts {
  users = record owner { password_hash = codes "new" } ∷ [];
  sessions = session_of 8 (codes "a") ∷ [];
}

changes : change_password plain_hashing strong here right (codes "new") accounts ≡ ok changed
unfolding change_password replace_password set_password is_other_session
changes = refl

lets_in : (authenticate_session 200 (codes "a") changed).0 ≡ ok here
unfolding authenticate_session is_live
lets_in = refl

change_password-sessions_example :
    (is_session here ≡ true) × (strong (codes "new") ≡ true) × (here.credential ≡ here.credential)
change_password-sessions_example =
    change_password-sessions plain_hashing strong here right (codes "new") accounts changed 200
      (codes "a") here changes lets_in refl

-- The accounts after a code was redeemed for a third device.
abbrev paired : Accounts
paired = record accounts {
  codes = record code { consumed_at = some 300 } ∷ [];
  devices = record phone { id = 7; token_hash = codes "n" } ∷ phone ∷ tablet ∷ [];
}

redeems : redeem_pairing_code 300 (codes "ABCD") 7 (codes "phone") (codes "n") accounts ≡ ok paired
unfolding redeem_pairing_code is_redeemable
redeems = refl

-- The owner makes another code, which pairs a fourth device, and revokes the phone.
abbrev later_on : List AccountOp
later_on =
    code_created (λ k. codes "WXYZ") 900 here
    ∷ code_redeemed 350 (codes "WXYZ") 11 (codes "laptop") (codes "l")
    ∷ device_revoked 360 1 5
    ∷ codes_swept 370
    ∷ []

redeem_pairing_code-once_example :
    redeem_pairing_code 401
      (codes "ABCD")
      10
      (codes "thief")
      (codes "x")
      (account_history later_on paired)
    ≡ err unauthorized
redeem_pairing_code-once_example =
    redeem_pairing_code-once 300 401 (codes "ABCD") 7 10 (codes "phone") (codes "thief") (codes "n")
      (codes "x") accounts paired later_on redeems ((λ k. refl), (tt, (tt, (tt, tt)))) (omega arith)

-- The accounts after the phone was revoked.
abbrev signed_out : Accounts
signed_out = record accounts { devices = record phone { revoked_at = some 400 } ∷ tablet ∷ [] }

revokes : revoke_device 400 1 5 accounts ≡ ok signed_out
unfolding revoke_device is_revocable
revokes = refl

abbrev tablet_caller : Principal
tablet_caller = record { user_id = 1; kind = by_device; credential = 6 }

tablet_in : (authenticate_device 401 (codes "t") signed_out).0 ≡ ok tablet_caller
unfolding authenticate_device is_paired
tablet_in = refl

revoke_device-authenticate_example :
    ¬ ((tablet_caller.user_id ≡ 1) × (tablet_caller.credential ≡ 5))
revoke_device-authenticate_example =
    revoke_device-authenticate 400 401 1 5 (codes "t") accounts signed_out tablet_caller revokes
      tablet_in
