-- ===== src/Auth/Access.antt =====
-- internal/auth/service.go: who is let in after a password change and a revocation.
use khans_bike.Common.{
  ℕ, ◌≡◌, refl, sym, ◌∙◌, Bool, true, false, some, arith, ◌==◌, All, Bool-cases, Option-cases, inl,
  inr, ok, find_row, update_rows, count_rows, find_row-All, update_rows-All, delete_rows-All,
  All-pure,
}
use khans_bike.Common.Text.{Text, text_eq}
use khans_bike.Auth.Login.{Hashing}
use khans_bike.Auth.Sessions.{
  Session, Device, Accounts, Principal, is_session, is_live, authenticate_session, is_paired,
  authenticate_device, is_other_session, replace_password, change_password, is_revocable,
  revoke_device, is_null,
}

-- A session that authenticates is one of the table's, not expired.
pub authenticate_session_lem :
    (P : Session → Type 0) (now : ℕ) (hash : Text) (db : Accounts) (q : Principal)
    → All P db.sessions
    → (authenticate_session now hash db).0 ≡ ok q
    → (s : Session) × P s
      × (is_live now hash s ≡ true)
      × (s.user_id ≡ q.user_id)
      × (s.id ≡ q.credential)
unfolding authenticate_session
authenticate_session_lem P now hash db q h e =
    elim (Option-cases (find_row (is_live now hash) db.sessions)) [
      | inl missing ↦ cc
      | inr (s, hit) ↦
          let (live, ps) = find_row-All P (is_live now hash) db.sessions s h hit in
          (s, ps, live, ground arith, ground arith)
    ]

pub change_password_lem :
    (h : Hashing) (valid : Text → Bool) (p : Principal) (current next : Text) (db db' : Accounts)
    → change_password h valid p current next db ≡ ok db'
    → (is_session p ≡ true)
      × (valid next ≡ true)
      × (db' ≡ replace_password p.user_id (h.hash next) p.credential db)
unfolding change_password
change_password_lem h valid p current next db db' e =
    elim (Option-cases (find_row (λ u. u.id == p.user_id) db.users)) [
      | inl missing ↦ ground arith
      | inr (u, hit) ↦ elim (Option-cases (h.verify u.password_hash current)) [
        | inl failed ↦ ground arith
        | inr (right, v) ↦ ground arith
      ]
    ]

other_session :
    (user keep : ℕ) (s : Session)
    → is_other_session user keep s ≡ false
    → s.user_id ≡ user
    → s.id ≡ keep
unfolding is_other_session
other_session user keep s h e = ground arith

-- A password change needs a session and a valid new password, and afterwards a session that
-- authenticates as the user is the one that made the change: all others are signed out.
pub change_password-sessions :
    (h : Hashing) (valid : Text → Bool) (p : Principal) (current next : Text) (db db' : Accounts)
    (now : ℕ) (hash : Text) (q : Principal)
    → change_password h valid p current next db ≡ ok db'
    → (authenticate_session now hash db').0 ≡ ok q
    → q.user_id ≡ p.user_id
    → (is_session p ≡ true) × (valid next ≡ true) × (q.credential ≡ p.credential)
unfolding replace_password
change_password-sessions h valid p current next db db' now hash q changed let_in same =
    let (session, strong, written) = change_password_lem h valid p current next db db' changed in
    let kept =
      delete_rows-All (λ s. is_other_session p.user_id p.credential s ≡ false)
        (is_other_session p.user_id p.credential) db.sessions (λ s e. e) in
    let (s, own, live, user, id) =
      authenticate_session_lem (λ s. is_other_session p.user_id p.credential s ≡ false) now hash db'
        q (rw written kept) let_in in
    (session, strong, sym id ∙ other_session p.user_id p.credential s own (user ∙ same))

impossible {ℓ} : {A : Type ℓ} {b : Bool} → b ≡ false → b ≡ true → A
impossible e h = cc

revoked :
    (now user id : ℕ) (hash : Text) (d : Device)
    → is_paired hash (record d { revoked_at = some now }) ≡ false
unfolding is_paired
revoked now user id hash d = elim (Bool-cases (text_eq d.token_hash hash)) [
  | inl e ↦ rw e refl
  | inr e ↦ rw e refl
]

not_revocable :
    (user id : ℕ) (hash : Text) (d : Device)
    → is_revocable user id d ≡ false
    → is_paired hash d ≡ true
    → ¬ ((d.user_id ≡ user) × (d.id ≡ id))
unfolding is_revocable is_paired
not_revocable user id hash d h e (u, i) = elim (Bool-cases (is_null d.revoked_at)) [
  | inl live ↦ ground arith
  | inr dead ↦ ground arith
]

authenticate_device_lem :
    (P : Device → Type 0) (now : ℕ) (hash : Text) (db : Accounts) (q : Principal)
    → All P db.devices
    → (authenticate_device now hash db).0 ≡ ok q
    → (d : Device) × P d
      × (is_paired hash d ≡ true)
      × (d.user_id ≡ q.user_id)
      × (d.id ≡ q.credential)
unfolding authenticate_device
authenticate_device_lem P now hash db q h e =
    elim (Option-cases (find_row (is_paired hash) db.devices)) [
      | inl missing ↦ cc
      | inr (d, hit) ↦
          let (live, pd) = find_row-All P (is_paired hash) db.devices d h hit in
          (d, pd, live, ground arith, ground arith)
    ]

-- After RevokeDevice, no token authenticates as that device of that user.
pub revoke_device-authenticate :
    (now later user id : ℕ) (hash : Text) (db db' : Accounts) (q : Principal)
    → revoke_device now user id db ≡ ok db'
    → (authenticate_device later hash db').0 ≡ ok q
    → ¬ ((q.user_id ≡ user) × (q.credential ≡ id))
unfolding revoke_device
revoke_device-authenticate now later user id hash db db' q e let_in =
    let out =
      update_rows-All (λ d. is_paired hash d ≡ true → ¬ ((d.user_id ≡ user) × (d.id ≡ id)))
        (λ _. Unit {0}) (is_revocable user id) (λ d. record d { revoked_at = some now }) db.devices
        (λ d _ _ paired. impossible (revoked now user id hash d) paired)
        (λ d _ h. not_revocable user id hash d h) (All-pure (λ _. Unit {0}) (λ _. tt) db.devices) in
    elim (Bool-cases (count_rows (is_revocable user id) db.devices == 0)) [
      | inl missing ↦ ground arith
      | inr some_row ↦
          let written : db'.devices
              ≡ update_rows (is_revocable user id) (λ d. record d { revoked_at = some now })
                  db.devices =
            ground arith in
          let (d, gone, paired, u, i) =
            authenticate_device_lem
              (λ d. is_paired hash d ≡ true → ¬ ((d.user_id ≡ user) × (d.id ≡ id))) later hash db' q
              (rw written out) let_in in
          λ (same_user, same_id). gone paired (u ∙ same_user, i ∙ same_id)
    ]
