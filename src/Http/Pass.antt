-- ===== src/Http/Pass.antt =====
-- internal/http/middleware/auth.go: whose requests reach a handler that is reserved for the browser.
use khans_bike.Common.{
  ℕ, ◌≡◌, Bool, true, false, not, ◌&&◌, ◌||◌, none, arith, Bool-cases, Option-cases, inl, inr,
  Result, ok, err, ap, find_row,
}
use mathlib.Core.Path.{subst}
use khans_bike.Common.Text.{Text}
use khans_bike.Auth.Sessions.{
  Accounts, Principal, AuthError, is_session, authenticate_device, is_paired,
}
use khans_bike.Http.Gate.{
  Request, Answer, served, refused, csrf_missing, session_required, is_safe_method, bearer_token,
  csrf_holds, resolve, admit, authenticate, require_session,
}

served-injective : {p q : Principal} → served p ≡ served q → p ≡ q
served-injective {p} e = ap (λ a. elim a [ served x ↦ x | _ ↦ p ]) e

device_caller :
    (now : ℕ) (hash : Text) (db : Accounts) (p : Principal)
    → (authenticate_device now hash db).0 ≡ ok p
    → is_session p ≡ false
unfolding authenticate_device
device_caller now hash db p e = elim (Option-cases (find_row (is_paired hash) db.devices)) [
  | inl missing ↦ cc
  | inr (d, hit) ↦ ground arith
]

module _ (hash_token : Text → Text) (verify_csrf : Principal → Text → Bool) where
  abbrev unchecked : Request → Principal → Bool
  unchecked r p =
      is_session p
      && not (is_safe_method r.method)
      && not (csrf_holds hash_token verify_csrf p r.csrf_token)

  admit_lem :
      (r : Request) (res : Result AuthError Principal) (p : Principal)
      → admit hash_token verify_csrf r res ≡ served p
      → (res ≡ ok p) × (unchecked r p ≡ false)
  unfolding admit
  admit_lem r (err e) p h = cc
  admit_lem r (ok q) p h = elim (Bool-cases (unchecked r q)) [
    | inl y ↦ ground arith
    | inr n ↦
        let same : q ≡ p = served-injective (rw n at h) in
        (ap ok same, subst (λ x. unchecked r x ≡ false) same n)
  ]

  required :
      (a : Answer) (p : Principal)
      → require_session hash_token verify_csrf a ≡ served p
      → (a ≡ served p) × (is_session p ≡ true)
  unfolding require_session
  required (served q) p h = elim (Bool-cases (is_session q)) [
    | inl y ↦
        let same : q ≡ p = served-injective (rw y at h) in
        (ap served same, subst (λ x. is_session x ≡ true) same y)
    | inr n ↦ ground arith
  ]
  required (refused e) p h = cc
  required csrf_missing p h = cc
  required session_required p h = cc

  resolved :
      (now : ℕ) (r : Request) (db : Accounts) (p : Principal)
      → (resolve hash_token verify_csrf now r db).0 ≡ ok p
      → is_session p ≡ true
      → bearer_token r ≡ none
  unfolding resolve
  resolved now r db p e k = elim (Option-cases (bearer_token r)) [
    | inl without ↦ without
    | inr (token, with_token) ↦
        let device = device_caller now (hash_token token) db p (rw (with_token, resolve) at e) in
        absurd (ground arith)
  ]

  -- A request that reaches a handler behind Authenticate and RequireSession carries no bearer token, is
  -- made by a session, and changes nothing by its method or has the session's CSRF token.
  pub require_session-authenticate :
      (now : ℕ) (r : Request) (db : Accounts) (p : Principal)
      → require_session hash_token verify_csrf (authenticate hash_token verify_csrf now r db)
        ≡ served p
      → (bearer_token r ≡ none)
        × (is_session p ≡ true)
        × ((is_safe_method r.method || csrf_holds hash_token verify_csrf p r.csrf_token) ≡ true)
  unfolding authenticate
  require_session-authenticate now r db p h =
      let (let_in, session) = required (authenticate hash_token verify_csrf now r db) p h in
      let (who, checked) = admit_lem r (resolve hash_token verify_csrf now r db).0 p let_in in
      (resolved now r db p who session, session, ground (arith, checked, session))
