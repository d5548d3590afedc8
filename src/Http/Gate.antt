-- ===== src/Http/Gate.antt =====
-- internal/http/middleware/auth.go: Authenticate, RequireSession, bearerToken and isSafeMethod. The
-- token hash and the check of a CSRF token are parameters; a client that gave up is not modelled.
use khans_bike.Common.{
  ℕ, ◌+◌, Bool, true, false, not, ◌&&◌, ◌||◌, Option, none, some, [], ◌∷◌, leb, ◌==◌, if◌then◌else◌,
  Result, ok, err,
}
use khans_bike.Common.Text.{Text, text_eq, is_empty, trim_space, codes}
use khans_bike.Auth.Sessions.{
  Accounts, Principal, AuthError, unauthorized, is_session, authenticate_session,
  authenticate_device,
}

-- What Authenticate reads of a request.
pub record Request : Type 0 where
  pub method : Text
  pub authorization : Text
  pub cookie : Option Text
  pub csrf_token : Text

pub data Answer : Type 0 where
  served : Principal → Answer
  refused : AuthError → Answer
  csrf_missing session_required : Answer

unfoldable pub is_safe_method : Text → Bool
is_safe_method m =
    text_eq m (codes "GET") || text_eq m (codes "HEAD") || text_eq m (codes "OPTIONS")

-- strings.Cut at the first space.
unfoldable pub cut_space : Text → Option (Text × Text)
cut_space [] = none
cut_space (c ∷ s) =
    let rest = cut_space s in
    if c == 32 then some ([], s) else elim rest [ none ↦ none | some (a, b) ↦ some (c ∷ a, b) ]

-- strings.EqualFold with an ASCII word whose letters have no other fold.
abbrev pub lower : ℕ → ℕ
lower c = if leb b'A' c && leb c b'Z' then c + 32 else c

unfoldable pub equal_fold : Text → Text → Bool
equal_fold [] [] = true
equal_fold (c ∷ s) (d ∷ t) = lower c == lower d && equal_fold s t
equal_fold _ _ = false

unfoldable pub bearer_token : Request → Option Text
bearer_token r = elim (cut_space r.authorization) [
  | none ↦ none
  | some (scheme, token) ↦
      if not (equal_fold scheme (codes "Bearer")) || is_empty (trim_space token)
      then none
      else some (trim_space token)
]

-- A cookie that is there and not empty.
abbrev pub cookie_value : Option Text → Option Text
cookie_value none = none
cookie_value (some c) = if is_empty c then none else some c

module _ (hash_token : Text → Text) (verify_csrf : Principal → Text → Bool) where
  -- VerifyCSRF of the service: no token is never right.
  unfoldable pub csrf_holds : Principal → Text → Bool
  csrf_holds p token = not (is_empty token) && verify_csrf p token

  unfoldable pub resolve : ℕ → Request → Accounts → Result AuthError Principal × Accounts
  resolve now r db = elim (bearer_token r) [
    | some token ↦ authenticate_device now (hash_token token) db
    | none ↦ elim (cookie_value r.cookie) [
      | some c ↦ authenticate_session now (hash_token c) db
      | none ↦ (err unauthorized, db)
    ]
  ]

  unfoldable pub admit : Request → Result AuthError Principal → Answer
  admit r (err e) = refused e
  admit r (ok p) =
      if is_session p && not (is_safe_method r.method) && not (csrf_holds p r.csrf_token)
      then csrf_missing
      else served p

  -- Authenticate.
  unfoldable pub authenticate : ℕ → Request → Accounts → Answer
  authenticate now r db = admit r (resolve now r db).0

  -- RequireSession behind Authenticate.
  unfoldable pub require_session : Answer → Answer
  require_session (served p) = if is_session p then served p else session_required
  require_session a = a
