-- ===== src/Examples/Requests.antt =====
-- A request of a browser, and the theorem on what reaches a session's handler at it.
use khans_bike.Common.{◌≡◌, refl, Bool, true, ◌||◌, none, some, [], ◌∷◌}
use khans_bike.Common.Text.{Text, codes, text_eq}
use khans_bike.Auth.Sessions.{
  Accounts, Principal, by_session, is_session, authenticate_session, is_live,
}
use khans_bike.Http.Gate.{
  Request, served, is_safe_method, bearer_token, csrf_holds, authenticate, require_session, resolve,
  admit, cut_space,
}
use khans_bike.Http.Pass.{require_session-authenticate}

-- Hashes are the tokens themselves, and one CSRF token is right.
abbrev same_hash : Text → Text
same_hash t = t

abbrev csrf_right : Principal → Text → Bool
csrf_right p t = text_eq t (codes "csrf")

abbrev post : Request
post = record {
  method = codes "POST";
  authorization = [];
  cookie = some (codes "a");
  csrf_token = codes "csrf";
}

abbrev one_session : Accounts
one_session = record {
  users = [];
  sessions =
      record { id = 8; user_id = 1; token_hash = codes "a"; expires_at = 900; last_seen_at = 100 }
      ∷ [];
  devices = [];
  codes = [];
}

abbrev owner_session : Principal
owner_session = record { user_id = 1; kind = by_session; credential = 8 }

passes :
    require_session same_hash csrf_right (authenticate same_hash csrf_right 200 post one_session)
    ≡ served owner_session
unfolding require_session authenticate resolve admit bearer_token cut_space authenticate_session
    is_live is_safe_method csrf_holds
passes = refl

require_session-authenticate_example :
    (bearer_token post ≡ none)
    × (is_session owner_session ≡ true)
    × ((is_safe_method post.method || csrf_holds same_hash csrf_right owner_session post.csrf_token)
        ≡ true)
require_session-authenticate_example =
    require_session-authenticate same_hash csrf_right 200 post one_session owner_session passes
