-- ===== src/Examples/Signups.antt =====
-- Sign-ups to the mailing list, and the theorems on their links.
use khans_bike.Common.{ℕ, ◌≡◌, refl, none, some, List, [], ◌∷◌, ◌++◌, arith, ok, err, All, false}
use khans_bike.Common.Text.{Text, codes}
use khans_bike.Service.Subscribers.{
  Subscriber, unconfirmed, confirmed, unsubscribed, confirm, can_confirm, confirm_row, unsubscribe,
  can_unsubscribe, unsubscribe_row, bad_token,
}
use khans_bike.Service.Links.{
  ListOp, signed_up, tokens_issued, link_left, history, holds, confirm-once,
}

abbrev visitor : ℕ → Text → Text → Subscriber
visitor id token leave = record {
  id = id;
  email = leave ++ codes "@b.tt";
  status = unconfirmed;
  confirm_token_hash = some token;
  confirm_expires_at = some 1000;
  unsubscribe_token_hash = some leave;
}

abbrev visitors : List Subscriber
visitors = visitor 1 (codes "x") (codes "u") ∷ visitor 2 (codes "y") (codes "v") ∷ []

abbrev subscribed : ℕ → Text → Subscriber
subscribed id leave = record (visitor id [] leave) {
  status = confirmed;
  confirm_token_hash = none;
  confirm_expires_at = none;
}

abbrev left : Subscriber
left = record (subscribed 1 (codes "u")) { status = unsubscribed }

confirms :
    confirm 10 (codes "x") visitors
    ≡ ok (subscribed 1 (codes "u") ∷ visitor 2 (codes "y") (codes "v") ∷ [])
unfolding confirm can_confirm confirm_row
confirms = refl

-- The visitor leaves again, signs up once more and gets another token.
abbrev afterwards : List ListOp
afterwards =
    link_left (codes "u")
    ∷ signed_up 200000 3 (codes "u@b.tt")
    ∷ tokens_issued 200001 1 (codes "z") (codes "w")
    ∷ []

abbrev now_confirmed : List Subscriber
now_confirmed = subscribed 1 (codes "u") ∷ visitor 2 (codes "y") (codes "v") ∷ []

confirm-once_example :
    All (λ s. holds (codes "x") s ≡ false) (history afterwards now_confirmed)
    × (confirm 200002 (codes "x") (history afterwards now_confirmed) ≡ err bad_token)
confirm-once_example =
    confirm-once 10 200002 (codes "x") visitors now_confirmed afterwards (omega arith) confirms
      (tt, (tt, (refl, tt)))

confirms_other :
    confirm 10 (codes "y") (unsubscribe (codes "u") visitors)
    ≡ ok (left ∷ subscribed 2 (codes "v") ∷ [])
unfolding confirm can_confirm confirm_row unsubscribe can_unsubscribe unsubscribe_row
confirms_other = refl
