-- ===== src/Service/Subscribers.antt =====
-- internal/service/subscribers.go: the double opt-in of the mailing list, with the statements of
-- internal/store/gen/subscribers.sql.go. Token hashes and ids are arguments, times are in seconds; the
-- confirmation job that Subscribe enqueues is answered by a flag.
use khans_bike.Common.{
  ℕ, ◌+◌, ◌-◌, Bool, true, false, not, ◌&&◌, ◌||◌, Option, none, some, List, ◌∷◌, ltb, ◌==◌,
  if◌then◌else◌, Result, ok, err, find_row, update_rows, count_rows,
}
use khans_bike.Common.Text.{Text, text_eq}

pub data SubscriberStatus : Type 0 where
  unconfirmed confirmed unsubscribed : SubscriberStatus

pub record Subscriber : Type 0 where
  pub id : ℕ
  pub email : Text
  pub status : SubscriberStatus
  pub confirm_token_hash : Option Text
  pub confirm_expires_at : Option ℕ
  pub unsubscribe_token_hash : Option Text

abbrev pub is_confirmed : SubscriberStatus → Bool
is_confirmed confirmed = true
is_confirmed _ = false

abbrev pub is_unconfirmed : SubscriberStatus → Bool
is_unconfirmed unconfirmed = true
is_unconfirmed _ = false

abbrev pub is_unsubscribed : SubscriberStatus → Bool
is_unsubscribed unsubscribed = true
is_unsubscribed _ = false

abbrev pub confirm_ttl : ℕ
confirm_ttl = 172800

abbrev pub resend_cooldown : ℕ
resend_cooldown = 600

abbrev pub has_hash : Text → Option Text → Bool
has_hash hash none = false
has_hash hash (some h) = text_eq h hash

-- The row part of UpsertSubscriber's conflict clause.
unfoldable pub sign_up_again : Subscriber → Subscriber
sign_up_again s = record s { status = if is_confirmed s.status then confirmed else unconfirmed }

-- UpsertSubscriber.
unfoldable pub upsert : ℕ → Text → List Subscriber → List Subscriber
upsert id email rows =
    if ltb 0 (count_rows (λ s. text_eq s.email email) rows)
    then update_rows (λ s. text_eq s.email email) sign_up_again rows
    else record {
      id = id;
      email = email;
      status = unconfirmed;
      confirm_token_hash = none;
      confirm_expires_at = none;
      unsubscribe_token_hash = none;
    }
      ∷ rows

-- ConfirmSubscriber: pending rows with this hash whose link has not expired.
abbrev pub in_time : ℕ → Option ℕ → Bool
in_time now none = true
in_time now (some at) = ltb now at

unfoldable pub can_confirm : ℕ → Text → Subscriber → Bool
can_confirm now hash s =
    has_hash hash s.confirm_token_hash
    && is_unconfirmed s.status
    && in_time now s.confirm_expires_at

unfoldable pub confirm_row : Subscriber → Subscriber
confirm_row s = record s {
  status = confirmed;
  confirm_token_hash = none;
  confirm_expires_at = none;
}

pub data LinkError : Type 0 where
  bad_token : LinkError

-- Confirm.
unfoldable pub confirm : ℕ → Text → List Subscriber → Result LinkError (List Subscriber)
confirm now hash rows = elim (find_row (can_confirm now hash) rows) [
  | none ↦ err bad_token
  | some _ ↦ ok (update_rows (can_confirm now hash) confirm_row rows)
]

-- UnsubscribeByToken and Unsubscribe, which succeeds for unknown tokens too.
unfoldable pub can_unsubscribe : Text → Subscriber → Bool
can_unsubscribe hash s = has_hash hash s.unsubscribe_token_hash && not (is_unsubscribed s.status)

unfoldable pub unsubscribe_row : Subscriber → Subscriber
unsubscribe_row s = record s {
  status = unsubscribed;
  confirm_token_hash = none;
  confirm_expires_at = none;
}

unfoldable pub unsubscribe : Text → List Subscriber → List Subscriber
unsubscribe hash = update_rows (can_unsubscribe hash) unsubscribe_row

-- ClaimConfirmationSend: a row whose last link is older than the cooldown, or that has none.
unfoldable pub can_claim : ℕ → ℕ → Subscriber → Bool
can_claim now id s = s.id == id && is_unconfirmed s.status && elim s.confirm_expires_at [
  | none ↦ true
  | some at ↦ ltb at (now + (confirm_ttl - resend_cooldown))
]

unfoldable pub claim_send : ℕ → Subscriber → Subscriber
claim_send now s = record s { confirm_expires_at = some (now + confirm_ttl) }

-- The transaction of Subscribe; the flag says whether a confirmation e-mail is enqueued.
unfoldable pub subscribe : ℕ → ℕ → Text → List Subscriber → List Subscriber × Bool
subscribe now id email rows =
    let rows' = upsert id email rows in
    elim (find_row (λ s. text_eq s.email email) rows') [
      | none ↦ (rows', false)
      | some s ↦
          if not (is_unconfirmed s.status) || count_rows (can_claim now s.id) rows' == 0
          then (rows', false)
          else (update_rows (can_claim now s.id) (claim_send now) rows', true)
    ]

-- IssueSubscriberTokens, which SendConfirmationJob calls; nothing is sent if no row is pending.
unfoldable pub can_issue : ℕ → Subscriber → Bool
can_issue id s = s.id == id && is_unconfirmed s.status

unfoldable pub issue_tokens : ℕ → ℕ → Text → Text → List Subscriber → List Subscriber × Bool
issue_tokens now id confirm_hash unsubscribe_hash rows = (
  update_rows (can_issue id)
      (λ s. record s {
        confirm_token_hash = some confirm_hash;
        confirm_expires_at = some (now + confirm_ttl);
        unsubscribe_token_hash = some unsubscribe_hash;
      })
      rows,
  not (count_rows (can_issue id) rows == 0),
)
