-- ===== src/Service/Links.antt =====
-- internal/service/subscribers.go: what the links of a confirmation e-mail can and cannot do.
use khans_bike.Common.{
  ℕ, ◌≤◌, ◌≡◌, refl, Bool, true, false, not, ◌&&◌, ◌||◌, ◌==◌, none, some, List, [], ◌∷◌, arith,
  Result, ltb, count_rows, All, Bool-cases, Option-cases, inl, inr, ok, err, find_row, update_rows,
  update_rows-All, find_row-none, All-pure,
}
use khans_bike.Common.Text.{Text, text_eq}
use khans_bike.Service.Subscribers.{
  Subscriber, SubscriberStatus, unconfirmed, confirmed, unsubscribed, is_unconfirmed,
  is_unsubscribed, has_hash, can_confirm, confirm_row, confirm, can_unsubscribe, unsubscribe_row,
  unsubscribe, bad_token, LinkError, subscribe, issue_tokens, can_issue, upsert, sign_up_again,
  can_claim, claim_send,
}

confirm_lem :
    (now : ℕ) (hash : Text) (rows rows' : List Subscriber)
    → confirm now hash rows ≡ ok rows'
    → rows' ≡ update_rows (can_confirm now hash) confirm_row rows
unfolding confirm
confirm_lem now hash rows rows' e = elim (Option-cases (find_row (can_confirm now hash) rows)) [
  | inl missing ↦ ground arith
  | inr (s, hit) ↦ ground arith
]

-- A row that holds the hash of a confirmation token.
abbrev pub holds : Text → Subscriber → Bool
holds hash s = has_hash hash s.confirm_token_hash

-- What happens on the list: a sign-up, tokens issued by the job, and the two links.
pub data ListOp : Type 0 where
  signed_up : ℕ → ℕ → Text → ListOp
  tokens_issued : ℕ → ℕ → Text → Text → ListOp
  link_confirmed : ℕ → Text → ListOp
  link_left : Text → ListOp

-- A link that does not work changes nothing.
abbrev pub confirmed_or : List Subscriber → Result LinkError (List Subscriber) → List Subscriber
confirmed_or rows (ok rows') = rows'
confirmed_or rows (err _) = rows

unfoldable pub on_list : ListOp → List Subscriber → List Subscriber
on_list (signed_up now id email) rows = (subscribe now id email rows).0
on_list (tokens_issued now id confirm_hash unsubscribe_hash) rows =
    (issue_tokens now id confirm_hash unsubscribe_hash rows).0
on_list (link_confirmed now hash) rows = confirmed_or rows (confirm now hash rows)
on_list (link_left hash) rows = unsubscribe hash rows

unfoldable pub history : List ListOp → List Subscriber → List Subscriber
history [] rows = rows
history (op ∷ ops) rows = history ops (on_list op rows)

-- The tokens that are issued have other hashes.
abbrev pub IssuesOther : Text → ListOp → Type 0
IssuesOther hash (tokens_issued now id confirm_hash unsubscribe_hash) =
    text_eq confirm_hash hash ≡ false
IssuesOther hash _ = Unit {0}

module _ (hash : Text) where
  abbrev IsGone : List Subscriber → Type 0
  IsGone rows = All (λ s. holds hash s ≡ false) rows

  -- An update whose rows do not hold the hash.
  updated-IsGone :
      (p : Subscriber → Bool) (f : Subscriber → Subscriber)
      → ((s : Subscriber) → holds hash s ≡ false → holds hash (f s) ≡ false)
      → (rows : List Subscriber) → IsGone rows
      → IsGone (update_rows p f rows)
  updated-IsGone p f keeps rows gone =
      update_rows-All (λ s. holds hash s ≡ false) (λ s. holds hash s ≡ false) p f rows
        (λ s h _. keeps s h) (λ s h _. h) gone

  upsert-IsGone :
      (id : ℕ) (email : Text) (rows : List Subscriber) → IsGone rows → IsGone (upsert id email rows)
  unfolding upsert sign_up_again
  upsert-IsGone id email rows gone =
      elim (Bool-cases (ltb 0 (count_rows (λ s. text_eq s.email email) rows))) [
        | inl known ↦
            rw known
              (updated-IsGone (λ s. text_eq s.email email) sign_up_again (λ s h. h) rows gone)
        | inr unknown ↦ rw unknown (refl, gone)
      ]

  subscribe-IsGone :
      (now id : ℕ) (email : Text) (rows : List Subscriber)
      → IsGone rows
      → IsGone (subscribe now id email rows).0
  unfolding subscribe claim_send
  subscribe-IsGone now id email rows gone =
      let rows' = upsert id email rows in
      let kept = upsert-IsGone id email rows gone in
      elim (Option-cases (find_row (λ s. text_eq s.email email) rows')) [
        | inl missing ↦ rw (subscribe, missing) kept
        | inr (s, hit) ↦
            elim (Bool-cases
              (not (is_unconfirmed s.status) || count_rows (can_claim now s.id) rows' == 0)) [
                | inl idle ↦ rw (subscribe, hit, idle) kept
                | inr sends ↦
                    rw (subscribe, hit, sends)
                      (updated-IsGone (can_claim now s.id) (claim_send now) (λ s h. h) rows' kept)
              ]
      ]

  confirm-IsGone :
      (now : ℕ) (other : Text) (rows : List Subscriber)
      → IsGone rows
      → IsGone (confirmed_or rows (confirm now other rows))
  unfolding confirm confirm_row
  confirm-IsGone now other rows gone = elim (Option-cases (find_row (can_confirm now other) rows)) [
    | inl missing ↦ rw (confirm, missing) gone
    | inr (s, hit) ↦
        rw (confirm, hit)
          (updated-IsGone (can_confirm now other) confirm_row (λ s h. refl) rows gone)
  ]

  history-IsGone :
      (ops : List ListOp) (rows : List Subscriber)
      → All (IssuesOther hash) ops
      → IsGone rows
      → IsGone (history ops rows)
  unfolding history on_list issue_tokens unsubscribe unsubscribe_row
  history-IsGone [] rows other gone = gone
  history-IsGone (signed_up now id email ∷ ops) rows (_, other) gone =
      history-IsGone ops _ other (subscribe-IsGone now id email rows gone)
  history-IsGone (tokens_issued now id confirm_hash unsubscribe_hash ∷ ops) rows (new, other) gone =
      history-IsGone ops _ other (updated-IsGone (can_issue id) _ (λ s h. new) rows gone)
  history-IsGone (link_confirmed now token ∷ ops) rows (_, other) gone =
      history-IsGone ops _ other (confirm-IsGone now token rows gone)
  history-IsGone (link_left token ∷ ops) rows (_, other) gone =
      history-IsGone ops _ other
        (updated-IsGone (can_unsubscribe token) unsubscribe_row (λ s h. refl) rows gone)

  none_holds : (rows : List Subscriber) → count_rows (holds hash) rows ≡ 0 → IsGone rows
  none_holds [] h = tt
  none_holds (s ∷ rows) h = elim (Bool-cases (holds hash s)) [
    | inl y ↦ absurd (ground (arith, h, y))
    | inr n ↦ (n, none_holds rows (ground (arith, h, n)))
  ]

  confirmable_holds :
      (now : ℕ) (s : Subscriber) → holds hash s ≡ false → can_confirm now hash s ≡ false
  unfolding can_confirm
  confirmable_holds now s h = rw h refl

  -- The confirmation clears the one row that holds the hash.
  confirmed-IsGone :
      (now : ℕ) (rows : List Subscriber) (found : Subscriber)
      → find_row (can_confirm now hash) rows ≡ some found
      → count_rows (holds hash) rows ≤ 1
      → IsGone (update_rows (can_confirm now hash) confirm_row rows)
  unfolding confirm_row
  confirmed-IsGone now [] found h one = cc
  confirmed-IsGone now (s ∷ rows) found h one =
      let rest = find_row (can_confirm now hash) rows in
      elim (Bool-cases (holds hash s)) [
        | inl holder ↦
            let alone = none_holds rows (ground (arith, one, holder)) in
            elim (Bool-cases (can_confirm now hash s)) [
              | inl y ↦
                  rw y (
                    refl,
                    updated-IsGone (can_confirm now hash) confirm_row (λ s h. refl) rows alone,
                  )
              | inr n ↦
                  let missing : rest ≡ none =
                    find_row-none (λ r. holds hash r ≡ false) (can_confirm now hash) rows
                      (confirmable_holds now) alone in
                  cc (h, n, missing)
            ]
        | inr other ↦
            let n = confirmable_holds now s other in
            rw n (other, confirmed-IsGone now rows found (rw n at h) (ground (arith, one, other)))
      ]

-- A confirmation link works once. The hashes of confirmation tokens are unique in the table, and the
-- tokens that are issued later have other hashes: after a confirmation that succeeds, and whatever
-- sign-ups, issued tokens, confirmations and unsubscriptions follow, no row holds the hash of the token
-- and no confirmation with it succeeds.
pub confirm-once :
    (now later : ℕ) (hash : Text) (rows rows' : List Subscriber) (ops : List ListOp)
    → count_rows (holds hash) rows ≤ 1
    → confirm now hash rows ≡ ok rows'
    → All (IssuesOther hash) ops
    → All (λ s. holds hash s ≡ false) (history ops rows')
      × (confirm later hash (history ops rows') ≡ err bad_token)
unfolding confirm
confirm-once now later hash rows rows' ops one e other =
    elim (Option-cases (find_row (can_confirm now hash) rows)) [
      | inl missing ↦ cc (rw (confirm, missing) at e)
      | inr (s, hit) ↦
          let gone =
            history-IsGone hash ops rows' other
              (rw (confirm_lem now hash rows rows' e) (confirmed-IsGone hash now rows s hit one)) in
          let missing =
            find_row-none (λ r. holds hash r ≡ false) (can_confirm later hash) (history ops rows')
              (confirmable_holds hash later) gone in
          (gone, rw (confirm, missing) refl)
    ]

unsubscribed_row : (hash : Text) (s : Subscriber) → can_unsubscribe hash (unsubscribe_row s) ≡ false
unfolding can_unsubscribe unsubscribe_row
unsubscribed_row hash s = ground arith

confirm_keeps :
    (now : ℕ) (token hash : Text) (s : Subscriber)
    → can_unsubscribe hash s ≡ false
    → can_confirm now token s ≡ true
    → can_unsubscribe hash (confirm_row s) ≡ false
unfolding can_unsubscribe can_confirm confirm_row
confirm_keeps now token hash s h c = by_status s.status h (unconfirmed_of now token s c)
  where
    unconfirmed_of :
        (now : ℕ) (token : Text) (s : Subscriber)
        → can_confirm now token s ≡ true
        → is_unconfirmed s.status ≡ true
    unconfirmed_of now token s c = ground arith

    by_status :
        (t : SubscriberStatus)
        → (has_hash hash s.unsubscribe_token_hash && not (is_unsubscribed t)) ≡ false
        → is_unconfirmed t ≡ true
        → (has_hash hash s.unsubscribe_token_hash && true) ≡ false
    by_status unconfirmed h k = h
    by_status confirmed h k = cc
    by_status unsubscribed h k = cc

-- After an unsubscribe link was used, no confirmation link of any e-mail puts an address with that
-- unsubscribe link back on the list.
pub unsubscribe-confirm :
    (now : ℕ) (hash token : Text) (rows rows' : List Subscriber)
    → confirm now token (unsubscribe hash rows) ≡ ok rows'
    → All (λ s. can_unsubscribe hash s ≡ false) rows'
unfolding unsubscribe
unsubscribe-confirm now hash token rows rows' e =
    let off =
      update_rows-All (λ s. can_unsubscribe hash s ≡ false) (λ _. Unit {0}) (can_unsubscribe hash)
        unsubscribe_row rows (λ s _ _. unsubscribed_row hash s) (λ s _ h. h)
        (All-pure (λ _. Unit {0}) (λ _. tt) rows) in
    rw (confirm_lem now token (update_rows (can_unsubscribe hash) unsubscribe_row rows) rows' e) (
      update_rows-All (λ s. can_unsubscribe hash s ≡ false) (λ s. can_unsubscribe hash s ≡ false)
        (can_confirm now token) confirm_row _ (λ s h c. confirm_keeps now token hash s h c)
        (λ s h _. h) off)
