-- ===== src/Platform/Slug/Shape.antt =====
-- internal/platform/slug.go: the shape of a slug, against the pattern of internal/service/common.go,
-- ^[a-z0-9]+(?:-[a-z0-9]+)*$, read as an automaton.
use khans_bike.Common.{
  Option-cases, ℕ, ◌+◌, ◌≡◌, ◌≢◌, refl, ◌⊎◌, inl, inr, [], ◌∷◌, ◌++◌, Bool, true, false, Option,
  some, arith, if◌then◌else◌, append-nil, append_assoc, sym,
}
use khans_bike.Common.Text.{Text, trim_left, trim_right, trim_func, cons_kept}
use khans_bike.Platform.Slug.{is_hyphen, is_slug_char, slug_round, write_slug, sanitise, slugify}

pub data SlugState : Type 0 where
  start word dash fail : SlugState

abbrev pub slug_step : SlugState → ℕ → SlugState
slug_step start c = if is_slug_char c then word else fail
slug_step word c = if is_slug_char c then word else if is_hyphen c then dash else fail
slug_step dash c = if is_slug_char c then word else fail
slug_step fail c = fail

abbrev pub slug_run : SlugState → Text → SlugState
slug_run q [] = q
slug_run q (c ∷ s) = slug_run (slug_step q c) s

abbrev is_word : SlugState → Bool
is_word word = true
is_word _ = false

-- slugPattern.MatchString.
unfoldable pub matches_slug : Text → Bool
matches_slug s = is_word (slug_run start s)

-- The state that the builder's text leads to.
abbrev state_of : Text → Bool → SlugState
state_of [] _ = start
state_of (_ ∷ _) true = dash
state_of (_ ∷ _) false = word

slug_run-append : (q : SlugState) (s t : Text) → slug_run q (s ++ t) ≡ slug_run (slug_run q s) t
slug_run-append q [] t = refl
slug_run-append q (c ∷ s) t = slug_run-append (slug_step q c) s t

cons_kept-word :
    (q : SlugState) (c : ℕ) (s : Text) → slug_run q (c ∷ s) ≡ word → cons_kept is_hyphen c s ≡ c ∷ s
cons_kept-word start c [] h = ground arith
cons_kept-word word c [] h = ground arith
cons_kept-word dash c [] h = ground arith
cons_kept-word fail c [] h = cc
cons_kept-word q c (d ∷ s) h = refl

fail_stays : (s : Text) → slug_run fail s ≡ fail
fail_stays [] = refl
fail_stays (d ∷ s) = fail_stays s

trim_right-word : (q : SlugState) (s : Text) → slug_run q s ≡ word → trim_right is_hyphen s ≡ s
trim_right-word q [] h = refl
trim_right-word q (c ∷ s) h = rw (trim_right-word (slug_step q c) s h) (cons_kept-word q c s h)

trim_left-start : (s : Text) → slug_run start s ≢ fail → trim_left is_hyphen s ≡ s
trim_left-start [] h = refl
trim_left-start (c ∷ s) h = ground (arith, fail_stays s)

-- A hyphen at the end goes, and what is left is a slug.
cons_kept-dash :
    (q : SlugState) (c : ℕ) (t : Text)
    → (slug_run (slug_step q c) t ≡ word) ⊎ (slug_step q c ≡ dash) × (t ≡ [])
    → (slug_run q (cons_kept is_hyphen c t) ≡ word) ⊎ (q ≡ dash) × (cons_kept is_hyphen c t ≡ [])
cons_kept-dash q c (d ∷ t) (inl h) = inl h
cons_kept-dash q c (d ∷ t) (inr h) = ground arith
cons_kept-dash start c [] h = ground arith
cons_kept-dash word c [] h = ground arith
cons_kept-dash dash c [] h = ground arith
cons_kept-dash fail c [] h = ground arith

trim_right-dash :
    (q : SlugState) (s : Text)
    → slug_run q s ≡ dash
    → (slug_run q (trim_right is_hyphen s) ≡ word) ⊎ (q ≡ dash) × (trim_right is_hyphen s ≡ [])
trim_right-dash q [] h = inr (h, refl)
trim_right-dash q (c ∷ s) h = cons_kept-dash q c _ (trim_right-dash (slug_step q c) s h)

-- The loop keeps the text's state in step with `prevHyphen`.
slug_round-state :
    (r : ℕ) (out : Text) (prev : Bool)
    → slug_run start out ≡ state_of out prev
    → let (out', prev') = slug_round r out prev in slug_run start out' ≡ state_of out' prev'
unfolding slug_round
slug_round-state r [] prev h = ground arith
slug_round-state r (c ∷ out) prev h = ground (
  arith,
  slug_run-append start (c ∷ out) ((r + 32) ∷ []),
  slug_run-append start (c ∷ out) (r ∷ []),
  slug_run-append start (c ∷ out) (b'-' ∷ []),
)

write_slug-state :
    (s out : Text) (prev : Bool)
    → slug_run start out ≡ state_of out prev
    → (p : Bool) × (slug_run start (write_slug s (out, prev))
        ≡ state_of (write_slug s (out, prev)) p)
unfolding write_slug
write_slug-state [] out prev h = (prev, h)
write_slug-state (r ∷ s) out prev h =
    let (out', prev') = slug_round r out prev in
    write_slug-state s out' prev' (slug_round-state r out prev h)

trim-state :
    (out : Text) (p : Bool)
    → slug_run start out ≡ state_of out p
    → (trim_func is_hyphen out ≡ []) ⊎ (slug_run start (trim_func is_hyphen out) ≡ word)
trim-state [] p h = inl refl
trim-state (c ∷ out) false h =
    inr (rw (trim_left-start (c ∷ out) (λ e. cc), trim_right-word start (c ∷ out) h) h)
trim-state (c ∷ out) true h =
    rw (trim_left-start (c ∷ out) (λ e. cc)) (from_dash (trim_right-dash start (c ∷ out) h))
  where
    from_dash :
        (slug_run start (trim_right is_hyphen (c ∷ out)) ≡ word)
          ⊎ (start ≡ dash) × (trim_right is_hyphen (c ∷ out) ≡ [])
        → (trim_right is_hyphen (c ∷ out) ≡ [])
          ⊎ (slug_run start (trim_right is_hyphen (c ∷ out)) ≡ word)
    from_dash (inl e) = inr e
    from_dash (inr e) = inl e.1

-- Writing a slug behind the builder's text copies it.
write_slug-slug :
    (s out : Text) (prev : Bool)
    → slug_run (state_of out prev) s ≡ word
    → write_slug s (out, prev) ≡ out ++ s
unfolding write_slug slug_round
write_slug-slug [] out prev h = sym (append-nil out)
write_slug-slug (c ∷ s) [] prev h = ground (arith, fail_stays s, write_slug-slug s (c ∷ []) false)
write_slug-slug (c ∷ s) (d ∷ out) prev h = ground (
  arith,
  fail_stays s,
  write_slug-slug s (d ∷ out ++ c ∷ []) false,
  write_slug-slug s (d ∷ out ++ c ∷ []) true,
  append_assoc (d ∷ out) (c ∷ []) s,
)

-- A slug is the empty text or matches the pattern.
abbrev pub IsSlug : Text → Type 0
IsSlug s = (s ≡ []) ⊎ (matches_slug s ≡ true)

word→matches : (s : Text) → slug_run start s ≡ word → matches_slug s ≡ true
unfolding matches_slug
word→matches s h = ground arith

matches→word : (s : Text) → matches_slug s ≡ true → slug_run start s ≡ word
unfolding matches_slug
matches→word s h = ground arith

pub sanitise-IsSlug : (s : Text) → IsSlug (sanitise s)
unfolding sanitise
sanitise-IsSlug s =
    let (p, h) = write_slug-state s [] false refl in
    elim (trim-state (write_slug s ([], false)) p h) [
      | inl e ↦ inl e
      | inr e ↦ inr (word→matches _ e)
    ]

pub sanitise-slug : (s : Text) → IsSlug s → sanitise s ≡ s
unfolding sanitise
sanitise-slug s (inl e) = rw e (unfold write_slug in refl)
sanitise-slug s (inr e) =
    let h = matches→word s e in
    rw (write_slug-slug s [] false h, trim_left-start s (λ k. cc)) (trim_right-word start s h)

module _ (fold : Text → Option Text) where
  -- Whatever the transform does, a slug is empty or lowercase ASCII words and digits with single
  -- hyphens between them.
  pub slugify-IsSlug : (s : Text) → IsSlug (slugify fold s)
  unfolding slugify
  slugify-IsSlug s = elim (Option-cases (fold s)) [
    | inl e ↦ rw (e, slugify) (sanitise-IsSlug s)
    | inr (t, e) ↦ rw (e, slugify) (sanitise-IsSlug t)
  ]

  slugify_plain : (s : Text) → fold s ≡ some s → IsSlug s → slugify fold s ≡ s
  unfolding slugify
  slugify_plain s e h = rw (e, slugify) (sanitise-slug s h)

  -- Slugify is idempotent, given that the transform leaves plain ASCII slugs as they are.
  pub slugify-slugify :
      ((s : Text) → matches_slug s ≡ true → fold s ≡ some s)
      → fold [] ≡ some []
      → (s : Text) → slugify fold (slugify fold s) ≡ slugify fold s
  slugify-slugify plain empty s = elim (slugify-IsSlug s) [
    | inl e ↦ slugify_plain _ (rw e empty) (inl e)
    | inr m ↦ slugify_plain _ (plain _ m) (inr m)
  ]
