-- ===== src/Schema/Values/Tokens.antt =====
-- internal/service/schema.go: the tokens of a multi_enum value, read and rendered.
use khans_bike.Common.{
  ℕ, [], ◌∷◌, ◌++◌, List, Bool, true, false, ◌||◌, ◌==◌, some, if◌then◌else◌, ok, ◌≡◌, refl, sym,
  ap, ◌∙◌, inl, inr, arith, Bool-cases, Option-cases, ok-injective, All, All-imp, find_row-All,
  ==_refl, ==→eq,
}
use khans_bike.Common.Text.{Text, text_eq, text_eq→eq}
use khans_bike.Schema.Attributes.{AttributeOption, no_options}
use khans_bike.Schema.Values.{option_by_value, option_by_id, contains_id, add_tokens, tokens_of}

-- Options are found by their ids and by their tokens.
abbrev pub HasOwnIds : List AttributeOption → Type 0
HasOwnIds options = All (λ o. option_by_id options o.id ≡ some o) options

abbrev pub HasOwnTokens : List AttributeOption → Type 0
HasOwnTokens options = All (λ o. option_by_value options o.value ≡ some o) options

-- An option found by a token has it, and is found by its id.
pub by_value :
    (options : List AttributeOption) (s : Text) (o : AttributeOption)
    → HasOwnIds options
    → option_by_value options s ≡ some o
    → (o.value ≡ s) × (option_by_id options o.id ≡ some o)
unfolding option_by_value
by_value options s o own h =
    let (hit, by_id) =
      find_row-All (λ x. option_by_id options x.id ≡ some x) (λ x. text_eq x.value s) options o own
        h in
    (text_eq→eq o.value s hit, by_id)

contains_id-append :
    (xs ys : List ℕ) (k : ℕ) → contains_id (xs ++ ys) k ≡ (contains_id xs k || contains_id ys k)
contains_id-append [] ys k = refl
contains_id-append (x ∷ xs) ys k = ground (arith, contains_id-append xs ys k)

-- The ids of the options whose ids are given.
abbrev chosen : List AttributeOption → List ℕ → List ℕ
chosen [] ids = []
chosen (o ∷ options) ids =
    let rest = chosen options ids in if contains_id ids o.id then o.id ∷ rest else rest

-- Every id names an option.
abbrev pub IsOptionId : List AttributeOption → ℕ → Type 0
IsOptionId options id = (o : AttributeOption) × (option_by_id options id ≡ some o)

All-snoc :
    (options : List AttributeOption) (ids : List ℕ) (id : ℕ)
    → All (IsOptionId options) ids
    → IsOptionId options id
    → All (IsOptionId options) (ids ++ id ∷ [])
All-snoc options [] id h last = (last, tt)
All-snoc options (i ∷ ids) id (first, h) last = (first, All-snoc options ids id h last)

add_tokens-IsOptionId :
    (options : List AttributeOption) (vals : List Text) (ids ids' : List ℕ)
    → HasOwnIds options
    → All (IsOptionId options) ids
    → add_tokens options vals ids ≡ ok ids'
    → All (IsOptionId options) ids'
unfolding add_tokens
add_tokens-IsOptionId options [] ids ids' own fine h = let same = ok-injective h in rw⁻¹ same fine
add_tokens-IsOptionId options (s ∷ vals) ids ids' own fine h =
    elim (Option-cases (option_by_value options s)) [
      | inl bad ↦ ground arith
      | inr (o, found) ↦
          let by_id = (by_value options s o own found).1 in
          elim (Bool-cases (contains_id ids o.id)) [
            | inl y ↦ add_tokens-IsOptionId options vals ids ids' own fine (ground arith)
            | inr n ↦
                add_tokens-IsOptionId options vals (ids ++ o.id ∷ []) ids' own
                  (All-snoc options ids o.id fine (o, by_id)) (ground arith)
          ]
    ]

-- Reading the tokens that are rendered for some of the options: the ids read are those and no others.
abbrev SameIds : List ℕ → List ℕ → List ℕ → Type 0
SameIds r acc more = (k : ℕ) → contains_id r k ≡ (contains_id acc k || contains_id more k)

or_assoc : (a b c : Bool) → (a || (b || false) || c) ≡ (a || (b || c))
or_assoc a b c = ground arith

known_once :
    (acc more : List ℕ) (id k : ℕ)
    → contains_id acc id ≡ true
    → (contains_id acc k || contains_id more k) ≡ (contains_id acc k || contains_id (id ∷ more) k)
known_once acc more id k h = elim (Bool-cases (id == k)) [
  | inr n ↦ rw n refl
  | inl y ↦
      let known : contains_id acc k ≡ true = ap (contains_id acc) (sym (==→eq id k y)) ∙ h in
      rw known refl
]

add_tokens-tokens_of :
    (options os : List AttributeOption) (ids acc : List ℕ)
    → All (λ o. option_by_value options o.value ≡ some o) os
    → (r : List ℕ) × (add_tokens options (tokens_of os ids) acc ≡ ok r)
      × SameIds r acc (chosen os ids)
unfolding add_tokens tokens_of
add_tokens-tokens_of options [] ids acc own = (acc, refl, λ k. ground arith)
add_tokens-tokens_of options (o ∷ os) ids acc (own, owns) =
    elim (Bool-cases (contains_id ids o.id)) [
      | inr n ↦
          let (r, read, same) = add_tokens-tokens_of options os ids acc owns in
          (r, rw n read, λ k. same k ∙ rw n refl)
      | inl y ↦ elim (Bool-cases (contains_id acc o.id)) [
        | inl known ↦
            let (r, read, same) = add_tokens-tokens_of options os ids acc owns in
            (
              r,
              rw (y, own, known) read,
              λ k. same k ∙ rw y (known_once acc (chosen os ids) o.id k known),
            )
        | inr new ↦
            let (r, read, same) = add_tokens-tokens_of options os ids (acc ++ o.id ∷ []) owns in
            (
              r,
              rw (y, own, new) read,
              λ k.
                  let added = contains_id-append acc (o.id ∷ []) k in
                  same k
                  ∙ rw (y, added)
                      (or_assoc (contains_id acc k) (o.id == k) (contains_id (chosen os ids) k)),
            )
      ]
    ]

chosen-All :
    (os : List AttributeOption) (ids : List ℕ)
    → All (λ o. contains_id ids o.id ≡ true → contains_id (chosen os ids) o.id ≡ true) os
chosen-All [] ids = tt
chosen-All (o ∷ os) ids = (
  λ h. rw h (rw (==_refl o.id) refl),
  All-imp (λ x. contains_id ids x.id ≡ true → contains_id (chosen os ids) x.id ≡ true)
      (λ x. contains_id ids x.id ≡ true → contains_id (chosen (o ∷ os) ids) x.id ≡ true)
      (λ x h k. more x (contains_id ids o.id) (h k)) os (chosen-All os ids),
)
  where
    more :
        (x : AttributeOption) (b : Bool)
        → contains_id (chosen os ids) x.id ≡ true
        → contains_id (if b then o.id ∷ chosen os ids else chosen os ids) x.id ≡ true
    more x true h = ground arith
    more x false h = h

chosen-only :
    (os : List AttributeOption) (ids : List ℕ) (k : ℕ)
    → contains_id (chosen os ids) k ≡ true
    → contains_id ids k ≡ true
chosen-only [] ids k h = cc
chosen-only (o ∷ os) ids k h = elim (Bool-cases (contains_id ids o.id)) [
  | inr n ↦ chosen-only os ids k (ground arith)
  | inl y ↦ elim (Bool-cases (o.id == k)) [
    | inl e ↦ ap (contains_id ids) (sym (==→eq o.id k e)) ∙ y
    | inr ne ↦ chosen-only os ids k (ground arith)
  ]
]

tokens_of-same :
    (os : List AttributeOption) (ids ids' : List ℕ)
    → All (λ o. contains_id ids' o.id ≡ contains_id ids o.id) os
    → tokens_of os ids' ≡ tokens_of os ids
unfolding tokens_of
tokens_of-same [] ids ids' h = refl
tokens_of-same (o ∷ os) ids ids' (first, h) = rw (first, tokens_of-same os ids ids' h) refl

iff_same : (a b : Bool) → (b ≡ true → a ≡ true) → (a ≡ true → b ≡ true) → a ≡ b
iff_same true b f g = sym (g refl)
iff_same false true f g = f refl
iff_same false false f g = refl

-- Ids that were read from tokens are rendered as tokens that read as the same set of ids.
pub tokens_again :
    (options : List AttributeOption) (vals : List Text) (ids : List ℕ)
    → HasOwnIds options
    → HasOwnTokens options
    → add_tokens options vals [] ≡ ok ids
    → no_options ids ≡ false
    → (r : List ℕ) × (add_tokens options (tokens_of options ids) [] ≡ ok r)
      × (no_options r ≡ false)
      × (tokens_of options r ≡ tokens_of options ids)
tokens_again options vals ids own tokens read filled =
    let (r, again, same) = add_tokens-tokens_of options options ids [] tokens in
    let agree =
      All-imp (λ o. contains_id ids o.id ≡ true → contains_id (chosen options ids) o.id ≡ true)
        (λ o. contains_id r o.id ≡ contains_id ids o.id)
        (λ o h.
          iff_same _ _ (λ k. same o.id ∙ h k)
            (λ k. chosen-only options ids o.id (sym (same o.id) ∙ k)))
        options (chosen-All options ids) in
    (
      r,
      again,
      some_id options ids r filled (add_tokens-IsOptionId options vals [] ids own tt read) agree,
      tokens_of-same options ids r agree,
    )
  where
    holds : (r : List ℕ) (k : ℕ) → contains_id r k ≡ true → no_options r ≡ false
    holds [] k h = cc
    holds (x ∷ r) k h = refl

    some_id :
        (options : List AttributeOption) (ids r : List ℕ)
        → no_options ids ≡ false
        → All (IsOptionId options) ids
        → All (λ o. contains_id r o.id ≡ contains_id ids o.id) options
        → no_options r ≡ false
    some_id options [] r filled fine agree = cc
    some_id options (i ∷ ids) r filled ((o, at), fine) agree =
        let (is_i, there) =
          find_row-All (λ o. contains_id r o.id ≡ contains_id (i ∷ ids) o.id) (λ x. x.id == i)
            options o agree (unfold option_by_id in at) in
        holds r o.id (there ∙ rw (==→eq o.id i is_i) (rw (==_refl i) refl))
