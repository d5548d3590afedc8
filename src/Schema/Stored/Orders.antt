-- ===== src/Schema/Stored/Orders.antt =====
-- internal/service/schema.go: the order in which the database answers with the rows of a value, and
-- what does not depend on it.
use mathlib.Core.Path.{subst}
use mathlib.Core.List.{Permᴰ}
use mathlib.Core.List.Permᴰ.{nil, cons, swap, trans, append_left, append_right, append_comm}
use khans_bike.Common.{
  ℕ, [], ◌∷◌, ◌++◌, List, Bool, true, ◌==◌, ◌≡◌, refl, sym, ap, ◌∙◌, inl, inr, arith, if◌then◌else◌,
  any, All, Bool-cases, append_assoc, length, suc, ==→eq, ==_refl,
}
use khans_bike.Schema.Attributes.{
  DataType, text, number, number_range, boolean, enum, multi_enum, color, other_type,
  AttributeOption, AttributeValue, Floats,
}
use khans_bike.Schema.Values.{
  api_value, single_token, token_of, tokens_of, contains_id, list_value, option_by_id,
}
use khans_bike.Schema.Stored.{is_key}
use khans_bike.Schema.Stored.Keys.{ids_at}

module _ {A : Type 0} where
  pub any-perm : (p : A → Bool) {xs ys : List A} → Permᴰ xs ys → any p xs ≡ any p ys
  any-perm p nil = refl
  any-perm p (cons same rest) = ground (arith, ap p same, any-perm p rest)
  any-perm p (swap same same') = ground (arith, ap p same, ap p same')
  any-perm p (trans first second) = any-perm p first ∙ any-perm p second

  pub All-perm : (P : A → Type 0) {xs ys : List A} → Permᴰ xs ys → All P xs → All P ys
  All-perm P nil h = tt
  All-perm P (cons same rest) (px, h) = (subst P same px, All-perm P rest h)
  All-perm P (swap same same') (px, (py, h)) = (subst P same' py, (subst P same px, h))
  All-perm P (trans first second) h = All-perm P second (All-perm P first h)

  length-perm : {xs ys : List A} → Permᴰ xs ys → length xs ≡ length ys
  length-perm nil = refl
  length-perm (cons same rest) = ap suc (length-perm rest)
  length-perm (swap same same') = refl
  length-perm (trans first second) = length-perm first ∙ length-perm second

  append_swap : (xs ys zs : List A) → Permᴰ (xs ++ (ys ++ zs)) (ys ++ (xs ++ zs))
  append_swap xs ys zs =
      subst (λ l. Permᴰ l (ys ++ (xs ++ zs))) (append_assoc xs ys zs)
        (subst (Permᴰ ((xs ++ ys) ++ zs)) (append_assoc ys xs zs)
          (append_right zs (append_comm xs ys)))

module _ {F : Type 0} (attr variant : ℕ) where
  abbrev own_ids : AttributeValue F → List ℕ
  own_ids r = if is_key attr variant r then r.option_ids else []

  ids_at-cons :
      (r : AttributeValue F) (rows : List (AttributeValue F))
      → ids_at attr variant (r ∷ rows) ≡ own_ids r ++ ids_at attr variant rows
  ids_at-cons r rows = elim (Bool-cases (is_key attr variant r)) [
    | inl hit ↦ rw hit refl
    | inr miss ↦ rw miss refl
  ]

  -- The options of a key, up to their order.
  pub ids_at-perm :
      {xs ys : List (AttributeValue F)}
      → Permᴰ xs ys
      → Permᴰ (ids_at attr variant xs) (ids_at attr variant ys)
  ids_at-perm nil = nil
  ids_at-perm (cons {a = a} {b = b} {l₁ = xs} {l₂ = ys} same rest) =
      rw (ids_at-cons a xs, ids_at-cons b ys, same) (append_left (own_ids b) (ids_at-perm rest))
  ids_at-perm (swap {a = a} {b = b} {a' = a'} {b' = b'} {l = l} same same') =
      rw
        (
          ids_at-cons a (b ∷ l),
          ids_at-cons b l,
          ids_at-cons a' (b' ∷ l),
          ids_at-cons b' l,
          same,
          same',
        )
        (append_swap (own_ids b') (own_ids a') (ids_at attr variant l))
  ids_at-perm (trans first second) = trans (ids_at-perm first) (ids_at-perm second)

-- What apiValue makes of the options does not depend on their order.
tokens_of-any :
    (options : List AttributeOption) (ids ids' : List ℕ)
    → ((id : ℕ) → contains_id ids id ≡ contains_id ids' id)
    → tokens_of options ids ≡ tokens_of options ids'
unfolding tokens_of
tokens_of-any [] ids ids' same = refl
tokens_of-any (o ∷ options) ids ids' same = rw (same o.id, tokens_of-any options ids ids' same) refl

single_token-perm :
    {F : Type 0} (options : List AttributeOption) (ids ids' : List ℕ)
    → Permᴰ ids ids'
    → single_token {F = F} options ids ≡ single_token options ids'
unfolding single_token
single_token-perm options [] [] p = refl
single_token-perm options [] (y ∷ ys) p = absurd (omega (arith, length-perm p))
single_token-perm options (x ∷ []) [] p = absurd (omega (arith, length-perm p))
single_token-perm options (x ∷ []) (y ∷ []) p =
    let same : (y == x) ≡ true = ground (arith, any-perm (λ k. k == x) p, ==_refl x) in
    ap (λ id. token_of (option_by_id options id)) (sym (==→eq y x same))
single_token-perm options (x ∷ []) (y ∷ z ∷ ys) p = absurd (omega (arith, length-perm p))
single_token-perm options (x ∷ w ∷ xs) [] p = absurd (omega (arith, length-perm p))
single_token-perm options (x ∷ w ∷ xs) (y ∷ []) p = absurd (omega (arith, length-perm p))
single_token-perm options (x ∷ w ∷ xs) (y ∷ z ∷ ys) p = refl

-- A value whose options come in another order is rendered the same.
pub api_value-perm :
    {F : Type 0} (floats : Floats F) (dt : DataType) (options : List AttributeOption)
    → (v : AttributeValue F) (ids : List ℕ) → Permᴰ v.option_ids ids
    → api_value floats dt options (record v { option_ids = ids }) ≡ api_value floats dt options v
unfolding api_value
api_value-perm floats text options v ids p = refl
api_value-perm floats number options v ids p = refl
api_value-perm floats number_range options v ids p = refl
api_value-perm floats boolean options v ids p = refl
api_value-perm floats enum options v ids p = sym (single_token-perm options v.option_ids ids p)
api_value-perm floats color options v ids p = sym (single_token-perm options v.option_ids ids p)
api_value-perm floats multi_enum options v ids p =
    ap list_value (tokens_of-any options ids v.option_ids (λ id. sym (any-perm (λ k. k == id) p)))
api_value-perm floats (other_type _) options v ids p = refl
