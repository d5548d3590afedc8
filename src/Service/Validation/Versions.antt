-- ===== src/Service/Validation/Versions.antt =====
-- internal/service/common.go: ETag and checkIfMatch, the version test of optimistic concurrency.
use khans_bike.Common.{
  ℕ, zero, suc, ◌+◌, ◌-◌, ◌*◌, ◌/◌, ◌%◌, ◌^◌, ◌<◌, ◌≡◌, ◌↔◌, refl, sym, ap, ◌∙◌, [], ◌∷◌, ◌++◌,
  Bool, true, false, not, ◌&&◌, ltb, ◌==◌, arith, if◌then◌else◌, ok, err, all, Bool-cases, inl, inr,
}
use khans_bike.Common.Text.{
  Text, codes, is_empty, any_code, split_on_none, text_eq, text_eq→eq, text_eq_refl, is_space,
  trim_func,
}
use khans_bike.Common.Trim.{keeps, trim_func_id}
use khans_bike.Service.Validation.{
  digit36, digits36, etag, tag_matches, check_if_match, version_mismatch,
}

abbrev value36 : ℕ → Text → ℕ
value36 n [] = n
value36 n (c ∷ s) = value36 (n * 36 + (if ltb c 97 then c - 48 else c - 87)) s

value36-digits36 :
    (fuel n : ℕ) (out : Text) → n < 36 ^ fuel → value36 0 (digits36 fuel n out) ≡ value36 n out
unfolding digits36
value36-digits36 zero n out h = ground arith
value36-digits36 (suc fuel) n out h =
    ground (arith, value36-digits36 fuel (n / 36) (digit36 (n % 36) ∷ out))

-- The characters of a tag: none is space or a comma.
abbrev plain_code : ℕ → Bool
plain_code c = not (is_space c) && not (c == b',')

plain_code-digit36 : (d : ℕ) → d < 36 → plain_code (digit36 d) ≡ true
unfolding is_space
plain_code-digit36 d h = ground arith

plain-digits36 :
    (fuel n : ℕ) (out : Text)
    → all plain_code out ≡ true
    → all plain_code (digits36 fuel n out) ≡ true
unfolding digits36
plain-digits36 zero n out h = h
plain-digits36 (suc fuel) n out h = ground (
  arith,
  plain_code-digit36 n,
  plain_code-digit36 (n % 36),
  plain-digits36 fuel (n / 36) (digit36 (n % 36) ∷ out),
)

plain-append :
    (s t : Text)
    → all plain_code s ≡ true
    → all plain_code t ≡ true
    → all plain_code (s ++ t) ≡ true
plain-append [] t h k = k
plain-append (c ∷ s) t h k = ground (arith, plain-append s t)

plain-etag : (n : ℕ) → all plain_code (etag n) ≡ true
unfolding etag is_space
plain-etag n = plain-append (digits36 13 n []) (b'"' ∷ []) (plain-digits36 13 n [] refl) refl

plain-keeps : (s : Text) → all plain_code s ≡ true → keeps is_space s ≡ true
plain-keeps [] h = refl
plain-keeps (c ∷ s) h = ground (arith, plain-keeps s)

plain_no_comma : (s : Text) → all plain_code s ≡ true → any_code b',' s ≡ false
plain_no_comma [] h = refl
plain_no_comma (c ∷ s) h = ground (arith, plain_no_comma s)

trim_plain : (s : Text) → all plain_code s ≡ true → trim_func is_space s ≡ s
trim_plain s h = trim_func_id is_space s (plain-keeps s h)

value36-append : (n : ℕ) (s t : Text) → value36 n (s ++ t) ≡ value36 (value36 n s) t
value36-append n [] t = refl
value36-append n (c ∷ s) t = value36-append (n * 36 + (if ltb c 97 then c - 48 else c - 87)) s t

value36-etag : (n : ℕ) → n < 2 ^ 63 → value36 0 (etag n) ≡ n * 36
unfolding etag
value36-etag n h =
    let digits = digits36 13 n [] in
    rw (value36-append 0 digits (b'"' ∷ []), value36-digits36 13 n [] (omega arith)) (omega arith)

etag-injective : (a b : ℕ) → a < 2 ^ 63 → b < 2 ^ 63 → etag a ≡ etag b → a ≡ b
etag-injective a b ha hb e =
    let same = sym (value36-etag a ha) ∙ ap (value36 0) e ∙ value36-etag b hb in omega arith

-- A header with one tag.
one_tag :
    (s : Text) (b : ℕ)
    → all plain_code s ≡ true
    → is_empty s ≡ false
    → text_eq s (codes "*") ≡ false
    → check_if_match s b ≡ (if tag_matches (etag b) s then ok tt else err version_mismatch)
unfolding check_if_match
one_tag s b plain some_tag no_star =
    rw (trim_plain s plain, some_tag, no_star, split_on_none b',' s (plain_no_comma s plain))
      (ground arith)

tag_matches-etag :
    (a : ℕ) (current : Text) → tag_matches current (etag a) ≡ text_eq (etag a) current
unfolding tag_matches
tag_matches-etag a current = rw (trim_plain (etag a) (plain-etag a)) (unfold etag in refl)

tag_matches-weak :
    (a : ℕ) (current : Text) → tag_matches current (codes "W/" ++ etag a) ≡ text_eq (etag a) current
unfolding tag_matches
tag_matches-weak a current =
    rw
      (trim_plain (codes "W/" ++ etag a)
        (plain-append (codes "W/") (etag a) (unfold is_space in refl) (plain-etag a)))
      refl

same_version :
    (a b : ℕ) (s : Text)
    → a < 2 ^ 63
    → b < 2 ^ 63
    → check_if_match s b ≡ (if text_eq (etag a) (etag b) then ok tt else err version_mismatch)
    → (check_if_match s b ≡ ok tt) ↔ (a ≡ b)
same_version a b s ha hb h = elim (Bool-cases (text_eq (etag a) (etag b))) [
  | inl yes_ ↦ (λ _. etag-injective a b ha hb (text_eq→eq _ _ yes_), λ _. h ∙ rw yes_ refl)
  | inr no_ ↦ (λ e. cc, λ e. cc (text_eq_refl (etag a)))
]

-- For row versions below 2^63, an If-Match with the tag of version a, strong or weakened by a
-- proxy, lets a write to a row of version b pass exactly when a and b are the same version.
pub check_if_match-etag :
    (a b : ℕ)
    → a < 2 ^ 63
    → b < 2 ^ 63
    → ((check_if_match (etag a) b ≡ ok tt) ↔ (a ≡ b))
      × ((check_if_match (codes "W/" ++ etag a) b ≡ ok tt) ↔ (a ≡ b))
check_if_match-etag a b ha hb = (
  same_version a b (etag a) ha hb (
      one_tag (etag a) b (plain-etag a) (unfold etag in refl) (unfold etag in refl)
      ∙ rw (tag_matches-etag a (etag b)) refl),
  same_version a b (codes "W/" ++ etag a) ha hb (
      one_tag (codes "W/" ++ etag a) b
        (plain-append (codes "W/") (etag a) (unfold is_space in refl) (plain-etag a)) refl refl
      ∙ rw (tag_matches-weak a (etag b)) refl),
)
