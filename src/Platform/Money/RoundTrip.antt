-- ===== src/Platform/Money/RoundTrip.antt =====
-- internal/platform/money.go: `parse_decimal` reads back what `decimal` prints.
use khans_bike.Common.{
  ℕ, zero, suc, ◌+◌, ◌*◌, ◌/◌, ◌%◌, ◌≤◌, ◌<◌, ◌≡◌, refl, [], ◌∷◌, ◌++◌, true, false, Option, some,
  ok, err, arith, ap, Bool-cases, inl, inr, leb→le, leb, if◌then◌else◌, ◌∙◌,
}
use khans_bike.Common.Int.{
  ℤ, pos, negsuc, magnitude, is_neg, negate, ◌-ℤ◌, max_int64, is_int64, wrap64,
}
use khans_bike.Common.Text.{Text, is_space, is_empty, codes}
use khans_bike.Common.Trim.{keeps, keeps-append, trim_func_id}
use khans_bike.Platform.Money.{
  invalid_whole, out_of_range, format_nat, format_int02, decimal, is_digit, digits_only, is_digits,
  value, split_dot, parse_fraction, parse_unsigned, parse_decimal, minor_units, parse_int,
  has_minus, trim_minus,
}
use khans_bike.Platform.Money.Digits.{
  value-format_nat, is_digits-format_nat, digits_only-format_nat,
}

-- The two characters of `%02d` below a hundred.
abbrev two_digits : ℕ → Text
two_digits k = (b'0' + k / 10) ∷ (b'0' + k % 10) ∷ []

format_int02-two_digits : (k : ℕ) → k < 100 → format_int02 (pos k) ≡ two_digits k
unfolding format_int02
format_int02-two_digits zero h = refl
format_int02-two_digits (suc k) h = ground arith

-- The text of an amount with magnitude `n`.
abbrev plain : ℕ → Text
plain n = format_nat (n / 100) ++ b'.' ∷ two_digits (n % 100)

abbrev min_int64_text : Text
min_int64_text = codes "--92233720368547758.-8"

negate_wraps : (n : ℕ) → suc n ≤ max_int64 → wrap64 (pos 0 -ℤ negsuc n) ≡ pos (suc n)
unfolding wrap64 ◌-ℤ◌
negate_wraps n h = ground arith

decimal-plain :
    (z : ℤ) (c : Text)
    → magnitude z ≤ max_int64
    → decimal (record { amount_minor = z; currency = c })
      ≡ (if is_neg z then b'-' ∷ plain (magnitude z) else plain (magnitude z))
unfolding decimal
decimal-plain (pos n) c h =
    ap (λ t. format_nat (n / 100) ++ b'.' ∷ t) (format_int02-two_digits (n % 100) (omega arith))
decimal-plain (negsuc n) c h = rw (negate_wraps n h) (
    ap (λ t. b'-' ∷ format_nat (suc n / 100) ++ b'.' ∷ t)
      (format_int02-two_digits (suc n % 100) (omega arith)))

minor_units-digits :
    (w : Text) (f : Option Text) (v k : ℕ)
    → is_digits w ≡ true
    → value 0 w ≡ v
    → v ≤ max_int64
    → parse_fraction f ≡ ok k
    → k < 100
    → minor_units w f
      ≡ (if leb v 92233720368547757 then ok (pos (v * 100 + k)) else err out_of_range)
unfolding minor_units parse_int wrap64
minor_units-digits w f v k d e r g l = rw (d, e) (ground arith)

-- A whole part of digits and two digits behind a dot.
split_dot-append : (s t : Text) → digits_only s ≡ true → split_dot (s ++ b'.' ∷ t) ≡ (s, some t)
unfolding split_dot is_digit
split_dot-append [] t h = refl
split_dot-append (c ∷ s) t h = ground (arith, split_dot-append s t)

parse_fraction-two_digits : (k : ℕ) → k < 100 → parse_fraction (some (two_digits k)) ≡ ok k
unfolding parse_fraction
parse_fraction-two_digits k h = ground arith

minor_units-plain :
    (n : ℕ)
    → n ≤ max_int64
    → minor_units (format_nat (n / 100)) (some (two_digits (n % 100)))
      ≡ (if leb n 9223372036854775799 then ok (pos n) else err out_of_range)
minor_units-plain n h =
    minor_units-digits (format_nat (n / 100)) (some (two_digits (n % 100))) (n / 100) (n % 100)
      (is_digits-format_nat (n / 100)) (value-format_nat (n / 100)) (omega arith)
      (parse_fraction-two_digits (n % 100) (omega arith)) (omega arith)
    ∙ ground arith

parse_unsigned-plain :
    (n : ℕ)
    → n ≤ max_int64
    → parse_unsigned (plain n)
      ≡ (if leb n 9223372036854775799 then ok (pos n) else err out_of_range)
unfolding parse_unsigned
parse_unsigned-plain n h =
    ap (λ parts. minor_units parts.0 parts.1)
      (split_dot-append (format_nat (n / 100)) (two_digits (n % 100))
        (digits_only-format_nat (n / 100)))
    ∙ minor_units-plain n h

digit_not_space : (c : ℕ) → is_digit c ≡ true → is_space c ≡ false
unfolding is_digit is_space
digit_not_space c h = ground arith

digits-Keep : (s : Text) → digits_only s ≡ true → keeps is_space s ≡ true
digits-Keep [] h = refl
digits-Keep (c ∷ s) h = ground (arith, digit_not_space c, digits-Keep s)

plain-keeps : (n : ℕ) → keeps is_space (plain n) ≡ true
unfolding is_space
plain-keeps n =
    keeps-append is_space (format_nat (n / 100)) _
      (digits-Keep _ (digits_only-format_nat (n / 100))) (ground arith)

digits-not_minus :
    (s t : Text)
    → is_digits s ≡ true
    → (has_minus (s ++ t) ≡ false) × (trim_minus (s ++ t) ≡ s ++ t) × (is_empty (s ++ t) ≡ false)
unfolding is_digits is_digit
digits-not_minus [] t h = cc
digits-not_minus (c ∷ s) t h = ground arith

-- Reading a plain text, with a sign or without.
parse_decimal-plain :
    (n : ℕ)
    → n ≤ max_int64
    → parse_decimal (plain n) ≡ (if leb n 9223372036854775799 then ok (pos n) else err out_of_range)
unfolding parse_decimal
parse_decimal-plain n h = rw (trim_func_id is_space (plain n) (plain-keeps n)) (
    ground (
      arith,
      parse_unsigned-plain n h,
      digits-not_minus (format_nat (n / 100)) (b'.' ∷ two_digits (n % 100))
          (is_digits-format_nat (n / 100)),
    ))

wraps_negate : (n : ℕ) → n ≤ max_int64 → wrap64 (pos 0 -ℤ pos n) ≡ negate n
unfolding wrap64 ◌-ℤ◌
wraps_negate zero h = refl
wraps_negate (suc n) h = ground arith

parse_decimal-minus :
    (n : ℕ)
    → n ≤ max_int64
    → parse_decimal (b'-' ∷ plain n)
      ≡ (if leb n 9223372036854775799 then ok (negate n) else err out_of_range)
unfolding parse_decimal
parse_decimal-minus n h =
    rw
      (
        trim_func_id is_space (b'-' ∷ plain n) (unfold is_space in plain-keeps n),
        parse_unsigned-plain n h,
      )
      (ground (arith, wraps_negate n))

-- The smallest int64 prints as "--92233720368547758.-8", which is no number.
smallest_fails :
    (c : Text)
    → parse_decimal (decimal (record { amount_minor = negsuc max_int64; currency = c }))
      ≡ err invalid_whole
unfolding decimal wrap64 ◌-ℤ◌ parse_decimal parse_unsigned split_dot minor_units is_digits is_space
smallest_fails c = refl

-- Reading the printed text of an int64 amount gives the amount back up to 92233720368547757.99 on
-- either side of zero. The eight magnitudes above it are refused as out of range, and the smallest
-- int64 prints as a text that is no number.
pub parse_decimal-decimal :
    (z : ℤ) (c : Text)
    → is_int64 z ≡ true
    → parse_decimal (decimal (record { amount_minor = z; currency = c })) ≡ (
        if leb (magnitude z) 9223372036854775799
        then ok z
        else if leb (magnitude z) max_int64
        then err out_of_range
        else err invalid_whole)
parse_decimal-decimal (pos n) c h =
    let fits : n ≤ max_int64 = leb→le n max_int64 h in
    rw (decimal-plain (pos n) c fits, parse_decimal-plain n fits) (ground arith)
parse_decimal-decimal (negsuc n) c h = elim (Bool-cases (leb (suc n) max_int64)) [
  | inl fits ↦
      rw
        (
          decimal-plain (negsuc n) c (leb→le (suc n) max_int64 fits),
          parse_decimal-minus (suc n) (leb→le (suc n) max_int64 fits),
        )
        (ground arith)
  | inr large ↦ let top : n ≡ max_int64 = ground arith in rw top (smallest_fails c)
]
