-- ===== src/Platform/Money/Digits.antt =====
-- Printing and reading digits: the facts that the proofs about `decimal` and `parse_decimal` share.
use khans_bike.Common.{
  ℕ, zero, suc, ◌+◌, ◌-◌, ◌*◌, ◌/◌, ◌%◌, ◌<◌, ◌≡◌, refl, [], ◌∷◌, ◌++◌, true, false, arith,
}
use khans_bike.Common.Text.{Text, codes, is_empty}
use khans_bike.Platform.Money.{digits, format_nat, is_digit, digits_only, is_digits, value}

pub format_nat_test : format_nat 149 ≡ codes "149"
unfolding format_nat
format_nat_test = refl

-- A digit's character is a digit.
pub is_digit-add : (n : ℕ) → n < 10 → is_digit (b'0' + n) ≡ true
unfolding is_digit
is_digit-add n h = ground arith

-- With fuel above the number, reading what `digits` writes gives the number and then the rest.
pub value-digits : (fuel n : ℕ) (out : Text) → n < fuel → value 0 (digits fuel n out) ≡ value n out
unfolding digits
value-digits zero n out h = absurd (omega arith)
value-digits (suc fuel) n out h = ground (arith, value-digits fuel (n / 10) ((b'0' + n % 10) ∷ out))

pub digits_only-digits :
    (fuel n : ℕ) (out : Text) → digits_only out ≡ true → digits_only (digits fuel n out) ≡ true
unfolding digits
digits_only-digits zero n out h = h
digits_only-digits (suc fuel) n out h = ground (
  arith,
  is_digit-add n,
  is_digit-add (n % 10),
  digits_only-digits fuel (n / 10) ((b'0' + n % 10) ∷ out),
)

pub is_empty-digits :
    (fuel n : ℕ) (out : Text) → is_empty out ≡ false → is_empty (digits fuel n out) ≡ false
unfolding digits
is_empty-digits zero n out h = h
is_empty-digits (suc fuel) n out h =
    ground (arith, is_empty-digits fuel (n / 10) ((b'0' + n % 10) ∷ out))

pub value-format_nat : (n : ℕ) → value 0 (format_nat n) ≡ n
unfolding format_nat
value-format_nat n = value-digits (suc n) n [] (omega arith)

pub is_digits-format_nat : (n : ℕ) → is_digits (format_nat n) ≡ true
unfolding format_nat is_digits digits
is_digits-format_nat n = ground (
  arith,
  digits_only-digits (suc n) n [] refl,
  is_digit-add n,
  is_empty-digits n (n / 10) ((b'0' + n % 10) ∷ []) refl,
)

-- Digits after digits: the value is shifted by the number of digits behind.
pub value-append : (n : ℕ) (s t : Text) → value n (s ++ t) ≡ value (value n s) t
value-append n [] t = refl
value-append n (c ∷ s) t = value-append (n * 10 + (c - b'0')) s t

pub digits_only-format_nat : (n : ℕ) → digits_only (format_nat n) ≡ true
unfolding format_nat
digits_only-format_nat n = digits_only-digits (suc n) n [] refl
