-- ===== src/Examples/Money.antt =====
-- Amounts of money, and the theorems on their arithmetic and their text.
use khans_bike.Common.{ℕ, ◌%◌, ◌≡◌, refl, not, arith, leb, ◌==◌, if◌then◌else◌, ok, err}
use khans_bike.Common.Text.{Text, codes, is_space}
use khans_bike.Common.Int.{
  pos, negsuc, ◌+ℤ◌, ◌-ℤ◌, eq_ℤ, is_int64, signed, is_neg, magnitude, max_int64, wrap64,
}
use khans_bike.Platform.Money.{
  Money, same_currency, resolve_currency, parse_trimmed, parse_unsigned, minor_units, split_dot,
  parse_fraction, pad_zeros, parse_int, is_digits, is_digit, add, mul_ratio, decimal, parse_decimal,
  round_cents, out_of_range, invalid_whole, division_by_zero, mul_ratio_overflow,
}
use khans_bike.Platform.Money.Rounding.{nearest, scaled, mul_ratio-scaled, round_cents-nearest}
use khans_bike.Platform.Money.RoundTrip.{parse_decimal-decimal}
use khans_bike.Platform.Money.Accepts.{IsAmount, parse_decimal_sound, parse_decimal_complete}

abbrev ttd : ℕ → Money
ttd n = record { amount_minor = pos n; currency = codes "TTD" }

adds : add (ttd 250) (ttd 199) ≡ ok (ttd 449)
unfolding add same_currency resolve_currency wrap64 ◌+ℤ◌
adds = refl

mul_ratio-scaled_example : mul_ratio (ttd 333) (pos 2) (pos 4) ≡ (
    if eq_ℤ (pos 4) (pos 0)
    then err division_by_zero
    else if is_int64 (scaled (ttd 333) (pos 2) (pos 4))
    then ok (record (ttd 333) { amount_minor = scaled (ttd 333) (pos 2) (pos 4) })
    else err mul_ratio_overflow)
mul_ratio-scaled_example = mul_ratio-scaled (ttd 333) (pos 2) (pos 4)

round_cents-nearest_example : round_cents (negsuc 24) 10 ≡ (
  signed (is_neg (negsuc 24)) (nearest (magnitude (negsuc 24)) 10),
  not (magnitude (negsuc 24) % 10 == 0),
)
round_cents-nearest_example = round_cents-nearest (negsuc 24) 10 (omega arith)

parse_decimal-decimal_example : parse_decimal (decimal (ttd 1999)) ≡ (
    if leb (magnitude (pos 1999)) 9223372036854775799
    then ok (pos 1999)
    else if leb (magnitude (pos 1999)) max_int64
    then err out_of_range
    else err invalid_whole)
parse_decimal-decimal_example = parse_decimal-decimal (pos 1999) (codes "TTD") refl

abbrev amount : Text
amount = codes " -19.9"

parses : parse_decimal amount ≡ ok (negsuc 1989)
unfolding parse_decimal parse_trimmed parse_unsigned minor_units split_dot parse_fraction pad_zeros
    parse_int is_digits is_digit is_space wrap64 ◌-ℤ◌
parses = refl

parse_decimal_sound_example : IsAmount amount (negsuc 1989)
parse_decimal_sound_example = parse_decimal_sound amount (negsuc 1989) parses

parse_decimal_complete_example : parse_decimal amount ≡ ok (negsuc 1989)
parse_decimal_complete_example =
    parse_decimal_complete amount (negsuc 1989) parse_decimal_sound_example
