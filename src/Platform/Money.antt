-- ===== src/Platform/Money.antt =====
-- internal/platform/money.go: exact amounts in minor units with a currency. `decimal`, `parse_decimal`
-- and the arithmetic are here; the children hold the proofs. strings.ToUpper is a table of the
-- standard library and enters as the parameter `upper`.
pub mod Digits
pub mod Sums
pub mod Rounding
pub mod Accepts
pub mod RoundTrip
use khans_bike.Common.{
  ℕ, zero, suc, ◌+◌, ◌-◌, ◌*◌, ◌/◌, ◌%◌, List, [], ◌∷◌, ◌++◌, Bool, true, false, not, ◌&&◌, ◌||◌,
  Option, none, some, Result, ok, err, ◌>>=◌, ◌>>◌, guard, ltb, leb, ◌==◌, if◌then◌else◌, differ,
}
use khans_bike.Common.Int.{
  ℤ, pos, negsuc, magnitude, is_neg, signed, ◌+ℤ◌, ◌-ℤ◌, ◌*ℤ◌, eq_ℤ, max_int64, is_int64, wrap64,
}
use khans_bike.Common.Text.{Text, trim_space, is_empty, byte_len, text_eq}

pub record Money : Type 0 where
  pub amount_minor : ℤ
  pub currency : Text

pub data MoneyError : Type 0 where
  currency_mismatch division_by_zero mul_ratio_overflow : MoneyError
  empty_amount invalid_whole out_of_range too_many_decimals invalid_fraction invalid_amount :
      MoneyError

-- NewMoney.
unfoldable pub new_money : (Text → Text) → ℤ → Text → Money
new_money upper amount currency = record {
  amount_minor = amount;
  currency = upper (trim_space currency);
}

unfoldable pub same_currency : Money → Money → Bool
same_currency m o =
    text_eq m.currency o.currency
    || (is_empty m.currency && eq_ℤ m.amount_minor (pos 0)
        || is_empty o.currency && eq_ℤ o.amount_minor (pos 0))

unfoldable pub resolve_currency : Money → Money → Text
resolve_currency m o = if not (is_empty m.currency) then m.currency else o.currency

-- Add and Sub: the int64 sum and difference wrap around.
unfoldable pub add : Money → Money → Result MoneyError Money
unfolding same_currency resolve_currency
add m o =
    if not (same_currency m o)
    then err currency_mismatch
    else ok (record {
      amount_minor = wrap64 (m.amount_minor +ℤ o.amount_minor);
      currency = resolve_currency m o;
    })

unfoldable pub sub : Money → Money → Result MoneyError Money
unfolding same_currency resolve_currency
sub m o =
    if not (same_currency m o)
    then err currency_mismatch
    else ok (record {
      amount_minor = wrap64 (m.amount_minor -ℤ o.amount_minor);
      currency = resolve_currency m o;
    })

-- big.Int's QuoRem divides toward zero: the magnitudes are divided, the signs give the sign.
-- Then the quotient moves away from zero when twice the remainder reaches the divisor.
unfoldable pub round_quotient : ℤ → ℤ → ℤ
round_quotient prod den =
    let q = signed (differ (is_neg prod) (is_neg den)) (magnitude prod / magnitude den) in
    let r = magnitude prod % magnitude den in
    if leb (magnitude den) (2 * r)
    then (if differ (is_neg prod) (is_neg den) then q -ℤ pos 1 else q +ℤ pos 1)
    else q

unfoldable pub mul_ratio : Money → ℤ → ℤ → Result MoneyError Money
mul_ratio m num den =
    if eq_ℤ den (pos 0)
    then err division_by_zero
    else let q = round_quotient (m.amount_minor *ℤ num) den in
      if not (is_int64 q) then err mul_ratio_overflow else ok (record m { amount_minor = q })

-- The digits of `%d`, the last digit first in the recursion; `fuel` bounds their number.
unfoldable pub digits : ℕ → ℕ → Text → Text
digits zero n out = out
digits (suc fuel) n out =
    let more = digits fuel (n / 10) ((b'0' + n % 10) ∷ out) in
    if ltb n 10 then (b'0' + n) ∷ out else more

-- `%d` of a number that is not negative.
unfoldable pub format_nat : ℕ → Text
unfolding digits
format_nat n = digits (suc n) n []

-- `%d` of an int64.
unfoldable pub format_int : ℤ → Text
unfolding format_nat
format_int z = if is_neg z then b'-' ∷ format_nat (magnitude z) else format_nat (magnitude z)

-- `%02d`: two characters at least, the sign counted.
unfoldable pub format_int02 : ℤ → Text
unfolding format_int format_nat
format_int02 z =
    if is_neg z
    then format_int z
    else if ltb (magnitude z) 10
    then b'0' ∷ format_nat (magnitude z)
    else format_nat (magnitude z)

-- Decimal. `v = -v` wraps at the smallest int64, and `/` and `%` go toward zero.
unfoldable pub decimal : Money → Text
unfolding format_int format_int02
decimal m =
    let neg = is_neg m.amount_minor in
    let v = if neg then wrap64 (pos 0 -ℤ m.amount_minor) else m.amount_minor in
    let whole = signed (is_neg v) (magnitude v / 100) in
    let frac = signed (is_neg v) (magnitude v % 100) in
    let sign = if neg then b'-' ∷ [] else [] in
    sign ++ (format_int whole ++ b'.' ∷ format_int02 frac)

-- isDigits.
unfoldable pub is_digit : ℕ → Bool
is_digit c = not (ltb c b'0' || ltb b'9' c)

abbrev pub digits_only : Text → Bool
digits_only [] = true
digits_only (c ∷ s) = is_digit c && digits_only s

unfoldable pub is_digits : Text → Bool
unfolding is_digit
is_digits s = not (is_empty s) && digits_only s

-- The number that digits spell behind `n`, and strconv.ParseInt on a text of digits.
abbrev pub value : ℕ → Text → ℕ
value n [] = n
value n (c ∷ s) = value (n * 10 + (c - b'0')) s

unfoldable pub parse_int : Text → Option ℕ
parse_int s = if leb (value 0 s) max_int64 then some (value 0 s) else none

-- strings.SplitN(s, ".", 2): the text before the first dot, and the rest if there is a dot.
unfoldable pub split_dot : Text → Text × Option Text
split_dot [] = ([], none)
split_dot (c ∷ s) =
    let rest = split_dot s in if c == b'.' then ([], some s) else (c ∷ rest.0, rest.1)

-- `for len(fracStr) < 2 { fracStr += "0" }`, at most two rounds.
unfoldable pub pad_zeros : Text → Text
pad_zeros [] = b'0' ∷ b'0' ∷ []
pad_zeros (c ∷ []) = if ltb (byte_len (c ∷ [])) 2 then c ∷ b'0' ∷ [] else c ∷ []
pad_zeros s = s

-- The fraction of parseDecimalToMinor, in cents; `none` is an amount with no dot.
unfoldable pub parse_fraction : Option Text → Result MoneyError ℕ
unfolding parse_int is_digits pad_zeros
parse_fraction none = ok 0
parse_fraction (some frac) =
    if ltb 2 (byte_len frac)
    then err too_many_decimals
    else if not (is_empty frac) && not (is_digits frac)
    then err invalid_fraction
    else elim (parse_int (pad_zeros frac)) [ none ↦ err invalid_fraction | some n ↦ ok n ]

-- strings.HasPrefix(s, "-"), and strings.TrimPrefix(s, "-").
abbrev pub has_minus : Text → Bool
has_minus [] = false
has_minus (c ∷ s) = c == b'-'

abbrev pub trim_minus : Text → Text
trim_minus [] = []
trim_minus (c ∷ s) = if c == b'-' then s else c ∷ s

-- `parts[0]` with the two range tests, then `parts[1]`; the int64 sum wraps around.
unfoldable pub minor_units : Text → Option Text → Result MoneyError ℤ
minor_units whole_text frac_text =
    if not (is_digits whole_text) then err invalid_whole else elim (parse_int whole_text) [
      | none ↦ err out_of_range
      | some whole ↦
          if ltb ((max_int64 - 99) / 100) whole
          then err out_of_range
          else (parse_fraction frac_text >>= λ frac. ok (wrap64 (pos (whole * 100 + frac))))
    ]

unfoldable pub parse_unsigned : Text → Result MoneyError ℤ
parse_unsigned s = minor_units (split_dot s).0 (split_dot s).1

-- parseDecimalToMinor; the negation wraps around as well.
unfoldable pub parse_trimmed : Text → Result MoneyError ℤ
parse_trimmed s =
    if is_empty s
    then err empty_amount
    else (parse_unsigned (trim_minus s) >>= λ minor.
        ok (if has_minus s then wrap64 (pos 0 -ℤ minor) else minor))

unfoldable pub parse_decimal : Text → Result MoneyError ℤ
unfolding parse_trimmed
parse_decimal amount = parse_trimmed (trim_space amount)

unfoldable pub parse_money : (Text → Text) → Text → Text → Result MoneyError Money
parse_money upper amount currency = do
  minor ← parse_decimal amount
  ok (new_money upper minor currency)

-- The rounding of ParseMoneyRounded: `num` / `den` in minor units, in lowest terms with 0 < den. The
-- flag says that the value was not whole.
unfoldable pub round_cents : ℤ → ℕ → ℤ × Bool
round_cents num den =
    let q = signed (is_neg num) (magnitude num / den) in
    let rem = magnitude num % den in
    if rem == 0
    then (q, false)
    else if leb den (2 * rem)
    then (if is_neg num then q -ℤ pos 1 else q +ℤ pos 1, true)
    else (q, true)

-- ParseMoneyRounded. `cents` is math/big's: the amount that a text spells, times 100, as a fraction in
-- lowest terms; `none` is a text that Rat.SetString refuses.
unfoldable pub parse_money_rounded :
    (Text → Text) → (Text → Option (ℤ × ℕ)) → Text → Text → Result MoneyError (Money × Bool)
parse_money_rounded upper cents amount currency = elim (cents (trim_space amount)) [
  | none ↦ err invalid_amount
  | some (num, den) ↦
      let (q, rounded) = round_cents num den in
      if not (is_int64 q) then err out_of_range else ok (new_money upper q currency, rounded)
]
