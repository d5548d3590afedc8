-- ===== src/Platform/Money/Accepts.antt =====
-- internal/platform/money.go: which texts parseDecimalToMinor accepts, and what it makes of them.
use khans_bike.Common.{
  ℕ, zero, suc, ◌+◌, ◌-◌, ◌*◌, ◌≤◌, ◌≡◌, refl, [], ◌∷◌, ◌++◌, Bool, true, false, Option, some, none,
  Result, ok, err, arith, ap, if◌then◌else◌, sym, ◌∙◌, &&-eq-true,
}
use khans_bike.Common.Int.{ℤ, pos, signed, ◌-ℤ◌, wrap64}
use khans_bike.Common.Text.{Text, trim_space, byte_len}
use khans_bike.Platform.Money.{
  MoneyError, split_dot, parse_int, parse_fraction, minor_units, parse_unsigned, parse_trimmed,
  parse_decimal, is_digit, digits_only, is_digits, value, has_minus, trim_minus,
}

-- The cents that a fraction of at most two digits stands for.
abbrev pub cents : Text → ℕ
cents [] = 0
cents (c ∷ []) = 10 * (c - b'0')
cents (c ∷ d ∷ _) = 10 * (c - b'0') + (d - b'0')

-- What an accepted fraction looks like: none, or at most two digits.
abbrev pub IsFraction : Option Text → ℕ → Type 0
IsFraction none n = n ≡ 0
IsFraction (some f) n = (digits_only f ≡ true) × (byte_len f ≤ 2) × (n ≡ cents f)

parse_fraction_sound :
    (f : Option Text) (n : ℕ) → parse_fraction f ≡ ok n → IsFraction f n × (n ≤ 99)
unfolding parse_fraction is_digit
parse_fraction_sound none n h = ground arith
parse_fraction_sound (some []) n h = ground arith
parse_fraction_sound (some (c ∷ [])) n h = ground arith
parse_fraction_sound (some (c ∷ d ∷ [])) n h = ground arith
parse_fraction_sound (some (c ∷ d ∷ e ∷ f)) n h = ground arith

parse_fraction_complete : (f : Option Text) (n : ℕ) → IsFraction f n → parse_fraction f ≡ ok n
unfolding parse_fraction is_digit
parse_fraction_complete none n h = ground arith
parse_fraction_complete (some []) n h = ground arith
parse_fraction_complete (some (c ∷ [])) n h = ground arith
parse_fraction_complete (some (c ∷ d ∷ [])) n h = ground arith
parse_fraction_complete (some (c ∷ d ∷ e ∷ f)) n h = ground arith

-- A sign, a whole part, and perhaps a dot with a fraction.
abbrev pub dotted : Option Text → Text
dotted none = []
dotted (some f) = b'.' ∷ f

abbrev pub minus_if : Bool → Text → Text
minus_if true s = b'-' ∷ s
minus_if false s = s

pub dotted-split_dot : (s : Text) → (split_dot s).0 ++ dotted (split_dot s).1 ≡ s
unfolding split_dot
dotted-split_dot [] = refl
dotted-split_dot (c ∷ s) = ground (arith, dotted-split_dot s)

pub split_dot-dotted :
    (w : Text) (f : Option Text) → digits_only w ≡ true → split_dot (w ++ dotted f) ≡ (w, f)
unfolding split_dot is_digit
split_dot-dotted [] none h = refl
split_dot-dotted [] (some f) h = refl
split_dot-dotted (c ∷ w) f h = ground (arith, split_dot-dotted w f)

minus_if-trim_minus : (s : Text) → minus_if (has_minus s) (trim_minus s) ≡ s
minus_if-trim_minus [] = refl
minus_if-trim_minus (c ∷ s) = ground arith

abbrev MinorUnits : Text → Option Text → ℤ → Type 0
MinorUnits w f z =
    (is_digits w ≡ true)
    × (value 0 w ≤ 92233720368547757)
    × ((n : ℕ) × IsFraction f n × (z ≡ pos (value 0 w * 100 + n)))

minor_units_of :
    (w : Text) (f : Option Text) (z : ℤ) (r : Result MoneyError ℕ)
    → parse_fraction f ≡ r
    → minor_units w f ≡ ok z
    → MinorUnits w f z
unfolding minor_units parse_int wrap64
minor_units_of w f z (err e) p h = ground arith
minor_units_of w f z (ok n) p h =
    let (is_frac, small) = parse_fraction_sound f n p in
    (ground arith, ground arith, (n, is_frac, ground arith))

minor_units_sound : (w : Text) (f : Option Text) (z : ℤ) → minor_units w f ≡ ok z → MinorUnits w f z
minor_units_sound w f z h = minor_units_of w f z (parse_fraction f) refl h

-- The amounts that a text may name.
pub record IsAmount (amount : Text) (z : ℤ) : Type 0 where
  pub neg : Bool
  pub whole : Text
  pub fraction : Option Text
  pub hundredths : ℕ
  pub spelled : trim_space amount ≡ minus_if neg (whole ++ dotted fraction)
  pub whole_digits : is_digits whole ≡ true
  pub whole_fits : value 0 whole ≤ 92233720368547757
  pub two_places : IsFraction fraction hundredths
  pub exact : z ≡ signed neg (value 0 whole * 100 + hundredths)

unsigned_sound :
    (s : Text) (minor : ℤ)
    → parse_unsigned s ≡ ok minor
    → MinorUnits (split_dot s).0 (split_dot s).1 minor
unfolding parse_unsigned
unsigned_sound s minor h = minor_units_sound (split_dot s).0 (split_dot s).1 minor h

digits_only_of : (w : Text) → is_digits w ≡ true → digits_only w ≡ true
unfolding is_digits
digits_only_of w d = (&&-eq-true _ _ d).1

negated :
    (neg : Bool) (n : ℕ)
    → n ≤ 9223372036854775799
    → (if neg then wrap64 (pos 0 -ℤ pos n) else pos n) ≡ signed neg n
unfolding wrap64 ◌-ℤ◌
negated true zero h = refl
negated true (suc n) h = ground arith
negated false n h = refl

IsFraction-le : (f : Option Text) (n : ℕ) → IsFraction f n → n ≤ 99
unfolding is_digit
IsFraction-le none n h = omega arith
IsFraction-le (some []) n h = omega arith
IsFraction-le (some (c ∷ [])) n h = ground arith
IsFraction-le (some (c ∷ d ∷ f)) n h = ground arith

trimmed_of :
    (s : Text) (z : ℤ) (r : Result MoneyError ℤ)
    → parse_unsigned (trim_minus s) ≡ r
    → parse_trimmed s ≡ ok z
    → (minor : ℤ) × (parse_unsigned (trim_minus s) ≡ ok minor)
      × (z ≡ (if has_minus s then wrap64 (pos 0 -ℤ minor) else minor))
unfolding parse_trimmed
trimmed_of s z (err e) p h = ground arith
trimmed_of s z (ok minor) p h = (minor, p, ground arith)

-- An accepted text is an optional minus sign, one or more digits, and perhaps a dot with at most two
-- digits, around which white space is ignored; the result is its exact value in hundredths.
pub parse_decimal_sound : (amount : Text) (z : ℤ) → parse_decimal amount ≡ ok z → IsAmount amount z
unfolding parse_decimal
parse_decimal_sound amount z h =
    let s = trim_space amount in
    let (minor, parsed, e) = trimmed_of s z (parse_unsigned (trim_minus s)) refl h in
    let (ds, fits, (n, is_frac, v)) = unsigned_sound (trim_minus s) minor parsed in
    record {
      neg = has_minus s;
      whole = (split_dot (trim_minus s)).0;
      fraction = (split_dot (trim_minus s)).1;
      hundredths = n;
      spelled =
          sym
            (ap (minus_if (has_minus s)) (dotted-split_dot (trim_minus s)) ∙ minus_if-trim_minus s);
      whole_digits = ds;
      whole_fits = fits;
      two_places = is_frac;
      exact =
          e
          ∙ ap (λ m. if has_minus s then wrap64 (pos 0 -ℤ m) else m) v
          ∙ negated (has_minus s) _ (omega (arith, IsFraction-le _ n is_frac));
    }

minor_units_complete :
    (w : Text) (f : Option Text) (n : ℕ)
    → is_digits w ≡ true
    → value 0 w ≤ 92233720368547757
    → n ≤ 99
    → parse_fraction f ≡ ok n
    → minor_units w f ≡ ok (pos (value 0 w * 100 + n))
unfolding minor_units parse_int wrap64
minor_units_complete w f n d fits small p = ground arith

unsigned_complete :
    (w : Text) (f : Option Text) (n : ℕ)
    → is_digits w ≡ true
    → value 0 w ≤ 92233720368547757
    → IsFraction f n
    → parse_unsigned (w ++ dotted f) ≡ ok (pos (value 0 w * 100 + n))
unfolding parse_unsigned
unsigned_complete w f n d fits is_frac =
    ap (λ parts. minor_units parts.0 parts.1) (split_dot-dotted w f (digits_only_of w d))
    ∙ minor_units_complete w f n d fits (IsFraction-le f n is_frac)
        (parse_fraction_complete f n is_frac)

trimmed_complete :
    (neg : Bool) (w t : Text) (minor : ℕ)
    → is_digits w ≡ true
    → minor ≤ 9223372036854775799
    → parse_unsigned (w ++ t) ≡ ok (pos minor)
    → parse_trimmed (minus_if neg (w ++ t)) ≡ ok (signed neg minor)
unfolding parse_trimmed is_digits is_digit
trimmed_complete neg [] t minor d fits p = cc
trimmed_complete true (c ∷ w) t minor d fits p = rw p (ap ok (negated true minor fits))
trimmed_complete false (c ∷ w) t minor d fits p = ground arith

-- Every text that spells an amount so is accepted, and read as that amount.
pub parse_decimal_complete :
    (amount : Text) (z : ℤ) → IsAmount amount z → parse_decimal amount ≡ ok z
unfolding parse_decimal
parse_decimal_complete amount z a =
    ap parse_trimmed a.spelled
    ∙ trimmed_complete a.neg a.whole (dotted a.fraction) (value 0 a.whole * 100 + a.hundredths)
        a.whole_digits
        (omega (arith, a.whole_fits, IsFraction-le a.fraction a.hundredths a.two_places))
        (unsigned_complete a.whole a.fraction a.hundredths a.whole_digits a.whole_fits a.two_places)
    ∙ ap ok (sym a.exact)
