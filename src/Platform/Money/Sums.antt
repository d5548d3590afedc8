-- ===== src/Platform/Money/Sums.antt =====
-- internal/platform/money.go: what Add and Sub promise.
use khans_bike.Common.{◌≡◌, ◌≢◌, refl, ◌⊎◌, [], ◌∷◌, true, ok, arith}
use khans_bike.Common.Int.{ℤ, pos, negsuc, ◌+ℤ◌, ◌-ℤ◌, eq_ℤ, is_int64, wrap64}
use khans_bike.Common.Text.{Text, is_empty, text_eq→eq, text_eq_refl}
use khans_bike.Platform.Money.{Money, add, sub}

-- No currency and no amount: the additive identity.
abbrev pub IsNothing : Money → Type 0
IsNothing m = (m.currency ≡ []) × (m.amount_minor ≡ pos 0)

eq_ℤ→eq : (a b : ℤ) → eq_ℤ a b ≡ true → a ≡ b
eq_ℤ→eq (pos a) (pos b) h = ground arith
eq_ℤ→eq (negsuc a) (negsuc b) h = ground arith
eq_ℤ→eq (pos a) (negsuc b) h = cc
eq_ℤ→eq (negsuc a) (pos b) h = cc

is_empty→nil : (s : Text) → is_empty s ≡ true → s ≡ []
is_empty→nil [] h = refl
is_empty→nil (c ∷ s) h = cc

-- Add succeeds only on one currency or with an amountless operand without a currency; the sum then
-- has the currency of the operand that has one, and its amount is the sum modulo 2^64.
pub add_currency :
    (m o s : Money)
    → add m o ≡ ok s
    → ((m.currency ≡ o.currency) ⊎ IsNothing m ⊎ IsNothing o)
      × (s.amount_minor ≡ wrap64 (m.amount_minor +ℤ o.amount_minor))
      × ((m.currency ≢ [] → s.currency ≡ m.currency) × (m.currency ≡ [] → s.currency ≡ o.currency))
unfolding add
add_currency m o s h = ground (
  arith,
  text_eq→eq m.currency o.currency,
  eq_ℤ→eq m.amount_minor (pos 0),
  eq_ℤ→eq o.amount_minor (pos 0),
  is_empty→nil m.currency,
  is_empty→nil o.currency,
)

wrap_cancel : (a b : ℤ) → is_int64 a ≡ true → is_int64 b ≡ true → wrap64 (wrap64 (a +ℤ b) -ℤ b) ≡ a
unfolding wrap64 ◌+ℤ◌ ◌-ℤ◌
wrap_cancel (pos a) (pos b) h k = ground arith
wrap_cancel (pos a) (negsuc b) h k = ground arith
wrap_cancel (negsuc a) (pos b) h k = ground arith
wrap_cancel (negsuc a) (negsuc b) h k = ground arith

-- Sub undoes Add for all int64 amounts in one currency, also where the sum wraps around.
pub sub-add :
    (m o s : Money)
    → m.currency ≡ o.currency
    → is_int64 m.amount_minor ≡ true
    → is_int64 o.amount_minor ≡ true
    → add m o ≡ ok s
    → sub s o ≡ ok m
unfolding add sub
sub-add m o s c hm ho h = ground (
  arith,
  wrap_cancel m.amount_minor o.amount_minor hm ho,
  text_eq_refl o.currency,
  text_eq_refl m.currency,
)
