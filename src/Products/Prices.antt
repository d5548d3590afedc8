-- ===== src/Products/Prices.antt =====
-- internal/service/products.go: currentPrices, applyPrices and UpdateVariantInTx, with the statements of
-- internal/store/gen/prices.sql.go. Dates are day numbers; ids of new rows are the parameter `new_id`;
-- strings.ToUpper is the parameter `upper`. A map of prices is a list with one entry per tier.
pub mod Current
pub mod Recorded
use khans_bike.Common.{
  ℕ, [], ◌∷◌, List, Bool, true, false, not, ◌||◌, ◌&&◌, ◌==◌, Option, none, some, if◌then◌else◌,
  leb, ltb, any, update_rows,
}
use khans_bike.Common.Int.{eq_ℤ}
use khans_bike.Common.Text.{Text, codes, text_eq}
use khans_bike.Platform.Money.{Money, new_money}
use khans_bike.Domain.Price.{
  PriceTier, cost_usd, landed_ttd, wholesale_ttd, retail_ttd, other_tier, Price,
}

-- The string of a tier.
unfoldable pub tier_name : PriceTier → Text
tier_name cost_usd = codes "cost_usd"
tier_name landed_ttd = codes "landed_ttd"
tier_name wholesale_ttd = codes "wholesale_ttd"
tier_name retail_ttd = codes "retail_ttd"
tier_name (other_tier name) = name

abbrev pub same_tier : PriceTier → PriceTier → Bool
same_tier a b = text_eq (tier_name a) (tier_name b)

abbrev pub is_price_of : ℕ → PriceTier → Price → Bool
is_price_of variant tier r = r.variant_id == variant && same_tier r.tier tier

-- ListCurrentPricesByProduct at one variant and tier: DISTINCT ON keeps the row with the latest date
-- that is not in the future.
abbrev pub later_price : Price → Option Price → Option Price
later_price r none = some r
later_price r (some s) = if ltb r.effective_from s.effective_from then some s else some r

unfoldable pub current_row : ℕ → ℕ → PriceTier → List Price → Option Price
current_row today variant tier [] = none
current_row today variant tier (r ∷ rows) =
    let rest = current_row today variant tier rows in
    if is_price_of variant tier r && leb r.effective_from today then later_price r rest else rest

-- currentPrices, read at one variant and tier.
abbrev pub money_of : (Text → Text) → Option Price → Option Money
money_of upper none = none
money_of upper (some r) = some (new_money upper r.amount.amount_minor r.amount.currency)

unfoldable pub current_price : (Text → Text) → ℕ → List Price → ℕ → PriceTier → Option Money
current_price upper today rows variant tier = money_of upper (current_row today variant tier rows)

-- `cur == m` on Go's structs, where there is a current price.
abbrev pub is_same_money : Option Money → Money → Bool
is_same_money none m = false
is_same_money (some cur) m = eq_ℤ cur.amount_minor m.amount_minor && text_eq cur.currency m.currency

-- UpsertPrice without a date and a note: a row of today is replaced.
abbrev pub is_of_today : ℕ → ℕ → PriceTier → Price → Bool
is_of_today today variant tier r = is_price_of variant tier r && r.effective_from == today

unfoldable pub replace_price : Money → Price → Price
replace_price m r = record r { amount = m; source_note = none }

unfoldable pub new_price : ℕ → ℕ → ℕ → PriceTier → Money → Price
new_price today id variant tier m = record {
  id = id;
  variant_id = variant;
  tier = tier;
  amount = m;
  effective_from = today;
  source_note = none;
  created_at = today;
}

unfoldable pub upsert_price : ℕ → ℕ → ℕ → PriceTier → Money → List Price → List Price
upsert_price today id variant tier m rows =
    if any (is_of_today today variant tier) rows
    then update_rows (is_of_today today variant tier) (replace_price m) rows
    else new_price today id variant tier m ∷ rows

-- applyPrices, with the prices that were current before its loop.
unfoldable pub apply_prices :
    (PriceTier → ℕ)
    → ℕ
    → ℕ
    → (PriceTier → Option Money)
    → List (PriceTier × Money)
    → List Price
    → List Price
apply_prices new_id today variant current [] rows = rows
apply_prices new_id today variant current ((tier, m) ∷ prices) rows =
    apply_prices new_id today variant current prices (
      if is_same_money (current tier) m
      then rows
      else upsert_price today (new_id tier) variant tier m rows)
