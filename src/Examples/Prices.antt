-- ===== src/Examples/Prices.antt =====
-- Prices of a product, and the theorems on what the public sees of them.
use khans_bike.Common.{ℕ, true, none, List, [], ◌∷◌, All}
use khans_bike.Common.Text.{Text, codes}
use khans_bike.Domain.Price.{Price, PriceTier, IsPublicPrice, retail_ttd, cost_usd}
use khans_bike.Common.Int.{pos}
use khans_bike.Domain.Status.{in_stock, out}
use khans_bike.Service.Views.{load_prices, load_prices_public, public_audience}
use khans_bike.Service.Cards.{
  count_variants, count_variants-Summarises, StockRow, stock_of, new_card, Summarises,
}

abbrev price_of : ℕ → PriceTier → Text → ℕ → Price
price_of id tier currency amount = record {
  id = id;
  variant_id = 7;
  tier = tier;
  amount = record { amount_minor = pos amount; currency = currency };
  effective_from = 0;
  source_note = none;
  created_at = 0;
}

abbrev prices : List Price
prices = price_of 1 cost_usd (codes "USD") 1000 ∷ price_of 2 retail_ttd (codes "TTD") 9999 ∷ []

load_prices_public_example :
    All (IsPublicPrice true) (load_prices public_audience true prices prices 7)
load_prices_public_example = load_prices_public true prices prices 7

abbrev stock : List StockRow
stock =
    record { product_id = 3; stock_status = out }
    ∷ record { product_id = 4; stock_status = out }
    ∷ record { product_id = 3; stock_status = in_stock }
    ∷ []

count_variants-Summarises_example :
    Summarises (stock_of 3 stock) (count_variants stock (λ _. new_card) 3)
count_variants-Summarises_example = count_variants-Summarises stock 3
