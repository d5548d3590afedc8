-- ===== src/Service/Views.antt =====
-- internal/service/assemble.go: loadPrices. The two queries answer with any rows at all.
use khans_bike.Common.{ℕ, Bool, List, [], ◌∷◌, ◌==◌, if◌then◌else◌, All}
use khans_bike.Domain.Price.{Price, IsPublicPrice, filter_public_prices, filter_public_prices_safe}

pub data Audience : Type 0 where
  public_audience admin_audience : Audience

-- `out[r.VariantID] = append(out[r.VariantID], ...)`, read at one variant.
unfoldable pub of_variant : ℕ → List Price → List Price
of_variant v [] = []
of_variant v (r ∷ rows) =
    let rest = of_variant v rows in if r.variant_id == v then r ∷ rest else rest

-- loadPrices: `all_rows` answers ListCurrentPricesByProduct, `retail_rows` answers
-- ListCurrentRetailPricesByProduct; the result is the map from variants to prices.
unfoldable pub load_prices : Audience → Bool → List Price → List Price → ℕ → List Price
unfolding of_variant
load_prices admin_audience retail_price_is_public all_rows retail_rows v = of_variant v all_rows
load_prices public_audience retail_price_is_public all_rows retail_rows v =
    filter_public_prices (of_variant v retail_rows) retail_price_is_public

-- Whatever the queries answer, a public view holds retail prices only, and none at all of a product
-- that does not show its prices.
pub load_prices_public :
    (flag : Bool) (all_rows retail_rows : List Price) (v : ℕ)
    → All (IsPublicPrice flag) (load_prices public_audience flag all_rows retail_rows v)
unfolding load_prices
load_prices_public flag all_rows retail_rows v =
    filter_public_prices_safe (of_variant v retail_rows) flag
