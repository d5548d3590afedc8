-- ===== src/Domain/Price.antt =====
-- internal/domain/price.go: price tiers, and which prices the public may see.
use mathlib.Core.List.{Memᴰ}
use mathlib.Core.List.Memᴰ.{cases_cons}
use khans_bike.Common.{
  ℕ, ◌≡◌, Bool, true, false, Option, List, [], ◌∷◌, arith, if◌then◌else◌, All, not, ap, sym, ◌∙◌,
  inl, inr,
}
use khans_bike.Common.Text.{Text, codes}
use khans_bike.Platform.Money.{Money}

pub data PriceTier : Type 0 where
  cost_usd landed_ttd wholesale_ttd retail_ttd : PriceTier
  other_tier : Text → PriceTier

-- IsPublic, Valid and Currency.
abbrev pub is_public : PriceTier → Bool
is_public retail_ttd = true
is_public _ = false

abbrev pub tier_is_valid : PriceTier → Bool
tier_is_valid (other_tier _) = false
tier_is_valid _ = true

unfoldable pub tier_currency : PriceTier → Text
tier_currency cost_usd = codes "USD"
tier_currency _ = codes "TTD"

pub record Price : Type 0 where
  pub id : ℕ
  pub variant_id : ℕ
  pub tier : PriceTier
  pub amount : Money
  pub effective_from : ℕ
  pub source_note : Option Text
  pub created_at : ℕ

-- The loop of FilterPublicPrices.
unfoldable pub keep_public : List Price → List Price
keep_public [] = []
keep_public (p ∷ ps) = let rest = keep_public ps in if is_public p.tier then p ∷ rest else rest

unfoldable pub filter_public_prices : List Price → Bool → List Price
unfolding keep_public
filter_public_prices prices retail_price_is_public =
    if not retail_price_is_public then [] else keep_public prices

-- What the public may see: the retail price, if the product shows it.
abbrev pub IsPublicPrice : Bool → Price → Type 0
IsPublicPrice retail_price_is_public p = (p.tier ≡ retail_ttd) × (retail_price_is_public ≡ true)

is_public→retail : (t : PriceTier) → is_public t ≡ true → t ≡ retail_ttd
is_public→retail t h = ground arith

keep_public-retail : (ps : List Price) → All (IsPublicPrice true) (keep_public ps)
unfolding keep_public
keep_public-retail [] = tt
keep_public-retail (p ∷ ps) = ground (arith, keep_public-retail ps, is_public→retail p.tier)

-- What FilterPublicPrices keeps is a retail price, of a product that shows its prices.
pub filter_public_prices_safe :
    (ps : List Price) (flag : Bool) → All (IsPublicPrice flag) (filter_public_prices ps flag)
unfolding filter_public_prices
filter_public_prices_safe ps false = tt
filter_public_prices_safe ps true = keep_public-retail ps

kept_or_not :
    {p : Price} (q : Price) {rest : List Price} (b : Bool)
    → Memᴰ p rest
    → Memᴰ p (if b then q ∷ rest else rest)
kept_or_not q true m = Memᴰ.tail m
kept_or_not q false m = m

-- The loop of FilterPublicPrices keeps every retail price.
pub keep_public_complete :
    (ps : List Price) (p : Price) → p.tier ≡ retail_ttd → Memᴰ p ps → Memᴰ p (keep_public ps)
unfolding keep_public
keep_public_complete [] p h m = elim m [ ]
keep_public_complete (q ∷ ps) p h m = elim (cases_cons m) [
  | inl e ↦
      let shown : is_public q.tier ≡ true =
        ap (λ r. is_public (Price.tier r)) (sym e) ∙ ap is_public h in
      rw shown (Memᴰ.head e)
  | inr later ↦ kept_or_not q (is_public q.tier) (keep_public_complete ps p h later)
]
