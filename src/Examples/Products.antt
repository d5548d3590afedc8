-- ===== src/Examples/Products.antt =====
-- A product document: its prices, variants and attribute values, and the theorems on saving it.
use khans_bike.Common.{
  ℕ, ◌≡◌, refl, [], ◌∷◌, List, Bool, true, false, Option, none, some, ok, err, All, ltb,
}
use khans_bike.Common.Int.{pos, wrap32}
use khans_bike.Common.Text.{Text, codes, is_space}
use khans_bike.Domain.Price.{PriceTier, Price, cost_usd, retail_ttd}
use khans_bike.Domain.Status.{in_stock}
use khans_bike.Platform.Money.{Money, new_money}
use khans_bike.Products.Prices.{apply_prices, current_price, same_tier, tier_name}
use khans_bike.Products.Prices.Current.{same_key}
use khans_bike.Products.Prices.Recorded.{other_days, apply_prices-current}
use khans_bike.Products.Variants.{
  ProductVariant, ValidatedVariant, sync_variants, save_variants, save_variant, create_variant,
  update_variant, row_of, clashes, clear_default_variant, delete_variants_except, is_kept,
}
use khans_bike.Service.Validation.{conflict}
use khans_bike.Schema.Attributes.{
  Attribute, AttributeOption, AttributeValue, Floats, multi_enum, new_attribute_value, fits,
}
use khans_bike.Schema.Values.{
  Json, ApiValue, string_value, number_value, range_value, bool_value, list_value, no_slots,
  decode_value, decode_slots, add_tokens, option_by_value, option_by_id, api_value,
}
use khans_bike.Schema.Values.Tokens.{HasOwnIds, HasOwnTokens}
use khans_bike.Schema.Values.Again.{decode_value-api_value}

abbrev dollars : ℕ → Money
dollars cents = record { amount_minor = pos cents; currency = codes "TTD" }

abbrev price_at : ℕ → PriceTier → ℕ → ℕ → Price
price_at id tier cents day = record {
  id = id;
  variant_id = 7;
  tier = tier;
  amount = dollars cents;
  effective_from = day;
  source_note = none;
  created_at = day;
}

abbrev history : List Price
history = price_at 1 retail_ttd 9999 3 ∷ price_at 2 cost_usd 5000 3 ∷ []

abbrev wanted : List (PriceTier × Money)
wanted = (retail_ttd, dollars 12500) ∷ (cost_usd, dollars 5000) ∷ []

abbrev saved_prices : List Price
saved_prices = apply_prices (λ _. 9) 20 7 (current_price (λ s. s) 20 history 7) wanted history

tiers_differ : same_tier cost_usd retail_ttd ≡ false
unfolding tier_name
tiers_differ = refl

normal : (cents : ℕ) → new_money (λ s. s) (pos cents) (codes "TTD") ≡ dollars cents
unfolding new_money is_space
normal cents = refl

apply_prices-current_example :
    All (λ p. current_price (λ s. s) 20 saved_prices 7 p.0 ≡ some p.1) wanted
    × ((v : ℕ) (t : PriceTier)
        → All (λ p. same_key 7 p.0 v t ≡ false) wanted
        → current_price (λ s. s) 20 saved_prices v t ≡ current_price (λ s. s) 20 history v t)
    × (other_days 20 saved_prices ≡ other_days 20 history)
apply_prices-current_example =
    apply_prices-current (λ s. s) (λ _. 9) 20 7 wanted history ((tiers_differ, tt), (tt, tt))
      (normal 12500, (normal 5000, tt))

abbrev variant_of : ℕ → Bool → Text → Bool → ValidatedVariant
variant_of id is_new sku is_default = record {
  id = id;
  is_new = is_new;
  sku = sku;
  supplier_id = none;
  supplier_item_no = none;
  model_no = none;
  name_suffix = none;
  stock_status = in_stock;
  is_default = is_default;
}

abbrev two_variants : List ValidatedVariant
two_variants = variant_of 1 true (codes "A") true ∷ variant_of 2 true (codes "B") false ∷ []

abbrev two_rows : List ProductVariant
two_rows =
    row_of 5 1 (variant_of 2 true (codes "B") false)
    ∷ row_of 5 0 (variant_of 1 true (codes "A") true)
    ∷ []

saves_two : sync_variants 5 two_variants [] ≡ ok two_rows
unfolding sync_variants save_variants save_variant create_variant row_of clashes
    clear_default_variant delete_variants_except is_kept wrap32
saves_two = refl

-- A document that lets two variants exchange their SKUs is refused, though its SKUs are distinct.
abbrev exchanged : List ValidatedVariant
exchanged = variant_of 1 false (codes "B") true ∷ variant_of 2 false (codes "A") false ∷ []

exchange_refused : sync_variants 5 exchanged two_rows ≡ err conflict
unfolding sync_variants save_variants save_variant update_variant row_of clashes
    clear_default_variant delete_variants_except is_kept wrap32
exchange_refused = refl

-- JSON values as they are, and natural numbers for floats.
abbrev floats : Floats ℕ
floats = record { zero_float = 0; greater = λ a b. ltb b a; finite = λ _. true }

abbrev string_of : ApiValue ℕ → Option Text
string_of (string_value s) = some s
string_of _ = none

abbrev float_of : ApiValue ℕ → Option ℕ
float_of (number_value f) = some f
float_of _ = none

abbrev range_of : ApiValue ℕ → Option (Option ℕ × Option ℕ)
range_of (range_value a b) = some (some a, some b)
range_of _ = none

abbrev bool_of : ApiValue ℕ → Option Bool
bool_of (bool_value b) = some b
bool_of _ = none

abbrev strings_of : ApiValue ℕ → Option (List Text)
strings_of (list_value ts) = some ts
strings_of _ = none

abbrev json : Json ℕ (ApiValue ℕ)
json = record {
  string = string_of;
  float = float_of;
  range = range_of;
  bool = bool_of;
  strings = strings_of;
}

abbrev option_of : ℕ → Text → AttributeOption
option_of id value = record { id = id; value = value; label = value; swatch_hex = none }

abbrev disciplines : Attribute
disciplines = record {
  id = 4;
  key = codes "discipline";
  label = codes "Discipline";
  data_type = multi_enum;
  unit = none;
  options = option_of 1 (codes "road") ∷ option_of 2 (codes "gravel") ∷ [];
}

abbrev sent : ApiValue ℕ
sent = list_value (codes "gravel" ∷ codes "road" ∷ codes "gravel" ∷ [])

abbrev accepted : AttributeValue ℕ
accepted = record no_slots { attribute_id = 4; option_ids = 2 ∷ 1 ∷ [] }

accepts_sent : decode_value floats json disciplines sent none ≡ ok accepted
unfolding decode_value decode_slots add_tokens option_by_value new_attribute_value fits
accepts_sent = refl

own_ids : HasOwnIds disciplines.options
unfolding option_by_id
own_ids = (refl, (refl, tt))

own_tokens : HasOwnTokens disciplines.options
unfolding option_by_value
own_tokens = (refl, (refl, tt))

decode_value-api_value_example :
    (v : AttributeValue ℕ) × (decode_value floats json disciplines
        (api_value floats multi_enum disciplines.options accepted)
        none
      ≡ ok v)
    × (api_value floats multi_enum disciplines.options v
        ≡ api_value floats multi_enum disciplines.options accepted)
decode_value-api_value_example =
    decode_value-api_value floats json (λ x. x) (λ s. refl) (λ f h. refl) (λ a b h k. refl)
      (λ b. refl) (λ ts. refl) disciplines sent none accepted own_ids own_tokens accepts_sent
