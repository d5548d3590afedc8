-- ===== src/Service/Cards.antt =====
-- internal/service/listing.go: the card aggregates of enrichSummaries. The maps from product ids to
-- summaries are functions; the rows are what the batch queries answer.
use mathlib.Core.List.{Memᴰ}
use mathlib.Core.Path.{subst}
use native.Mathlib.Nat.{le_refl, le_trans}
use khans_bike.Common.{
  All, length, ℕ, ◌+◌, ◌≤◌, ◌≡◌, refl, sym, ◌∙◌, ◌⊎◌, inl, inr, Bool, true, false, not, ◌||◌, List,
  [], ◌∷◌, arith, ltb, ◌==◌, if◌then◌else◌,
}
use khans_bike.Domain.Status.{StockStatus, in_stock, low, out, special_order, unknown, other_stock}

-- availabilityRank; a status that is not in the map reads as 0.
unfoldable pub availability_rank : StockStatus → ℕ
availability_rank in_stock = 0
availability_rank low = 1
availability_rank special_order = 2
availability_rank unknown = 3
availability_rank out = 4
availability_rank (other_stock _) = 0

pub record StockRow : Type 0 where
  pub product_id : ℕ
  pub stock_status : StockStatus

-- The fields of a ProductSummary that the stock loop writes, and `seen`.
pub record Card : Type 0 where
  pub availability : StockStatus
  pub variant_count : ℕ
  pub seen : Bool

unfoldable pub new_card : Card
new_card = record { availability = unknown; variant_count = 0; seen = false }

-- The body of the loop, on the summary of the row's product.
unfoldable pub count_variant : StockStatus → Card → Card
count_variant st s = record {
  availability =
      if not s.seen || ltb (availability_rank st) (availability_rank s.availability)
      then st
      else s.availability;
  variant_count = s.variant_count + 1;
  seen = true;
}

unfoldable pub count_variants : List StockRow → (ℕ → Card) → ℕ → Card
count_variants [] cards = cards
count_variants (r ∷ rows) cards =
    count_variants rows
      (λ p. if r.product_id == p then count_variant r.stock_status (cards p) else cards p)

-- The statuses of one product's variants, in the rows' order.
unfoldable pub stock_of : ℕ → List StockRow → List StockStatus
stock_of p [] = []
stock_of p (r ∷ rows) =
    let rest = stock_of p rows in if r.product_id == p then r.stock_status ∷ rest else rest

count_all : List StockStatus → Card → Card
count_all [] c = c
count_all (st ∷ sts) c = count_all sts (count_variant st c)

count_variants-count_all :
    (rows : List StockRow) (cards : ℕ → Card) (p : ℕ)
    → count_variants rows cards p ≡ count_all (stock_of p rows) (cards p)
unfolding count_variants count_all stock_of
count_variants-count_all [] cards p = refl
count_variants-count_all (r ∷ rows) cards p =
    count_variants-count_all rows _ p ∙ by_test (r.product_id == p)
  where
    by_test :
        (b : Bool)
        → count_all
            (stock_of p rows)
            (if b then count_variant r.stock_status (cards p) else cards p)
          ≡ count_all (if b then r.stock_status ∷ stock_of p rows else stock_of p rows) (cards p)
    by_test true = refl
    by_test false = refl

module _ (st : StockStatus) (c : Card) where
  counted-le : availability_rank (count_variant st c).availability ≤ availability_rank st
  unfolding count_variant
  counted-le = ground arith

  counted-le_before :
      c.seen ≡ true
      → availability_rank (count_variant st c).availability ≤ availability_rank c.availability
  unfolding count_variant
  counted-le_before h = ground arith

  counted-either :
      ((count_variant st c).availability ≡ st)
      ⊎ (c.seen ≡ true) × ((count_variant st c).availability ≡ c.availability)
  unfolding count_variant
  counted-either = ground arith

  counted-count : (count_variant st c).variant_count ≡ c.variant_count + 1
  unfolding count_variant
  counted-count = refl

  counted-seen : (count_variant st c).seen ≡ true
  unfolding count_variant
  counted-seen = refl

-- What a card that has seen a variant says after more statuses.
record Extends (sts : List StockStatus) (c r : Card) : Type 0 where
  best : availability_rank r.availability ≤ availability_rank c.availability
  best_of : All (λ st. availability_rank r.availability ≤ availability_rank st) sts
  taken : (r.availability ≡ c.availability) ⊎ Memᴰ r.availability sts
  counted : r.variant_count ≡ c.variant_count + length sts

count_all-Extends :
    (sts : List StockStatus) (c : Card) → c.seen ≡ true → Extends sts c (count_all sts c)
unfolding count_all
count_all-Extends [] c h = record {
  best = le_refl _;
  best_of = tt;
  taken = inl refl;
  counted = omega arith;
}
count_all-Extends (st ∷ sts) c h =
    let c' = count_variant st c in
    let e = count_all-Extends sts c' (counted-seen st c) in
    record {
      best = le_trans e.best (counted-le_before st c h);
      best_of = (le_trans e.best (counted-le st c), e.best_of);
      taken = taken_from e.taken (counted-either st c);
      counted = omega (arith, e.counted, counted-count st c);
    }
  where
    taken_from :
        ((count_all sts (count_variant st c)).availability ≡ (count_variant st c).availability)
          ⊎ Memᴰ (count_all sts (count_variant st c)).availability sts
        → ((count_variant st c).availability ≡ st)
          ⊎ (c.seen ≡ true) × ((count_variant st c).availability ≡ c.availability)
        → ((count_all sts (count_variant st c)).availability ≡ c.availability)
          ⊎ Memᴰ (count_all sts (count_variant st c)).availability (st ∷ sts)
    taken_from (inr m) _ = inr (Memᴰ.tail m)
    taken_from (inl e) (inl k) = inr (Memᴰ.head (e ∙ k))
    taken_from (inl e) (inr k) = inl (e ∙ k.1)

-- What a card says of a product's variants: how many there are, and the best of their statuses, which
-- is `unknown` for a product without variants.
abbrev pub Summarises : List StockStatus → Card → Type 0
Summarises sts c =
    (c.variant_count ≡ length sts)
    × All (λ st. availability_rank c.availability ≤ availability_rank st) sts
    × ((sts ≡ []) × (c.availability ≡ unknown) ⊎ Memᴰ c.availability sts)

count_all-Summarises : (sts : List StockStatus) → Summarises sts (count_all sts new_card)
unfolding count_all new_card
count_all-Summarises [] = (refl, tt, inl (refl, refl))
count_all-Summarises (st ∷ sts) =
    let c = count_variant st new_card in
    let e = count_all-Extends sts c (counted-seen st new_card) in
    (
      omega (arith, e.counted, counted-count st new_card),
      (le_trans e.best (counted-le st new_card), e.best_of),
      inr (from e.taken (counted-either st new_card)),
    )
  where
    from :
        ((count_all sts (count_variant st new_card)).availability
            ≡ (count_variant st new_card).availability)
          ⊎ Memᴰ (count_all sts (count_variant st new_card)).availability sts
        → ((count_variant st new_card).availability ≡ st)
          ⊎ (new_card.seen ≡ true)
            × ((count_variant st new_card).availability ≡ new_card.availability)
        → Memᴰ (count_all sts (count_variant st new_card)).availability (st ∷ sts)
    from (inr m) _ = Memᴰ.tail m
    from (inl e) (inl k) = Memᴰ.head (e ∙ k)
    from (inl e) (inr k) = cc (k.0)

-- After the loop over all rows, each product's card summarises its own variants.
pub count_variants-Summarises :
    (rows : List StockRow) (p : ℕ)
    → Summarises (stock_of p rows) (count_variants rows (λ _. new_card) p)
count_variants-Summarises rows p =
    subst (Summarises (stock_of p rows)) (sym (count_variants-count_all rows (λ _. new_card) p))
      (count_all-Summarises (stock_of p rows))
