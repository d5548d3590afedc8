-- ===== src/Products/Prices/Recorded.antt =====
-- internal/service/products.go: the prices of a document after applyPrices, and those of other variants.
use khans_bike.Common.{
  ℕ, ◌≡◌, refl, sym, ap, ◌∙◌, inl, inr, [], ◌∷◌, List, true, false, ◌==◌, Option, some,
  if◌then◌else◌, any, All, All-imp, All-pure, update_rows, delete_rows, Bool-cases, &&-eq-true,
  ==_refl,
}
use khans_bike.Common.Text.{Text, text_eq→eq, text_eq_refl}
use khans_bike.Platform.Money.{Money, new_money}
use khans_bike.Domain.Price.{PriceTier, Price}
use khans_bike.Products.Prices.{
  tier_name, same_tier, current_price, is_same_money, is_price_of, is_of_today, replace_price,
  new_price, upsert_price, apply_prices,
}
use khans_bike.Products.Prices.Current.{same_key, current_price-upsert, upserted, is_same_money→eq}

-- A map of prices has one entry per tier.
abbrev pub HasDistinctTiers : List (PriceTier × Money) → Type 0
HasDistinctTiers [] = Unit
HasDistinctTiers (p ∷ prices) =
    All (λ q. same_tier q.0 p.0 ≡ false) prices × HasDistinctTiers prices

-- The rows with other dates than today's.
abbrev pub other_days : ℕ → List Price → List Price
other_days today rows = delete_rows (λ r. r.effective_from == today) rows

other_days-update :
    (today v : ℕ) (t : PriceTier) (m : Money) (rows : List Price)
    → other_days today (update_rows (is_of_today today v t) (replace_price m) rows)
      ≡ other_days today rows
unfolding replace_price
other_days-update today v t m [] = refl
other_days-update today v t m (r ∷ rows) =
    let rest = other_days-update today v t m rows in
    elim (Bool-cases (is_of_today today v t r)) [
      | inl y ↦
          let (_, day) = &&-eq-true (is_price_of v t r) (r.effective_from == today) y in
          rw (y, day) rest
      | inr n ↦ rw (n, rest) refl
    ]

other_days-upsert :
    (today id v : ℕ) (t : PriceTier) (m : Money) (rows : List Price)
    → other_days today (upsert_price today id v t m rows) ≡ other_days today rows
unfolding upsert_price new_price
other_days-upsert today id v t m rows = elim (Bool-cases (any (is_of_today today v t) rows)) [
  | inl y ↦ rw y (other_days-update today v t m rows)
  | inr n ↦ rw n (rw (==_refl today) refl)
]

All-both :
    {A : Type 0} (P Q R : A → Type 0)
    → ((x : A) → P x → Q x → R x)
    → (xs : List A) → All P xs
    → All Q xs
    → All R xs
All-both P Q R f [] hp hq = tt
All-both P Q R f (x ∷ xs) (px, hp) (qx, hq) = (f x px qx, All-both P Q R f xs hp hq)

module _ (upper : Text → Text) (new_id : PriceTier → ℕ) (today v : ℕ) where
  -- The table after one entry of the map.
  abbrev recorded : PriceTier → Money → (PriceTier → Option Money) → List Price → List Price
  recorded t m current rows =
      if is_same_money (current t) m then rows else upsert_price today (new_id t) v t m rows

  recorded-others :
      (t : PriceTier) (m : Money) (current : PriceTier → Option Money) (rows : List Price) (v' : ℕ)
      (t' : PriceTier)
      → same_key v t v' t' ≡ false
      → current_price upper today (recorded t m current rows) v' t'
        ≡ current_price upper today rows v' t'
  recorded-others t m current rows v' t' differs = elim (Bool-cases (is_same_money (current t) m)) [
    | inl y ↦ rw y refl
    | inr n ↦ rw n (current_price-upsert upper today (new_id t) v v' t t' m rows differs)
  ]

  apply_prices-others :
      (prices : List (PriceTier × Money)) (current : PriceTier → Option Money) (rows : List Price)
      (v' : ℕ) (t' : PriceTier)
      → All (λ p. same_key v p.0 v' t' ≡ false) prices
      → current_price upper today (apply_prices new_id today v current prices rows) v' t'
        ≡ current_price upper today rows v' t'
  unfolding apply_prices
  apply_prices-others [] current rows v' t' h = refl
  apply_prices-others ((t, m) ∷ prices) current rows v' t' (differs, h) =
      apply_prices-others prices current _ v' t' h ∙ recorded-others t m current rows v' t' differs

  recorded-own :
      (t : PriceTier) (m : Money) (current : PriceTier → Option Money) (rows : List Price)
      → new_money upper m.amount_minor m.currency ≡ m
      → current t ≡ current_price upper today rows v t
      → current_price upper today (recorded t m current rows) v t ≡ some m
  recorded-own t m current rows normal snapshot = elim (Bool-cases (is_same_money (current t) m)) [
    | inl y ↦ rw y (sym snapshot ∙ is_same_money→eq (current t) m y)
    | inr n ↦ rw n (upserted upper today (new_id t) v t m rows ∙ ap some normal)
  ]

  tiers_differ : (t t' : PriceTier) → same_tier t' t ≡ false → same_key v t v t' ≡ false
  tiers_differ t t' h = elim (Bool-cases (same_tier t t')) [
    | inr n ↦ rw (==_refl v) n
    | inl y ↦
        let names = text_eq→eq (tier_name t) (tier_name t') y in
        let hit : same_tier t' t ≡ true = rw names (text_eq_refl (tier_name t')) in cc
  ]

  All-current :
      (prices : List (PriceTier × Money)) (current : PriceTier → Option Money) (rows : List Price)
      → HasDistinctTiers prices
      → All (λ p. new_money upper p.1.amount_minor p.1.currency ≡ p.1) prices
      → All (λ p. current p.0 ≡ current_price upper today rows v p.0) prices
      → All
          (λ p.
            current_price upper today (apply_prices new_id today v current prices rows) v p.0
            ≡ some p.1)
          prices
  unfolding apply_prices
  All-current [] current rows distinct normal snapshot = tt
  All-current ((t, m) ∷ prices) current rows (others, distinct) (normal, normals) (own, snapshot) =
      let rows' = recorded t m current rows in
      let differs =
        All-imp (λ q. same_tier q.0 t ≡ false) (λ q. same_key v t v q.0 ≡ false)
          (λ q h. tiers_differ t q.0 h) prices others in
      let back =
        All-imp (λ q. same_tier q.0 t ≡ false) (λ q. same_key v q.0 v t ≡ false)
          (λ q h. rw (==_refl v) h) prices others in
      let snapshot' =
        All-both (λ q. current q.0 ≡ current_price upper today rows v q.0)
          (λ q. same_key v t v q.0 ≡ false)
          (λ q. current q.0 ≡ current_price upper today rows' v q.0)
          (λ q e d. e ∙ sym (recorded-others t m current rows v q.0 d)) prices snapshot differs in
      (
        apply_prices-others prices current _ v t back ∙ recorded-own t m current rows normal own,
        All-current prices current rows' distinct normals snapshot',
      )

  same_history :
      (prices : List (PriceTier × Money)) (current : PriceTier → Option Money) (rows : List Price)
      → other_days today (apply_prices new_id today v current prices rows) ≡ other_days today rows
  unfolding apply_prices
  same_history [] current rows = refl
  same_history ((t, m) ∷ prices) current rows = elim (Bool-cases (is_same_money (current t) m)) [
    | inl y ↦ rw y (same_history prices current rows)
    | inr n ↦ rw n (same_history prices current _ ∙ other_days-upsert today (new_id t) v t m rows)
  ]

  -- For prices with one entry per tier and currencies as ParseMoney writes them: afterwards each is the
  -- current price of its tier, every other tier and variant has the current price that it had, and no
  -- price of another day is lost or changed.
  pub apply_prices-current :
      (prices : List (PriceTier × Money)) (rows : List Price)
      → HasDistinctTiers prices
      → All (λ p. new_money upper p.1.amount_minor p.1.currency ≡ p.1) prices
      → let rows' = apply_prices new_id today v (current_price upper today rows v) prices rows in
        All (λ p. current_price upper today rows' v p.0 ≡ some p.1) prices
        × ((v' : ℕ) (t' : PriceTier)
            → All (λ p. same_key v p.0 v' t' ≡ false) prices
            → current_price upper today rows' v' t' ≡ current_price upper today rows v' t')
        × (other_days today rows' ≡ other_days today rows)
  apply_prices-current prices rows distinct normal =
      let current = current_price upper today rows v in
      (
        All-current prices current rows distinct normal
            (All-pure (λ p. current p.0 ≡ current_price upper today rows v p.0) (λ p. refl) prices),
        (λ v' t' h. apply_prices-others prices current rows v' t' h),
        same_history prices current rows,
      )
