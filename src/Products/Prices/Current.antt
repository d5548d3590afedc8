-- ===== src/Products/Prices/Current.antt =====
-- internal/service/products.go: what applyPrices makes of the price history.
use mathlib.Core.Path.{subst}
use khans_bike.Common.{
  ℕ, ◌≤◌, ◌≡◌, ◌≢◌, refl, sym, ap, ◌∙◌, inl, inr, [], ◌∷◌, List, Bool, true, false, ◌&&◌, ◌==◌,
  Option, none, some, leb, ltb, any, All, update_rows, arith, Bool-cases, Option-cases, any-All,
  any-some, update_rows-All, All-imp, All-pure, ==_refl, ==→eq, &&-eq-true,
}
use khans_bike.Common.Int.{ℤ, pos, negsuc, eq_ℤ}
use khans_bike.Common.Text.{Text, text_eq, text_eq→eq, text_eq_refl}
use khans_bike.Platform.Money.{Money, new_money}
use khans_bike.Domain.Price.{PriceTier, Price}
use khans_bike.Products.Prices.{
  tier_name, same_tier, is_price_of, later_price, current_row, money_of, current_price,
  is_same_money, is_of_today, replace_price, new_price, upsert_price,
}

-- A row that counts for a variant and tier.
abbrev counts : ℕ → ℕ → PriceTier → Price → Bool
counts today variant tier r = is_price_of variant tier r && leb r.effective_from today

abbrev IsLatest : ℕ → ℕ → PriceTier → List Price → Price → Type 0
IsLatest today variant tier rows b =
    All (λ r. counts today variant tier r ≡ true → r.effective_from ≤ b.effective_from) rows

later_price-some : (r : Price) (o : Option Price) → later_price r o ≢ none
later_price-some r none h = cc
later_price-some r (some s) h = ground arith

current_row-none :
    (today variant : ℕ) (tier : PriceTier) (rows : List Price)
    → current_row today variant tier rows ≡ none
    → All (λ r. counts today variant tier r ≡ false) rows
unfolding current_row
current_row-none today variant tier [] e = tt
current_row-none today variant tier (r ∷ rows) e = elim (Bool-cases (counts today variant tier r)) [
  | inr n ↦ (n, current_row-none today variant tier rows (ground arith))
  | inl y ↦ absurd (later_price-some r (current_row today variant tier rows) (ground arith))
]

-- What the row chosen is known to be.
abbrev IsCurrent : (Price → Type 0) → ℕ → ℕ → PriceTier → List Price → Price → Type 0
IsCurrent P today variant tier rows b =
    P b × (counts today variant tier b ≡ true) × IsLatest today variant tier rows b

-- The row chosen is one of the rows that count, and none is later.
current_row-some :
    (P : Price → Type 0) (today variant : ℕ) (tier : PriceTier) (rows : List Price) (b : Price)
    → All P rows
    → current_row today variant tier rows ≡ some b
    → IsCurrent P today variant tier rows b
unfolding current_row
current_row-some P today variant tier [] b h e = cc
current_row-some P today variant tier (r ∷ rows) b (pr, h) e =
    elim (Bool-cases (counts today variant tier r)) [
      | inr n ↦
          let (pb, cb, latest) = current_row-some P today variant tier rows b h (ground arith) in
          (pb, cb, ((λ k. cc), latest))
      | inl y ↦ elim (Option-cases (current_row today variant tier rows)) [
        | inl alone ↦
            let same : r ≡ b = ground arith in
            subst (IsCurrent P today variant tier (r ∷ rows)) same (
              pr,
              y,
              (
                (λ k. omega arith),
                All-imp (λ x. counts today variant tier x ≡ false)
                    (λ x. counts today variant tier x ≡ true → x.effective_from ≤ r.effective_from)
                    (λ x n k. cc) rows (current_row-none today variant tier rows alone),
              ),
            )
        | inr (s, other) ↦
            let (ps, cs, latest) = current_row-some P today variant tier rows s h other in
            elim (Bool-cases (ltb r.effective_from s.effective_from)) [
              | inl less ↦
                  let same : s ≡ b = ground arith in
                  subst (IsCurrent P today variant tier (r ∷ rows)) same
                    (ps, cs, ((λ k. ground arith), latest))
              | inr more ↦
                  let same : r ≡ b = ground arith in
                  subst (IsCurrent P today variant tier (r ∷ rows)) same (
                    pr,
                    y,
                    (
                      (λ k. omega arith),
                      All-imp
                          (λ x.
                            counts today variant tier x ≡ true
                            → x.effective_from ≤ s.effective_from)
                          (λ x.
                            counts today variant tier x ≡ true
                            → x.effective_from ≤ r.effective_from)
                          (λ x f k. let bound = f k in ground arith) rows latest,
                    ),
                  )
            ]
      ]
    ]

-- A row of today with the new amount decides the current price.
decided_today :
    (upper : Text → Text) (today variant : ℕ) (tier : PriceTier) (m : Money) (rows : List Price)
    → All (λ r. is_of_today today variant tier r ≡ true → r.amount ≡ m) rows
    → any (is_of_today today variant tier) rows ≡ true
    → current_price upper today rows variant tier ≡ some (new_money upper m.amount_minor m.currency)
unfolding current_price
decided_today upper today variant tier m rows h there =
    elim (Option-cases (current_row today variant tier rows)) [
      | inl gone ↦
          let (x, missed, hit) =
            any-some (λ r. counts today variant tier r ≡ false) (is_of_today today variant tier)
              rows (current_row-none today variant tier rows gone) there in
          absurd (ground arith)
      | inr (b, e) ↦
          let (amount, counted, latest) =
            current_row-some (λ r. is_of_today today variant tier r ≡ true → r.amount ≡ m) today
              variant tier rows b h e in
          let (x, bound, hit) =
            any-some (λ r. counts today variant tier r ≡ true → r.effective_from ≤ b.effective_from)
              (is_of_today today variant tier) rows latest there in
          let late : x.effective_from ≤ b.effective_from = bound (ground arith) in
          let same : b.amount ≡ m = amount (ground arith) in
          ap (money_of upper) e ∙ ap (λ a. some (new_money upper a.amount_minor a.currency)) same
    ]

-- Two prices' keys.
abbrev pub same_key : ℕ → PriceTier → ℕ → PriceTier → Bool
same_key v t v' t' = v == v' && same_tier t t'

other_key :
    (v v' : ℕ) (t t' : PriceTier) (r : Price)
    → same_key v t v' t' ≡ false
    → is_price_of v t r ≡ true
    → is_price_of v' t' r ≡ false
other_key v v' t t' r differs h = elim (Bool-cases (is_price_of v' t' r)) [
  | inr n ↦ n
  | inl y ↦
      let (at, tier) = &&-eq-true (r.variant_id == v) (same_tier r.tier t) h in
      let (at', tier') = &&-eq-true (r.variant_id == v') (same_tier r.tier t') y in
      let names : tier_name t ≡ tier_name t' = sym (text_eq→eq _ _ tier) ∙ text_eq→eq _ _ tier' in
      let hit : same_tier t t' ≡ true = rw names (text_eq_refl (tier_name t')) in
      cc (at, at', hit, differs, ==→eq r.variant_id v at, ==→eq r.variant_id v' at')
]

-- An UPDATE of rows that do not count changes no current row.
current_row-update :
    (today v v' : ℕ) (t t' : PriceTier) (m : Money) (rows : List Price)
    → same_key v t v' t' ≡ false
    → current_row today v' t' (update_rows (is_of_today today v t) (replace_price m) rows)
      ≡ current_row today v' t' rows
unfolding current_row replace_price
current_row-update today v v' t t' m [] differs = refl
current_row-update today v v' t t' m (r ∷ rows) differs =
    let rest = current_row-update today v v' t t' m rows differs in
    elim (Bool-cases (is_of_today today v t r)) [
      | inr n ↦ rw (n, rest) refl
      | inl y ↦
          let (hit, _) = &&-eq-true (is_price_of v t r) (r.effective_from == today) y in
          let miss = other_key v v' t t' r differs hit in rw y (rw (miss, rest) refl)
    ]

pub current_price-upsert :
    (upper : Text → Text) (today id v v' : ℕ) (t t' : PriceTier) (m : Money) (rows : List Price)
    → same_key v t v' t' ≡ false
    → current_price upper today (upsert_price today id v t m rows) v' t'
      ≡ current_price upper today rows v' t'
unfolding current_price upsert_price
current_price-upsert upper today id v v' t t' m rows differs =
    elim (Bool-cases (any (is_of_today today v t) rows)) [
      | inl y ↦ rw y (ap (money_of upper) (current_row-update today v v' t t' m rows differs))
      | inr n ↦ rw n (ap (money_of upper) (unfold current_row new_price in rw differs refl))
    ]

any_of_today-update :
    (today v : ℕ) (t : PriceTier) (m : Money) (rows : List Price)
    → any (is_of_today today v t) (update_rows (is_of_today today v t) (replace_price m) rows)
      ≡ any (is_of_today today v t) rows
unfolding replace_price
any_of_today-update today v t m [] = refl
any_of_today-update today v t m (r ∷ rows) = elim (Bool-cases (is_of_today today v t r)) [
  | inl y ↦ rw y (rw y refl)
  | inr n ↦ rw n (rw n (any_of_today-update today v t m rows))
]

pub upserted :
    (upper : Text → Text) (today id v : ℕ) (t : PriceTier) (m : Money) (rows : List Price)
    → current_price upper today (upsert_price today id v t m rows) v t
      ≡ some (new_money upper m.amount_minor m.currency)
unfolding upsert_price replace_price new_price
upserted upper today id v t m rows = elim (Bool-cases (any (is_of_today today v t) rows)) [
  | inl y ↦ rw y (
      decided_today upper today v t m (update_rows (is_of_today today v t) (replace_price m) rows)
        (update_rows-All (λ r. is_of_today today v t r ≡ true → r.amount ≡ m) (λ _. Unit {0})
          (is_of_today today v t) (replace_price m) rows (λ x _ hit k. refl) (λ x _ miss k. cc)
          (All-pure (λ _. Unit {0}) (λ _. tt) rows))
        (any_of_today-update today v t m rows ∙ y))
  | inr n ↦ rw n (
      decided_today upper today v t m (new_price today id v t m ∷ rows)
        (
          (λ k. refl),
          All-imp (λ r. is_of_today today v t r ≡ false)
              (λ r. is_of_today today v t r ≡ true → r.amount ≡ m) (λ x miss k. cc) rows
              (any-All (is_of_today today v t) rows n),
        )
        (rw (==_refl v, text_eq_refl (tier_name t), ==_refl today) refl))
]

eq_ℤ→eq : (a b : ℤ) → eq_ℤ a b ≡ true → a ≡ b
eq_ℤ→eq (pos a) (pos b) h = ap pos (==→eq a b h)
eq_ℤ→eq (pos a) (negsuc b) h = cc
eq_ℤ→eq (negsuc a) (pos b) h = cc
eq_ℤ→eq (negsuc a) (negsuc b) h = ap negsuc (==→eq a b h)

pub is_same_money→eq : (o : Option Money) (m : Money) → is_same_money o m ≡ true → o ≡ some m
is_same_money→eq none m h = cc
is_same_money→eq (some c) m h =
    let (amounts, currencies) =
      &&-eq-true (eq_ℤ c.amount_minor m.amount_minor) (text_eq c.currency m.currency) h in
    let a = eq_ℤ→eq c.amount_minor m.amount_minor amounts in
    let b = text_eq→eq c.currency m.currency currencies in
    ap (λ x. some (record { amount_minor = x; currency = c.currency })) a
    ∙ ap (λ x. some (record { amount_minor = m.amount_minor; currency = x })) b
