-- ===== src/Common/Keyed.antt =====
-- Keys of tables: no two rows of a table share a key, whatever is inserted, updated and deleted; and
-- the rows of an ORDER BY.
use mathlib.Core.List.{List, [], ◌∷◌, Memᴰ}
use mathlib.Core.List.Memᴰ.{head, tail}
use mathlib.Core.Path.{◌≡◌, refl, sym, ap, ◌∙◌}
use mathlib.Core.Logic.{inl, inr}
use mathlib.Core.Option.{some, some-injective}
use mathlib.Core.Bool.{Bool, true, false}
use khans_bike.Common.Tests.{if◌then◌else◌, Bool-cases}
use khans_bike.Common.Lists.{any}
use khans_bike.Common.Tables.{find_row, update_rows, delete_rows}

module _ {ℓ} {A : Type ℓ} where
  -- A row of an updated table is a row of the table, updated if it is hit.
  pub Mem-update_rows :
      (p : A → Bool) (f : A → A) (xs : List A) (y : A)
      → Memᴰ y (update_rows p f xs)
      → (x : A) × Memᴰ x xs × (y ≡ (if p x then f x else x))
  Mem-update_rows p f [] y m = elim m [ ]
  Mem-update_rows p f (x ∷ xs) y (head same) = (x, head refl, same)
  Mem-update_rows p f (x ∷ xs) y (tail m) =
      let (x', m', same) = Mem-update_rows p f xs y m in (x', tail m', same)

  pub Mem-delete_rows :
      (p : A → Bool) (xs : List A) (y : A) → Memᴰ y (delete_rows p xs) → Memᴰ y xs × (p y ≡ false)
  Mem-delete_rows p [] y m = elim m [ ]
  Mem-delete_rows p (x ∷ xs) y m = elim (Bool-cases (p x)) [
    | inl hit ↦ let (m', kept) = Mem-delete_rows p xs y (rw hit at m) in (tail m', kept)
    | inr miss ↦ elim (rw miss at m) [
      | head same ↦ (head same, ap p same ∙ miss)
      | tail m' ↦ let (m'', kept) = Mem-delete_rows p xs y m' in (tail m'', kept)
    ]
  ]

  -- A row that an UPDATE does not hit, or hits, stands in the table afterwards.
  pub update_rows-Mem :
      (p : A → Bool) (f : A → A) (xs : List A) (x : A)
      → Memᴰ x xs
      → Memᴰ (if p x then f x else x) (update_rows p f xs)
  update_rows-Mem p f [] x m = elim m [ ]
  update_rows-Mem p f (y ∷ ys) x (head same) = head (ap (λ z. if p z then f z else z) same)
  update_rows-Mem p f (y ∷ ys) x (tail m) = tail (update_rows-Mem p f ys x m)

  pub delete_rows-Mem :
      (p : A → Bool) (xs : List A) (x : A) → Memᴰ x xs → p x ≡ false → Memᴰ x (delete_rows p xs)
  delete_rows-Mem p [] x m kept = elim m [ ]
  delete_rows-Mem p (y ∷ ys) x (head same) kept = rw (ap p (sym same) ∙ kept) (head same)
  delete_rows-Mem p (y ∷ ys) x (tail m) kept = elim (Bool-cases (p y)) [
    | inl hit ↦ rw hit (delete_rows-Mem p ys x m kept)
    | inr miss ↦ rw miss (tail (delete_rows-Mem p ys x m kept))
  ]

-- ORDER BY: insertion in the order of a comparison, before rows that are not before it.
module _ {ℓ} {A : Type ℓ} (before : A → A → Bool) where
  abbrev pub insert_row : A → List A → List A
  insert_row x [] = x ∷ []
  insert_row x (y ∷ ys) = let rest = insert_row x ys in if before y x then y ∷ rest else x ∷ y ∷ ys

  abbrev pub sort_rows : List A → List A
  sort_rows [] = []
  sort_rows (x ∷ xs) = insert_row x (sort_rows xs)

  Mem-insert_row : (x : A) (ys : List A) (z : A) → Memᴰ z (insert_row x ys) → Memᴰ z (x ∷ ys)
  Mem-insert_row x [] z m = m
  Mem-insert_row x (y ∷ ys) z m = elim (Bool-cases (before y x)) [
    | inl later ↦ elim (rw later at m) [
      | head same ↦ tail (head same)
      | tail m' ↦ elim (Mem-insert_row x ys z m') [
        | head same ↦ head same
        | tail m'' ↦ tail (tail m'')
      ]
    ]
    | inr here ↦ rw here at m
  ]

  pub Mem-sort_rows : (xs : List A) (z : A) → Memᴰ z (sort_rows xs) → Memᴰ z xs
  Mem-sort_rows [] z m = m
  Mem-sort_rows (x ∷ xs) z m = elim (Mem-insert_row x (sort_rows xs) z m) [
    | head same ↦ head same
    | tail m' ↦ tail (Mem-sort_rows xs z m')
  ]

-- A key that no two rows share.
module _ {ℓ κ} {A : Type ℓ} {K : Type κ} (key : A → K) where
  abbrev pub IsKey : List A → Type (ℓ ⊔ κ)
  IsKey xs = (a b : A) → Memᴰ a xs → Memᴰ b xs → key a ≡ key b → a ≡ b

  pub IsKey-cons :
      (x : A) (xs : List A) → IsKey xs → ((a : A) → Memᴰ a xs → key a ≡ key x → ⊥) → IsKey (x ∷ xs)
  IsKey-cons x xs own other a b (head p) (head q) same = p ∙ sym q
  IsKey-cons x xs own other a b (head p) (tail n) same = absurd (other b n (sym same ∙ ap key p))
  IsKey-cons x xs own other a b (tail m) (head q) same = absurd (other a m (same ∙ ap key q))
  IsKey-cons x xs own other a b (tail m) (tail n) same = own a b m n same

  -- An UPDATE that leaves the key alone.
  key_stays :
      (p : A → Bool) (f : A → A)
      → ((x : A) → key (f x) ≡ key x)
      → (x : A) → key (if p x then f x else x) ≡ key x
  key_stays p f same x = elim (Bool-cases (p x)) [
    | inl hit ↦ rw hit (same x)
    | inr miss ↦ rw miss refl
  ]

  pub IsKey-update_rows :
      (p : A → Bool) (f : A → A)
      → ((x : A) → key (f x) ≡ key x)
      → (xs : List A) → IsKey xs
      → IsKey (update_rows p f xs)
  IsKey-update_rows p f same xs own a b m n keys =
      let (x, mx, ex) = Mem-update_rows p f xs a m in
      let (y, ny, ey) = Mem-update_rows p f xs b n in
      let one =
        own x y mx ny
          (sym (ap key ex ∙ key_stays p f same x) ∙ keys ∙ ap key ey ∙ key_stays p f same y) in
      ex ∙ ap (λ z. if p z then f z else z) one ∙ sym ey

  pub IsKey-delete_rows : (p : A → Bool) (xs : List A) → IsKey xs → IsKey (delete_rows p xs)
  IsKey-delete_rows p xs own a b m n same =
      own a b (Mem-delete_rows p xs a m).0 (Mem-delete_rows p xs b n).0 same

-- What EXISTS and a SELECT by a condition find.
module _ {ℓ} {A : Type ℓ} (p : A → Bool) where
  pub any-Mem : (xs : List A) (a : A) → any p xs ≡ false → Memᴰ a xs → p a ≡ false
  any-Mem [] a h m = elim m [ ]
  any-Mem (x ∷ xs) a h m = elim (Bool-cases (p x)) [
    | inl hit ↦ cc
    | inr miss ↦ elim m [ head same ↦ ap p same ∙ miss | tail m' ↦ any-Mem xs a (rw miss at h) m' ]
  ]

  pub any-Mem-some : (xs : List A) → any p xs ≡ true → (a : A) × Memᴰ a xs × (p a ≡ true)
  any-Mem-some [] h = cc
  any-Mem-some (x ∷ xs) h = elim (Bool-cases (p x)) [
    | inl hit ↦ (x, head refl, hit)
    | inr miss ↦ let (a, m, hit) = any-Mem-some xs (rw miss at h) in (a, tail m, hit)
  ]

  pub find_row-Mem : (xs : List A) (a : A) → find_row p xs ≡ some a → Memᴰ a xs × (p a ≡ true)
  find_row-Mem [] a h = cc
  find_row-Mem (x ∷ xs) a h = elim (Bool-cases (p x)) [
    | inl hit ↦
        let same = some-injective _ _ (rw hit at h) in (head (sym same), ap p (sym same) ∙ hit)
    | inr miss ↦ let (m, hit) = find_row-Mem xs a (rw miss at h) in (tail m, hit)
  ]

  -- A row whose key the condition asks for is the one that it finds.
  pub find_row-own {κ} :
      {K : Type κ} (key : A → K) (xs : List A) (a : A)
      → IsKey key xs
      → ((x : A) → p x ≡ true → key x ≡ key a)
      → p a ≡ true
      → Memᴰ a xs
      → find_row p xs ≡ some a
  find_row-own key [] a own asks hit m = elim m [ ]
  find_row-own key (x ∷ xs) a own asks hit m = elim (Bool-cases (p x)) [
    | inl found ↦ rw found (ap some (own x a (head refl) m (asks x found)))
    | inr miss ↦ elim m [
      | head same ↦ cc
      | tail m' ↦
          rw miss
            (find_row-own key xs a (λ b c n o same. own b c (tail n) (tail o) same) asks hit m')
    ]
  ]
