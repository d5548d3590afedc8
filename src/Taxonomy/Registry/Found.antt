-- ===== src/Taxonomy/Registry/Found.antt =====
-- internal/service/schema.go: bindings whose keys and ids are their own are found by the maps of a schema.
use mathlib.Core.List.{Memᴰ}
use mathlib.Core.List.Memᴰ.{head, tail}
use mathlib.Core.Option.{some-injective}
use khans_bike.Common.{
  ℕ, [], ◌∷◌, List, Bool, true, ◌==◌, Option, none, some, ◌≡◌, refl, sym, ap, ◌∙◌, inl, inr, map,
  All, Bool-cases, Option-cases, ==→eq, ==_refl,
}
use khans_bike.Common.Keyed.{IsKey}
use khans_bike.Common.Text.{Text, text_eq, text_eq_refl, text_eq→eq}
use khans_bike.Products.Inputs.Keys.{IsSchema}
use khans_bike.Schema.Views.{CategoryAttribute, by_key, by_id, keep_last}

-- All of a list, member by member.
pub Mem-All : {A : Type 0} (P : A → Type 0) (xs : List A) → ((a : A) → Memᴰ a xs → P a) → All P xs
Mem-All P [] h = tt
Mem-All P (x ∷ xs) h = (h x (head refl), Mem-All P xs (λ a m. h a (tail m)))

pub Mem-map :
    {A B : Type 0} (f : A → B) (xs : List A) (y : B)
    → Memᴰ y (map f xs)
    → (x : A) × Memᴰ x xs × (y ≡ f x)
Mem-map f [] y m = elim m [ ]
Mem-map f (x ∷ xs) y (head same) = (x, head refl, same)
Mem-map f (x ∷ xs) y (tail m) = let (x', m', same) = Mem-map f xs y m in (x', tail m', same)

-- The last binding that a condition hits.
abbrev last_hit : (CategoryAttribute → Bool) → List CategoryAttribute → Option CategoryAttribute
last_hit p [] = none
last_hit p (b ∷ bindings) = keep_last (p b) b (last_hit p bindings)

by_id-last_hit :
    (bindings : List CategoryAttribute) (id : ℕ)
    → by_id bindings id ≡ last_hit (λ b. b.attribute.id == id) bindings
unfolding by_id
by_id-last_hit [] id = refl
by_id-last_hit (b ∷ bindings) id =
    ap (keep_last (b.attribute.id == id) b) (by_id-last_hit bindings id)

by_key-last_hit :
    (bindings : List CategoryAttribute) (key : Text)
    → by_key bindings key ≡ last_hit (λ b. text_eq b.attribute.key key) bindings
unfolding by_key
by_key-last_hit [] key = refl
by_key-last_hit (b ∷ bindings) key =
    ap (keep_last (text_eq b.attribute.key key) b) (by_key-last_hit bindings key)

last_hit-Mem :
    (p : CategoryAttribute → Bool) (bindings : List CategoryAttribute) (d : CategoryAttribute)
    → last_hit p bindings ≡ some d
    → Memᴰ d bindings × (p d ≡ true)
last_hit-Mem p [] d h = cc
last_hit-Mem p (c ∷ bindings) d h = elim (Option-cases (last_hit p bindings)) [
  | inr (e, found) ↦
      let (m, hit) = last_hit-Mem p bindings e found in
      let is : e ≡ d = some-injective _ _ (rw found at h) in rw (sym is) (tail m, hit)
  | inl missed ↦ elim (Bool-cases (p c)) [
    | inl hit ↦
        let is : c ≡ d = some-injective _ _ (rw (missed, hit) at h) in rw (sym is) (head refl, hit)
    | inr other ↦ cc (h, missed, other)
  ]
]

-- A binding whose key no other has is the last one that its key hits.
last_hit-own :
    {K : Type 0} (key : CategoryAttribute → K) (p : CategoryAttribute → Bool)
    (bindings : List CategoryAttribute) (b : CategoryAttribute)
    → IsKey key bindings
    → ((c : CategoryAttribute) → p c ≡ true → key c ≡ key b)
    → p b ≡ true
    → Memᴰ b bindings
    → last_hit p bindings ≡ some b
last_hit-own key p [] b own asks hit m = elim m [ ]
last_hit-own key p (c ∷ bindings) b own asks hit m = elim (Option-cases (last_hit p bindings)) [
  | inr (d, found) ↦
      let (there, hit') = last_hit-Mem p bindings d found in
      rw found (ap some (own d b (tail there) m (asks d hit')))
  | inl missed ↦ elim m [
    | head same ↦ rw missed (rw (ap p (sym same) ∙ hit) (ap some (sym same)))
    | tail m' ↦
        let found =
          last_hit-own key p bindings b (λ x y n o e. own x y (tail n) (tail o) e) asks hit m' in
        cc
  ]
]

module _ (bindings : List CategoryAttribute) (own : IsKey (λ b. b.attribute.id) bindings)
    (keys : IsKey (λ b. b.attribute.key) bindings) where
  pub IsKey-IsSchema : IsSchema bindings
  IsKey-IsSchema = (
    Mem-All (λ b. by_key bindings b.attribute.key ≡ some b) bindings
        (λ b m.
          by_key-last_hit bindings b.attribute.key
          ∙ last_hit-own (λ c. c.attribute.key) (λ c. text_eq c.attribute.key b.attribute.key)
              bindings b keys (λ c hit. text_eq→eq c.attribute.key b.attribute.key hit)
              (text_eq_refl b.attribute.key) m),
    Mem-All (λ b. by_id bindings b.attribute.id ≡ some b) bindings
        (λ b m.
          by_id-last_hit bindings b.attribute.id
          ∙ last_hit-own (λ c. c.attribute.id) (λ c. c.attribute.id == b.attribute.id) bindings b
              own (λ c hit. ==→eq c.attribute.id b.attribute.id hit) (==_refl b.attribute.id) m),
  )
