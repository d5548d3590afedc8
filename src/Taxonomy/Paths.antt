-- ===== src/Taxonomy/Paths.antt =====
-- The ltree paths of internal/service/taxonomy.go as lists of labels: the label of a slug, the text
-- of a path, and the ltree operations of MoveCategorySubtree in
-- internal/store/gen/categories.sql.go.
use khans_bike.Common.{
  ◌≡◌, refl, sym, ap, ◌∙◌, inl, inr, [], ◌∷◌, ◌++◌, List, Bool, true, false, ◌&&◌, not, ◌==◌, arith,
  if◌then◌else◌, length, drop, Bool-cases, append-nil, append_assoc,
}
use khans_bike.Common.Text.{Text, any_code, text_eq, text_eq→eq, text_eq_refl, starts_with}

abbrev pub LabelPath : Type 0
LabelPath = List Text

-- ltreeLabel.
abbrev pub ltree_label : Text → Text
ltree_label [] = []
ltree_label (c ∷ s) = (if c == b'-' then b'_' else c) ∷ ltree_label s

-- The text of a path with a dot behind it: the prefix under which its children hang.
abbrev pub path_prefix : LabelPath → Text
path_prefix [] = []
path_prefix (l ∷ p) = l ++ b'.' ∷ path_prefix p

-- `path <@ old`: the path is `old` or hangs under it.
abbrev pub is_under : LabelPath → LabelPath → Bool
is_under [] p = true
is_under (l ∷ old) [] = false
is_under (l ∷ old) (m ∷ p) = text_eq l m && is_under old p

abbrev pub path_eq : LabelPath → LabelPath → Bool
path_eq [] [] = true
path_eq (l ∷ p) (m ∷ q) = text_eq l m && path_eq p q
path_eq _ _ = false

-- The CASE of MoveCategorySubtree under its WHERE.
unfoldable pub move_path : LabelPath → LabelPath → LabelPath → LabelPath
move_path old new p =
    if is_under old p then (if path_eq p old then new else new ++ drop (length old) p) else p

-- A label with no dot in it.
abbrev pub no_dot : Text → Bool
no_dot s = not (any_code b'.' s)

abbrev pub no_dots : LabelPath → Bool
no_dots [] = true
no_dots (l ∷ p) = no_dot l && no_dots p

-- A text up to its dot.
starts_with-label :
    (l m rest more : Text)
    → no_dot l ≡ true
    → no_dot m ≡ true
    → starts_with (l ++ b'.' ∷ rest) (m ++ b'.' ∷ more) ≡ (text_eq l m && starts_with rest more)
starts_with-label [] [] rest more h k = ground arith
starts_with-label [] (d ∷ m) rest more h k = ground arith
starts_with-label (c ∷ l) [] rest more h k = ground arith
starts_with-label (c ∷ l) (d ∷ m) rest more h k = ground (arith, starts_with-label l m rest more)

pub starts_with-path_prefix :
    (old p : LabelPath)
    → no_dots old ≡ true
    → no_dots p ≡ true
    → starts_with (path_prefix old) (path_prefix p) ≡ is_under old p
starts_with-path_prefix [] p h k = refl
starts_with-path_prefix ([] ∷ old) [] h k = refl
starts_with-path_prefix ((c ∷ l) ∷ old) [] h k = refl
starts_with-path_prefix (l ∷ old) (m ∷ p) h k =
    ground (
      arith,
      starts_with-label l m (path_prefix old) (path_prefix p),
      starts_with-path_prefix old p,
    )

pub path_eq→eq : (p q : LabelPath) → path_eq p q ≡ true → p ≡ q
path_eq→eq [] [] h = refl
path_eq→eq [] (m ∷ q) h = cc
path_eq→eq (l ∷ p) [] h = cc
path_eq→eq (l ∷ p) (m ∷ q) h = ground (arith, text_eq→eq l m, path_eq→eq p q)

pub path_eq_refl : (p : LabelPath) → path_eq p p ≡ true
path_eq_refl [] = refl
path_eq_refl (l ∷ p) = ground (arith, text_eq_refl l, path_eq_refl p)

pub is_under_refl : (p : LabelPath) → is_under p p ≡ true
is_under_refl [] = refl
is_under_refl (l ∷ p) = ground (arith, text_eq_refl l, is_under_refl p)

drop_all : (p : LabelPath) → drop (length p) p ≡ []
drop_all [] = refl
drop_all (l ∷ p) = drop_all p

pub move_path_self : (old new : LabelPath) → move_path old new old ≡ new
unfolding move_path
move_path_self old new = rw (is_under_refl old, path_eq_refl old) refl

pub move_path-under :
    (old new p : LabelPath)
    → is_under old p ≡ true
    → move_path old new p ≡ new ++ drop (length old) p
unfolding move_path
move_path-under old new p h = elim (Bool-cases (path_eq p old)) [
  | inl e ↦ ground (arith, path_eq→eq p old, drop_all old, append-nil new)
  | inr n ↦ rw (h, n) refl
]

pub move_path-other : (old new p : LabelPath) → is_under old p ≡ false → move_path old new p ≡ p
unfolding move_path
move_path-other old new p h = rw h refl

-- A path that gets one more label behind it.
pub is_under-snoc :
    (old p : LabelPath) (l : Text)
    → path_eq (p ++ l ∷ []) old ≡ false
    → is_under old (p ++ l ∷ []) ≡ is_under old p
is_under-snoc [] p l h = refl
is_under-snoc (m ∷ []) [] l h = ground (arith, text_eq→eq m l, text_eq_refl l)
is_under-snoc (m ∷ n ∷ old) [] l h = ground arith
is_under-snoc (m ∷ old) (n ∷ p) l h =
    ground (arith, text_eq→eq m n, text_eq_refl n, is_under-snoc old p l)

drop-snoc :
    (old p : LabelPath) (l : Text)
    → is_under old p ≡ true
    → drop (length old) (p ++ l ∷ []) ≡ drop (length old) p ++ l ∷ []
drop-snoc [] p l h = refl
drop-snoc (m ∷ old) [] l h = cc
drop-snoc (m ∷ old) (n ∷ p) l h = ground (arith, drop-snoc old p l)

-- A path one label below another moves with it, unless it is the one that is moved.
pub move_path-snoc :
    (old new p : LabelPath) (l : Text)
    → path_eq (p ++ l ∷ []) old ≡ false
    → move_path old new (p ++ l ∷ []) ≡ move_path old new p ++ l ∷ []
move_path-snoc old new p l h = elim (Bool-cases (is_under old p)) [
  | inl y ↦
      rw
        (
          move_path-under old new (p ++ l ∷ []) (is_under-snoc old p l h ∙ y),
          move_path-under old new p y,
          drop-snoc old p l y,
        )
        (sym (append_assoc new (drop (length old) p) (l ∷ [])))
  | inr n ↦
      rw
        (
          move_path-other old new (p ++ l ∷ []) (is_under-snoc old p l h ∙ n),
          move_path-other old new p n,
        )
        refl
]

-- The last label of a path.
abbrev last_label : LabelPath → Text
last_label [] = []
last_label (l ∷ []) = l
last_label (l ∷ m ∷ p) = last_label (m ∷ p)

last_label-snoc : (p : LabelPath) (l : Text) → last_label (p ++ l ∷ []) ≡ l
last_label-snoc [] l = refl
last_label-snoc (m ∷ []) l = refl
last_label-snoc (m ∷ n ∷ p) l = last_label-snoc (n ∷ p) l

pub snoc_last : (p q : LabelPath) (l m : Text) → p ++ l ∷ [] ≡ q ++ m ∷ [] → l ≡ m
snoc_last p q l m h = sym (last_label-snoc p l) ∙ ap last_label h ∙ last_label-snoc q m

pub is_under-root : (top : LabelPath) (l : Text) → is_under (top ++ l ∷ []) [] ≡ false
is_under-root [] l = refl
is_under-root (m ∷ top) l = refl

rejoin : (old p : LabelPath) → is_under old p ≡ true → old ++ drop (length old) p ≡ p
rejoin [] p h = refl
rejoin (l ∷ old) [] h = cc
rejoin (l ∷ old) (m ∷ p) h = ground (arith, text_eq→eq l m, rejoin old p)

-- A move to the same path changes nothing.
pub move_path-same : (old new p : LabelPath) → path_eq new old ≡ true → move_path old new p ≡ p
move_path-same old new p h = elim (Bool-cases (is_under old p)) [
  | inr n ↦ move_path-other old new p n
  | inl y ↦
      move_path-under old new p y
      ∙ ap (λ q. q ++ drop (length old) p) (path_eq→eq new old h)
      ∙ rejoin old p y
]

pub no_dots-append :
    (p q : LabelPath) → no_dots p ≡ true → no_dots q ≡ true → no_dots (p ++ q) ≡ true
no_dots-append [] q h k = k
no_dots-append (l ∷ p) q h k = ground (arith, no_dots-append p q)

pub is_under-append : (old p q : LabelPath) → is_under old p ≡ true → is_under old (p ++ q) ≡ true
is_under-append [] p q h = refl
is_under-append (l ∷ old) [] q h = cc
is_under-append (l ∷ old) (m ∷ p) q h = ground (arith, is_under-append old p q)
