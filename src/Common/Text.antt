-- ===== src/Common/Text.antt =====
-- Go strings as lists of runes, with the functions of package strings that the code calls.
-- `len` counts bytes of UTF-8, so it is `byte_len` here.
use Prim.Native.Nat.{ℕ, ◌+◌}
use Prim.Native.Char.{code}
use Prim.Native.String.{String}
use mathlib.Core.Path.{◌≡◌, refl}
use mathlib.Core.Bool.{Bool, true, false, ◌&&◌, ◌||◌}
use mathlib.Core.List.{List, [], ◌∷◌}
use native.Mathlib.Omega.{arith}
use khans_bike.Common.Tests.{leb, ltb, ◌==◌, if◌then◌else◌}

abbrev pub Text : Type 0
Text = List ℕ

abbrev pub codes : String → Text
codes String.[] = []
codes (String.◌∷◌ c s) = code c ∷ codes s

-- unicode.IsSpace.
unfoldable pub is_space : ℕ → Bool
is_space c =
    c == 32
    || leb 9 c && leb c 13
    || c == 0x85
    || c == 0xA0
    || c == 0x1680
    || leb 0x2000 c && leb c 0x200A
    || c == 0x2028
    || c == 0x2029
    || c == 0x202F
    || c == 0x205F
    || c == 0x3000

-- strings.TrimLeftFunc.
abbrev pub trim_left : (ℕ → Bool) → Text → Text
trim_left cut [] = []
trim_left cut (c ∷ s) = if cut c then trim_left cut s else c ∷ s

-- strings.TrimRightFunc, which keeps a cut rune only before a kept one.
abbrev pub cons_kept : (ℕ → Bool) → ℕ → Text → Text
cons_kept cut c [] = if cut c then [] else c ∷ []
cons_kept cut c (d ∷ s) = c ∷ d ∷ s

abbrev pub trim_right : (ℕ → Bool) → Text → Text
trim_right cut [] = []
trim_right cut (c ∷ s) = cons_kept cut c (trim_right cut s)

abbrev pub trim_func : (ℕ → Bool) → Text → Text
trim_func cut s = trim_right cut (trim_left cut s)

abbrev pub trim_space : Text → Text
trim_space = trim_func is_space

-- The bytes that a rune takes in UTF-8.
abbrev pub rune_len : ℕ → ℕ
rune_len c = if ltb c 0x80 then 1 else if ltb c 0x800 then 2 else if ltb c 0x10000 then 3 else 4

abbrev pub byte_len : Text → ℕ
byte_len [] = 0
byte_len (c ∷ s) = rune_len c + byte_len s

abbrev pub text_eq : Text → Text → Bool
text_eq [] [] = true
text_eq (c ∷ s) (d ∷ t) = c == d && text_eq s t
text_eq _ _ = false

abbrev pub is_empty : Text → Bool
is_empty [] = true
is_empty (_ ∷ _) = false

pub text_eq→eq : (s t : Text) → text_eq s t ≡ true → s ≡ t
text_eq→eq [] [] h = refl
text_eq→eq [] (d ∷ t) h = cc
text_eq→eq (c ∷ s) [] h = cc
text_eq→eq (c ∷ s) (d ∷ t) h = ground (arith, text_eq→eq s t)

pub text_eq_refl : (s : Text) → text_eq s s ≡ true
text_eq_refl [] = refl
text_eq_refl (c ∷ s) = ground (arith, text_eq_refl s)

-- A character stands in a text.
abbrev pub any_code : ℕ → Text → Bool
any_code sep [] = false
any_code sep (c ∷ s) = c == sep || any_code sep s

-- strings.HasPrefix, with the prefix first.
abbrev pub starts_with : Text → Text → Bool
starts_with [] s = true
starts_with (c ∷ p) [] = false
starts_with (c ∷ p) (d ∷ s) = c == d && starts_with p s

-- strings.TrimPrefix, with the prefix first.
abbrev strip : Text → Text → Text
strip [] s = s
strip (c ∷ p) [] = []
strip (c ∷ p) (d ∷ s) = strip p s

abbrev pub trim_prefix : Text → Text → Text
trim_prefix p s = if starts_with p s then strip p s else s

-- strings.Split by one character: what stands before the first one, and the rest.
abbrev pub cons_part : ℕ → List Text → List Text
cons_part c [] = (c ∷ []) ∷ []
cons_part c (part ∷ parts) = (c ∷ part) ∷ parts

abbrev pub split_on : ℕ → Text → List Text
split_on sep [] = [] ∷ []
split_on sep (c ∷ s) =
    let parts = split_on sep s in if c == sep then [] ∷ parts else cons_part c parts

pub split_on_none : (sep : ℕ) (s : Text) → any_code sep s ≡ false → split_on sep s ≡ s ∷ []
split_on_none sep [] h = refl
split_on_none sep (c ∷ s) h = ground (arith, split_on_none sep s)
