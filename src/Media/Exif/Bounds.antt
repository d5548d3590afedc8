-- ===== src/Media/Exif/Bounds.antt =====
-- internal/media/exif.go: reading the orientation of any bytes at all.
use khans_bike.Common.{
  ℕ, zero, suc, ◌+◌, ◌-◌, ◌≤◌, ◌<◌, ◌≡◌, refl, not, ◌&&◌, ◌||◌, List, [], ◌∷◌, arith, ltb, leb,
  ◌==◌, Result, ok, length, take, drop, Bool-cases, inl, inr, &&-eq-true, true,
}
use khans_bike.Media.Exif.{
  Panic, Order, little_endian, big_endian, byte_at, uint16, uint32, tag_value, find_tag, read_ifd,
  tiff_orientation, has_prefix, exif_header, or_upright, slice, read_exif, read_segment, on_marker,
  scan, jpeg_orientation, orientation_tag, pair, quad,
}

-- A read that does not panic.
abbrev Reads : Result Panic ℕ → Type 0
Reads r = (v : ℕ) × (r ≡ ok v)

byte_at-Reads : (t : List ℕ) (i : ℕ) → i < length t → Reads (byte_at t i)
unfolding byte_at
byte_at-Reads [] i h = absurd (omega arith)
byte_at-Reads (b ∷ t) zero h = (b, refl)
byte_at-Reads (b ∷ t) (suc i) h = byte_at-Reads t i (omega arith)

uint16-Reads : (order : Order) (t : List ℕ) (i : ℕ) → i + 1 < length t → Reads (uint16 order t i)
unfolding uint16
uint16-Reads order t i h =
    let (a, ea) = byte_at-Reads t i (omega arith) in
    let (b, eb) = byte_at-Reads t (i + 1) h in (pair order a b, rw (ea, eb) refl)

uint32-Reads : (order : Order) (t : List ℕ) (i : ℕ) → i + 3 < length t → Reads (uint32 order t i)
unfolding uint32
uint32-Reads order t i h =
    let (a, ea) = uint16-Reads order t i (omega arith) in
    let (b, eb) = uint16-Reads order t (i + 2) (omega arith) in (quad order a b, rw (ea, eb) refl)

-- Zero stands for no orientation.
abbrev MayOrient : Result Panic ℕ → Type 0
MayOrient r = (v : ℕ) × (r ≡ ok v) × (v ≤ 8)

tag_value_le : (v : ℕ) → tag_value v ≤ 8
unfolding tag_value
tag_value_le v = ground arith

find_tag-MayOrient :
    (entries : ℕ) (order : Order) (t : List ℕ) (e : ℕ) → MayOrient (find_tag entries order t e)
unfolding find_tag
find_tag-MayOrient zero order t e = (0, refl, omega arith)
find_tag-MayOrient (suc entries) order t e = elim (Bool-cases (ltb (length t) (e + 12))) [
  | inl short ↦ rw short (0, refl, omega arith)
  | inr long ↦
      let (tag, et) = uint16-Reads order t e (ground arith) in
      let (v, ev) = uint16-Reads order t (e + 8) (ground arith) in
      elim (Bool-cases (tag == orientation_tag)) [
        | inl here ↦ rw (long, et, here, ev) (tag_value v, refl, tag_value_le v)
        | inr elsewhere ↦ rw (long, et, elsewhere) (find_tag-MayOrient entries order t (e + 12))
      ]
]

read_ifd-MayOrient : (order : Order) (t : List ℕ) → 8 ≤ length t → MayOrient (read_ifd order t)
unfolding read_ifd
read_ifd-MayOrient order t h =
    let (magic, em) = uint16-Reads order t 2 (omega arith) in
    let (off, eo) = uint32-Reads order t 4 (omega arith) in
    elim (Bool-cases (magic == 42)) [
      | inr other ↦ rw (em, other) (0, refl, omega arith)
      | inl same ↦ elim (Bool-cases (ltb off 8 || ltb (length t) (off + 2))) [
        | inl outside ↦ rw (em, same, eo, outside) (0, refl, omega arith)
        | inr inside ↦
            let (entries, ee) = uint16-Reads order t off (ground arith) in
            rw (em, same, eo, inside, ee) (find_tag-MayOrient entries order t (off + 2))
      ]
    ]

tiff_orientation-MayOrient : (t : List ℕ) → MayOrient (tiff_orientation t)
unfolding tiff_orientation
tiff_orientation-MayOrient t = elim (Bool-cases (ltb (length t) 8)) [
  | inl short ↦ rw short (0, refl, omega arith)
  | inr long ↦
      let (a, ea) = byte_at-Reads t 0 (ground arith) in
      let (b, eb) = byte_at-Reads t 1 (ground arith) in
      elim (Bool-cases (a == b'I' && b == b'I')) [
        | inl little ↦ rw (long, ea, eb, little) (read_ifd-MayOrient little_endian t (ground arith))
        | inr other ↦ elim (Bool-cases (a == b'M' && b == b'M')) [
          | inl big ↦ rw (long, ea, eb, other, big) (read_ifd-MayOrient big_endian t (ground arith))
          | inr neither ↦ rw (long, ea, eb, other, neither) (0, refl, omega arith)
        ]
      ]
]

-- An orientation was found, without a panic and within the fuel.
abbrev pub Orients : Result Panic ℕ → Type 0
Orients r = (v : ℕ) × (r ≡ ok v) × (1 ≤ v) × (v ≤ 8)

upright : Orients (ok 1)
upright = (1, refl, omega arith, omega arith)

or_upright_bounds : (o : ℕ) → o ≤ 8 → (1 ≤ or_upright o) × (or_upright o ≤ 8)
unfolding or_upright
or_upright_bounds o h = ground arith

slice-within :
    (bytes : List ℕ) (low high : ℕ)
    → low ≤ high
    → high ≤ length bytes
    → slice bytes low high ≡ ok (take (high - low) (drop low bytes))
unfolding slice
slice-within bytes low high order inside = ground arith

has_prefix-length : (p bytes : List ℕ) → has_prefix p bytes ≡ true → length p ≤ length bytes
unfolding has_prefix
has_prefix-length [] bytes h = omega arith
has_prefix-length (q ∷ p) [] h = cc
has_prefix-length (q ∷ p) (b ∷ bytes) h = ground (arith, has_prefix-length p bytes)

read_exif-Orients :
    (marker : ℕ) (segment : List ℕ) (rest : Result Panic ℕ)
    → Orients rest
    → Orients (read_exif marker segment rest)
unfolding read_exif
read_exif-Orients marker segment rest more =
    elim (Bool-cases (marker == 0xE1 && has_prefix exif_header segment)) [
      | inr other ↦ rw other more
      | inl exif ↦
          let six : 6 ≤ length segment =
            has_prefix-length exif_header segment
              (&&-eq-true (marker == 0xE1) (has_prefix exif_header segment) exif).1 in
          let (o, eo, bound) =
            tiff_orientation-MayOrient (take (length segment - 6) (drop 6 segment)) in
          let (low, high) = or_upright_bounds o bound in
          rw (exif, slice-within segment 6 (length segment) six (omega arith), eo)
            (or_upright o, refl, low, high)
    ]

read_segment-Orients :
    (bytes : List ℕ) (i marker len : ℕ) (rest : Result Panic ℕ)
    → (2 ≤ len → i + 2 + len ≤ length bytes → Orients rest)
    → Orients (read_segment bytes i marker len rest)
unfolding read_segment
read_segment-Orients bytes i marker len rest more =
    elim (Bool-cases (ltb len 2 || ltb (length bytes) (i + 2 + len))) [
      | inl outside ↦ rw outside upright
      | inr inside ↦
          let two : 2 ≤ len = ground (arith, inside) in
          let fits : i + 2 + len ≤ length bytes = ground (arith, inside) in
          rw (inside, slice-within bytes (i + 4) (i + 2 + len) (omega arith) fits)
            (read_exif-Orients marker _ rest (more two fits))
    ]

on_marker-Orients :
    (bytes : List ℕ) (i first marker : ℕ) (fill bare : Result Panic ℕ) (next : ℕ → Result Panic ℕ)
    → i + 3 < length bytes
    → Orients fill
    → Orients bare
    → ((len : ℕ) → 2 ≤ len → i + 2 + len ≤ length bytes → Orients (next len))
    → Orients (on_marker bytes i first marker fill bare next)
unfolding on_marker
on_marker-Orients bytes i first marker fill bare next h a b c =
    let (len, el) = uint16-Reads big_endian bytes (i + 2) (omega arith) in
    elim (Bool-cases (first == 0xFF)) [
      | inr other ↦ rw other upright
      | inl start ↦ elim (Bool-cases (marker == 0xFF)) [
        | inl fills ↦ rw (start, fills) a
        | inr no_fill ↦ elim (Bool-cases (marker == 0xDA || marker == 0xD9)) [
          | inl ends ↦ rw (start, no_fill, ends) upright
          | inr goes ↦ elim (Bool-cases (leb 0xD0 marker && leb marker 0xD7 || marker == 0x01)) [
            | inl bare_marker ↦ rw (start, no_fill, goes, bare_marker) b
            | inr sized ↦
                rw (start, no_fill, goes, sized, el)
                  (read_segment-Orients bytes i marker len (next len) (c len))
          ]
        ]
      ]
    ]

scan-Orients :
    (fuel : ℕ) (bytes : List ℕ) (i : ℕ)
    → i ≤ length bytes
    → length bytes < fuel + i
    → Orients (scan fuel bytes i)
unfolding scan
scan-Orients zero bytes i inside h = absurd (omega arith)
scan-Orients (suc fuel) bytes i inside h = elim (Bool-cases (ltb (length bytes) (i + 4))) [
  | inl short ↦ rw short upright
  | inr long ↦
      let (first, ef) = byte_at-Reads bytes i (ground arith) in
      let (marker, em) = byte_at-Reads bytes (i + 1) (ground arith) in
      rw (long, ef, em)
        (on_marker-Orients bytes i first marker (scan fuel bytes (i + 1)) (scan fuel bytes (i + 2))
          (λ len. scan fuel bytes (i + 2 + len)) (ground arith)
          (scan-Orients fuel bytes (i + 1) (ground arith) (omega arith))
          (scan-Orients fuel bytes (i + 2) (ground arith) (omega arith))
          (λ len two fits. scan-Orients fuel bytes (i + 2 + len) fits (omega arith)))
]

-- On any bytes, jpegOrientation ends within as many rounds as there are bytes, never reads past the
-- end of a slice, and answers with an orientation from 1 to 8.
pub jpeg_orientation-Orients : (bytes : List ℕ) → Orients (jpeg_orientation bytes)
unfolding jpeg_orientation
jpeg_orientation-Orients bytes = elim (Bool-cases (ltb (length bytes) 4)) [
  | inl short ↦ rw short upright
  | inr long ↦
      let (a, ea) = byte_at-Reads bytes 0 (ground arith) in
      let (b, eb) = byte_at-Reads bytes 1 (ground arith) in
      elim (Bool-cases (not (a == 0xFF) || not (b == 0xD8))) [
        | inl other ↦ rw (long, ea, eb, other) upright
        | inr jpeg ↦
            rw (long, ea, eb, jpeg)
              (scan-Orients (length bytes) bytes 2 (ground arith) (omega arith))
      ]
]
