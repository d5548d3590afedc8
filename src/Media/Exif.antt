-- ===== src/Media/Exif.antt =====
-- internal/media/exif.go: jpegOrientation, tiffOrientation and the coordinates of orient. Bytes are
-- natural numbers; a read past the end of a slice, which panics in Go, is the error `out_of_range`.
use khans_bike.Common.{
  ℕ, zero, suc, ◌+◌, ◌-◌, ◌*◌, ◌≤◌, ◌<◌, ◌≡◌, refl, Bool, true, false, not, ◌&&◌, ◌||◌, List, [],
  ◌∷◌, arith, if◌then◌else◌, ltb, leb, ◌==◌, Result, ok, err, ◌>>=◌, length, take, drop,
}
pub mod Bounds
pub mod Turns

pub data Panic : Type 0 where
  out_of_range out_of_fuel : Panic

unfoldable pub byte_at : List ℕ → ℕ → Result Panic ℕ
byte_at [] i = err out_of_range
byte_at (b ∷ bytes) zero = ok b
byte_at (b ∷ bytes) (suc i) = byte_at bytes i

-- binary.ByteOrder; `order.Uint16(t[i:])` and `order.Uint32(t[i:])`.
pub data Order : Type 0 where
  little_endian big_endian : Order

abbrev pub pair : Order → ℕ → ℕ → ℕ
pair little_endian a b = b * 256 + a
pair big_endian a b = a * 256 + b

abbrev pub quad : Order → ℕ → ℕ → ℕ
quad little_endian a b = b * 65536 + a
quad big_endian a b = a * 65536 + b

unfoldable pub uint16 : Order → List ℕ → ℕ → Result Panic ℕ
uint16 order t i = byte_at t i >>= λ a. byte_at t (i + 1) >>= λ b. ok (pair order a b)

unfoldable pub uint32 : Order → List ℕ → ℕ → Result Panic ℕ
uint32 order t i = uint16 order t i >>= λ a. uint16 order t (i + 2) >>= λ b. ok (quad order a b)

abbrev pub orientation_tag : ℕ
orientation_tag = 0x0112

-- The value of an entry that has the tag.
unfoldable pub tag_value : ℕ → ℕ
tag_value v = if leb 1 v && leb v 8 then v else 0

-- The loop over the entries that are left, from offset `e` on.
unfoldable pub find_tag : ℕ → Order → List ℕ → ℕ → Result Panic ℕ
find_tag zero order t e = ok 0
find_tag (suc entries) order t e =
    let rest = find_tag entries order t (e + 12) in
    if ltb (length t) (e + 12)
    then ok 0
    else uint16 order t e >>= λ tag.
        if tag == orientation_tag then uint16 order t (e + 8) >>= (λ v. ok (tag_value v)) else rest

-- tiffOrientation, from the byte order on.
unfoldable pub read_ifd : Order → List ℕ → Result Panic ℕ
read_ifd order t = uint16 order t 2 >>= λ magic.
    if not (magic == 42)
    then ok 0
    else uint32 order t 4 >>= λ off.
        if ltb off 8 || ltb (length t) (off + 2)
        then ok 0
        else uint16 order t off >>= λ entries. find_tag entries order t (off + 2)

unfoldable pub tiff_orientation : List ℕ → Result Panic ℕ
tiff_orientation t =
    if ltb (length t) 8
    then ok 0
    else byte_at t 0 >>= λ a. byte_at t 1 >>= λ b.
        if a == b'I' && b == b'I'
        then read_ifd little_endian t
        else if a == b'M' && b == b'M'
        then read_ifd big_endian t
        else ok 0

unfoldable pub has_prefix : List ℕ → List ℕ → Bool
has_prefix [] bytes = true
has_prefix (p ∷ others) [] = false
has_prefix (p ∷ others) (b ∷ bytes) = p == b && has_prefix others bytes

-- "Exif\x00\x00".
abbrev pub exif_header : List ℕ
exif_header = b'E' ∷ b'x' ∷ b'i' ∷ b'f' ∷ 0 ∷ 0 ∷ []

unfoldable pub or_upright : ℕ → ℕ
or_upright o = if o == 0 then 1 else o

-- `bytes[low:high]`.
unfoldable pub slice : List ℕ → ℕ → ℕ → Result Panic (List ℕ)
slice bytes low high =
    if ltb high low || ltb (length bytes) high
    then err out_of_range
    else ok (take (high - low) (drop low bytes))

-- A segment of `len` bytes at `i + 2`; `rest` is the loop after it.
unfoldable pub read_exif : ℕ → List ℕ → Result Panic ℕ → Result Panic ℕ
read_exif marker segment rest =
    if marker == 0xE1 && has_prefix exif_header segment
    then slice segment 6 (length segment) >>= (λ t. tiff_orientation t >>= λ o. ok (or_upright o))
    else rest

unfoldable pub read_segment : List ℕ → ℕ → ℕ → ℕ → Result Panic ℕ → Result Panic ℕ
read_segment bytes i marker len rest =
    if ltb len 2 || ltb (length bytes) (i + 2 + len)
    then ok 1
    else slice bytes (i + 4) (i + 2 + len) >>= λ segment. read_exif marker segment rest

-- The switch on a marker, with the loop one byte, two bytes and a segment further on.
unfoldable pub on_marker :
    List ℕ → ℕ → ℕ → ℕ → Result Panic ℕ → Result Panic ℕ → (ℕ → Result Panic ℕ) → Result Panic ℕ
on_marker bytes i first marker fill bare next =
    if not (first == 0xFF)
    then ok 1
    else if marker == 0xFF
    then fill
    else if marker == 0xDA || marker == 0xD9
    then ok 1
    else if leb 0xD0 marker && leb marker 0xD7 || marker == 0x01
    then bare
    else uint16 big_endian bytes (i + 2) >>= λ len. read_segment bytes i marker len (next len)

-- The loop of jpegOrientation from offset `i` on; each round takes a unit of fuel.
unfoldable pub scan : ℕ → List ℕ → ℕ → Result Panic ℕ
scan zero bytes i = err out_of_fuel
scan (suc fuel) bytes i =
    let fill = scan fuel bytes (i + 1) in
    let bare = scan fuel bytes (i + 2) in
    if ltb (length bytes) (i + 4)
    then ok 1
    else byte_at bytes i >>= λ first. byte_at bytes (i + 1) >>= λ marker.
        on_marker bytes i first marker fill bare (λ len. scan fuel bytes (i + 2 + len))

unfoldable pub jpeg_orientation : List ℕ → Result Panic ℕ
jpeg_orientation bytes =
    let found = scan (length bytes) bytes 2 in
    if ltb (length bytes) 4
    then ok 1
    else byte_at bytes 0 >>= λ a.
        byte_at bytes 1 >>= λ b. if not (a == 0xFF) || not (b == 0xD8) then ok 1 else found

-- Where orient takes the pixel (x, y) of the result from, in an image of width w and height h.
unfoldable pub source_pixel : ℕ → ℕ → ℕ → ℕ → ℕ → ℕ × ℕ
source_pixel o w h x y =
    if o == 2
    then (w - 1 - x, y)
    else if o == 3
    then (w - 1 - x, h - 1 - y)
    else if o == 4
    then (x, h - 1 - y)
    else if o == 5
    then (y, x)
    else if o == 6
    then (y, h - 1 - x)
    else if o == 7
    then (w - 1 - y, h - 1 - x)
    else (w - 1 - y, x)

-- The size of the result.
unfoldable pub turned_size : ℕ → ℕ → ℕ → ℕ × ℕ
turned_size o w h = if leb 5 o then (h, w) else (w, h)
