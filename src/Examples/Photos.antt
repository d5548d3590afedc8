-- ===== src/Examples/Photos.antt =====
-- A JPEG that carries an orientation, and the theorems on photos at it.
use khans_bike.Common.{ℕ, ◌<◌, ◌≡◌, refl, List, [], ◌∷◌, ◌++◌, arith, ok}
use khans_bike.Media.Exif.{
  jpeg_orientation, source_pixel, turned_size, exif_header, scan, on_marker, slice, read_exif,
  read_segment, tiff_orientation, read_ifd, find_tag, uint16, uint32, byte_at, has_prefix,
  or_upright, tag_value,
}
use khans_bike.Media.Exif.Bounds.{Orients, jpeg_orientation-Orients}
use khans_bike.Media.Exif.Turns.{source_pixel-turn_back, turn_back}

-- One directory with one entry: orientation 6.
abbrev tiff : List ℕ
tiff =
    b'M' ∷ b'M' ∷ 0 ∷ 42 ∷ 0 ∷ 0 ∷ 0 ∷ 8 ∷ 0 ∷ 1 ∷ 1 ∷ 0x12 ∷ 0 ∷ 3 ∷ 0 ∷ 0 ∷ 0 ∷ 1 ∷ 0 ∷ 6 ∷ 0 ∷ 0
    ∷ []

abbrev photo : List ℕ
photo = 0xFF ∷ 0xD8 ∷ 0xFF ∷ 0xE1 ∷ 0 ∷ 30 ∷ exif_header ++ tiff

photo_is_turned : jpeg_orientation photo ≡ ok 6
unfolding jpeg_orientation scan on_marker slice read_exif read_segment tiff_orientation read_ifd
    find_tag uint16 uint32 byte_at has_prefix or_upright tag_value
photo_is_turned = refl

jpeg_orientation-Orients_example : Orients (jpeg_orientation photo)
jpeg_orientation-Orients_example = jpeg_orientation-Orients photo

inside_x : 2 < (turned_size 6 4 3).0
unfolding turned_size
inside_x = omega arith

inside_y : 1 < (turned_size 6 4 3).1
unfolding turned_size
inside_y = omega arith

source_pixel-turn_back_example :
    let (sx, sy) = source_pixel 6 4 3 2 1 in
    let (dw, dh) = turned_size 6 4 3 in
    (sx < 4) × (sy < 3) × (source_pixel (turn_back 6) dw dh sx sy ≡ (2, 1))
source_pixel-turn_back_example =
    source_pixel-turn_back 6 4 3 2 1 (omega arith) (omega arith) inside_x inside_y
