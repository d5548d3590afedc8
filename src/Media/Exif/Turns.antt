-- ===== src/Media/Exif/Turns.antt =====
-- internal/media/exif.go: the pixels that orient copies.
use khans_bike.Common.{ℕ, ◌≤◌, ◌<◌, ◌≡◌, arith, if◌then◌else◌, ◌==◌}
use khans_bike.Media.Exif.{source_pixel, turned_size}

-- The orientation that turns an image back.
abbrev pub turn_back : ℕ → ℕ
turn_back o = if o == 6 then 8 else if o == 8 then 6 else o

-- Each pixel of the result of orient is copied from a pixel inside the image, and the opposite turn
-- of the result takes that pixel from where it was copied to: no pixel is lost and none is copied twice.
pub source_pixel-turn_back :
    (o w h x y : ℕ)
    → 2 ≤ o
    → o ≤ 8
    → x < (turned_size o w h).0
    → y < (turned_size o w h).1
    → let (sx, sy) = source_pixel o w h x y in
      let (dw, dh) = turned_size o w h in
      (sx < w) × (sy < h) × (source_pixel (turn_back o) dw dh sx sy ≡ (x, y))
unfolding source_pixel turned_size
source_pixel-turn_back o w h x y low high in_x in_y = ground arith
