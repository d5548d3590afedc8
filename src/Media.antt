-- ===== src/Media.antt =====
-- internal/media: the orientation of uploaded photos.
pub mod Exif
