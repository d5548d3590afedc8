-- ===== src/Platform.antt =====
-- internal/platform: money, slugs and page sizes.
pub mod Money
pub mod Slug
pub mod Pages
