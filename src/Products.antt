-- ===== src/Products.antt =====
-- internal/service/products.go: saving a product document.
pub mod Prices
pub mod Variants
pub mod Inputs
pub mod Documents
pub mod Saving
