-- ===== src/Domain.antt =====
-- internal/domain: the business types.
pub mod Price
pub mod Status
