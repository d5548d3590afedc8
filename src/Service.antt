-- ===== src/Service.antt =====
-- internal/service: the business rules.
pub mod Views
pub mod Cards
pub mod Subscribers
pub mod Validation
pub mod Links
