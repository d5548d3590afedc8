-- ===== src/Schema.antt =====
-- internal/domain/attribute.go and internal/service/schema.go: the dynamic attribute system.
pub mod Attributes
pub mod Values
pub mod Views
pub mod Stored
