-- ===== src/Taxonomy.antt =====
-- internal/service/taxonomy.go: the structure of the catalogue.
pub mod Paths
pub mod Labels
pub mod Categories
pub mod Finished
pub mod Tree
pub mod Registry
