-- ===== src/Importer.antt =====
-- internal/importer: workbook rows, their matching and review.
pub mod Distance
pub mod Staging
pub mod Reviewable
pub mod Review
pub mod Commit
pub mod Closing
pub mod Requests
pub mod Ready
pub mod Groups
