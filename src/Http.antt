-- ===== src/Http.antt =====
-- internal/http: who may pass.
pub mod Gate
pub mod Pass
