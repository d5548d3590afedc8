-- ===== src/Auth.antt =====
-- internal/auth: logins and their lock, sessions.
pub mod Lockout
pub mod Login
pub mod Throttle
pub mod Sessions
pub mod Access
pub mod Pairing
