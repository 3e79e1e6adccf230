-- ===== src/Auth.antt =====
-- internal/auth: login throttling and custody of the unlocked data keys.
pub mod Limiter
pub mod Address
pub mod Sessions
