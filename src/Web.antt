-- ===== src/Web.antt =====
-- internal/web: the HTTP surface over the vault, the sessions and the limiter.
pub mod Server
mod Tests
pub mod Middleware
pub mod Login
pub mod Serving
pub mod Disposition
pub mod FileName
pub mod Sizes
pub mod Content
pub mod Secrets
pub mod EnvFile
pub mod Import
pub mod Backups
pub mod Routes
pub mod Reads
pub mod Settings
