-- ===== src/Store.antt =====
-- internal/store: the persistence layer over SQLite, which holds ciphertext and opaque identifiers.
pub mod Table
pub mod Schema
pub mod Content
pub mod Secrets
pub mod VaultRow
pub mod Transaction
pub mod Rekey
pub mod Atomic
pub mod Ensures
pub mod Migration
pub mod Integrity
mod Tests
