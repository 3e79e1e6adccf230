-- ===== src/Vault.antt =====
-- internal/vault: the domain layer, which turns the ciphertext of internal/store into a plaintext
-- API given a data key.
pub mod Aad
pub mod Items
pub mod Secrets
pub mod Search
pub mod Factor
pub mod Calls
pub mod Reading
pub mod Tests
pub mod Lifecycle
