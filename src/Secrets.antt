-- ===== src/Secrets.antt =====
-- Encrypted credentials: internal/secrets/cipher.go, internal/services/secrets.go and
-- `SecretRepository` of internal/store/repositories.go.
pub mod Cipher
pub mod Names
pub mod Table
pub mod Service
pub mod Opened
pub mod Vault
pub mod Refined
