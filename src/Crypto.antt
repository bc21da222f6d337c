-- ===== src/Crypto.antt =====
-- src/crypto/mod.rs: sealed values, and the additional authenticated data that binds a ciphertext
-- to its record.
pub mod Bytes
pub mod Aad
pub mod Binding
pub mod Outcome
pub mod Manager
