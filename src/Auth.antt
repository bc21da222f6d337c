-- ===== src/Auth.antt =====
-- src/auth: one-time codes, sessions.
pub mod Totp
pub mod Session
