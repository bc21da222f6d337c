-- ===== src/Variables.antt =====
-- src/variables/mod.rs and src/services/mod.rs: the values, names and reasons that users type.
pub mod Validate
