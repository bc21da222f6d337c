-- ===== src/Tests.antt =====
-- Concrete runs of the model, and the properties applied to them.
mod Accounts
mod Catalog
mod Rotations
mod Roles
mod Ciphers
mod Codes
mod Sessions
mod Rows
mod Visits
mod Files
mod Identifiers
mod Decisions
mod Application
