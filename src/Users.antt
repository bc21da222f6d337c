-- ===== src/Users.antt =====
-- src/users/mod.rs: roles, capabilities and access to services.
mod Roles
pub mod Laws
unfoldable pub use Roles.*
