-- ===== src/Requests.antt =====
-- src/requests: change requests from their creation to the confirmed deployment.
pub mod Rows
pub mod Schema
pub mod Workflow
pub mod Lifecycle
pub mod Selection
pub mod Apply
pub mod History
