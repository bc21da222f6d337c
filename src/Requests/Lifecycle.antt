-- ===== src/Requests/Lifecycle.antt =====
-- What the operations of the workflow do to a request: when they succeed, and with what result.
pub mod Updates
pub mod Approval
pub mod Rejection
