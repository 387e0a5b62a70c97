-- ===== src/Due.antt =====
-- backend/pullbackup/services/due.py: the durable obligation of a task.
pub mod Rows
pub mod Settle
pub mod Reconcile
pub mod Edit
pub mod Retry
pub mod Invariant
pub mod Preservation
pub mod Debt
mod Examples
