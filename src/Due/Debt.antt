-- ===== src/Due/Debt.antt =====
-- What `reconcile_task` and `record_tick` of services/due.py leave of the debt.
pub mod Rows
pub mod Accounts
pub mod Tick
pub mod Fold
