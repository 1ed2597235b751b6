-- ===== src/Reconcile.antt =====
-- backend/app/execution/reconciliation.py: what the broker reports against what the process stored.
pub mod Values
pub mod Status
pub mod Found
pub mod Snapshot
pub mod Fills
pub mod Orders
pub mod Positions
pub mod Engine
