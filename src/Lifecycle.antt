-- ===== src/Lifecycle.antt =====
-- backend/app/execution/lifecycle.py: the states of an order, its record, and the order store.
pub mod States
pub mod Transitions
pub mod BrokerStatus
pub mod Tags
pub mod Record
pub mod Fills
pub mod Store
pub mod Redis
