-- ===== src/Orders.antt =====
-- backend/app/execution/order_manager.py: reserve, check, submit, fill, cancel and recover orders.
pub mod Broker
pub mod Env
pub mod Exec
pub mod Costs
pub mod Pricing
pub mod Fill
pub mod Resolve
pub mod Submit
pub mod Recover
pub mod Cancel
pub mod Monitor
pub mod Flatten
pub mod Placed
pub mod History
pub mod Ineligible
pub mod Memory
pub mod Quiet
