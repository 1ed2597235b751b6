-- ===== src/Tests.antt =====
-- Runs of the model on small inputs, and each general statement at one of them.
mod Toy
mod ToyRedis
mod Lifecycle
mod Safety
mod Orders
mod Audit
mod Reconcile
mod Recovery
