-- ===== src/Safety.antt =====
-- backend/app/execution/safety.py: the gates that every order passes before it is sent.
pub mod KillSwitch
pub mod Gates
pub mod Duplicates
pub mod Validate
pub mod Conditions
pub mod Permits
