-- ===== src/Reconcile.antt =====
-- src/oscmix_desk/reconcile.py: desired state, observed state, and ordered write plans.
pub mod Entries
pub mod Settings
pub mod Desired
pub mod Compare
pub mod Apply
