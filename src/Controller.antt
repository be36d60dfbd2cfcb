-- ===== src/Controller.antt =====
-- internal/controller: the reconciler of external monitors.
pub mod Settings
pub mod Secrets
pub mod Find
pub mod Patch
pub mod Reconcile
pub mod Watch
