-- ===== src/Run.antt =====
-- The run controller (internal/controllers/terraformrun): one TerraformRun is one plan or apply, and
-- the controller drives it through runner pods until it has succeeded or failed.
pub mod Conditions
pub mod Pod
pub mod States
pub mod Logs
pub mod Reconcile
pub mod Launch
pub mod Attempts
pub mod Locking
pub mod Lifecycle
pub mod Limits
pub mod Uploads
