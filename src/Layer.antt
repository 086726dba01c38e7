-- ===== src/Layer.antt =====
-- The layer controller (internal/controllers/terraformlayer): it decides when a layer is planned or
-- applied, creates the runs, and keeps their history.
pub mod Conditions
pub mod Runs
pub mod Files
pub mod States
pub mod History
pub mod Reconcile
pub mod Decisions
pub mod Handled
pub mod Taken
pub mod Guards
pub mod Retention
pub mod Cleanup
pub mod Exhaustion
