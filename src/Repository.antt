-- ===== src/Repository.antt =====
-- internal/controllers/terraformrepository: which branches are tracked, and whether they are in sync.
pub mod Branches
pub mod Merged
pub mod Conditions
pub mod InSync
pub mod Heeded
pub mod States
pub mod Reconcile
pub mod Bundles
pub mod Backed
