-- ===== src/Tests.antt =====
-- A small cluster, and the theorems at concrete inputs.
pub mod Cluster
pub mod Samples
pub mod Runs
mod Retries
pub mod Layers
pub mod Repositories
pub mod Requests
pub mod Settings
pub mod Storage
mod PullRequests
mod Runners
mod Secrets
mod Pushes
mod Tokens
mod Buckets
mod Wire
mod Logins
mod Webhooks
