-- ===== src/PullRequest.antt =====
-- internal/controllers/terraformpullrequest: discovery of the layers that a pull request affects, and
-- the comment with their plans. The text of the comment is not modelled.
pub mod Conditions
pub mod Layers
pub mod States
pub mod Comments
