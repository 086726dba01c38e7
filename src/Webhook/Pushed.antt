-- ===== src/Webhook/Pushed.antt =====
-- What a push event leads to: the annotations that its handler sets, read by the repository controller.
use burrito.Base.{String, ◌≡◌, ◌⊎◌, some}
use burrito.Base.Dict.{lookup, insert}
use burrito.Base.Effect.{ok}
use burrito.Api.{Time, NamespacedName, TerraformRepository, TerraformPullRequest}
use burrito.Annotations.{compute_key_for_sync_branch_now}
use burrito.World.{World, Runtime}
use burrito.Repository.Heeded.{Heeded}
use burrito.Repository.States.{key_of_repository}
use burrito.Webhook.{PushEvent, set_repository_annotations}

-- What the webhook relies on the API server for: a patch that succeeds is stored with the annotations
-- that were sent, and changes no other repository; a patch of a pull request changes none.
pub record KeepsRequests (w : World) : Type 0 where
  pub stored :
      (s : w.State) (sent answer : TerraformRepository)
      → (w.patch_repository sent s).0 ≡ ok answer
      → w.get_repository (w.patch_repository sent s).1 (key_of_repository sent) ≡ ok answer
  pub annotated :
      (s : w.State) (sent answer : TerraformRepository) (k v : String)
      → (w.patch_repository sent s).0 ≡ ok answer
      → lookup k sent.metadata.annotations ≡ some v
      → lookup k answer.metadata.annotations ≡ some v
  pub frame :
      (s : w.State) (sent answer : TerraformRepository) (at : NamespacedName)
      → (w.patch_repository sent s).0 ≡ ok answer
      → (w.get_repository (w.patch_repository sent s).1 at ≡ ok answer)
        ⊎ (w.get_repository (w.patch_repository sent s).1 at ≡ w.get_repository s at)
  pub pull_request_frame :
      (s : w.State) (sent : TerraformPullRequest) (at : NamespacedName)
      → w.get_repository (w.patch_pull_request sent s).1 at ≡ w.get_repository s at

module _ (rt : Runtime) (w : World) (e : PushEvent) where
  -- The repository that is stored asks for a sync of the branch.
  pub record Requested (s : w.State) (at : NamespacedName) : Type 0 where
    pub repository : TerraformRepository
    pub is_stored : w.get_repository s at ≡ ok repository
    pub asked_at : Time
    pub is_asked :
        lookup (compute_key_for_sync_branch_now e.reference) repository.metadata.annotations
        ≡ some (rt.format_time asked_at)

  module _ (laws : KeepsRequests w) where
    abbrev ask : TerraformRepository → w.State → TerraformRepository
    ask repo s =
        set_repository_annotations
          (insert (compute_key_for_sync_branch_now e.reference) (rt.format_time (w.now s))
            repo.metadata.annotations)
          repo
