-- ===== src/Tests/Repositories.antt =====
-- The theorems on repositories, at concrete inputs.
use burrito.Base.{◌≡◌, refl, none, List, [], ◌∷◌, if◌then◌else◌, contains}
use burrito.Base.Int.{◌+ℤ◌}
use burrito.Base.Dict.{lookup}
use burrito.Base.Effect.{ok}
use burrito.Api.{BranchState, get_branch_state, TerraformLayer, TerraformRepository}
use burrito.Annotations.{last_branch_commit}
use burrito.World.{World, PodPhase}
use burrito.Repository.Branches.{
  managed_layers, is_there_a_new_layer, retrieve_all_layer_refs, merge_branches_with_branch_state,
}
use burrito.Repository.Merged.{known_or_new, get_branch_state-merge}
use burrito.Repository.Conditions.{
  get_state, tracked, is_last_sync_too_old, has_last_sync_failed, first_too_old, reason_to_sync,
  is_sync_now_requested,
}
use burrito.Repository.Conditions.{sync_needed}
use burrito.Repository.States.{key_of_repository, handle}
use burrito.Repository.Bundles.{AllBacked}
use burrito.Repository.Backed.{handle-AllBacked}
use burrito.Repository.InSync.{IsInSync, synced-IsInSync}
use burrito.Tests.Cluster.{cluster, cluster-KeepsBundles, all_at_zero, Store}
use burrito.Tests.Samples.{cfg, a_layer, a_repository, a_store, empty_store}

abbrev calm : World
calm = cluster PodPhase.running

abbrev main_branch : BranchState
main_branch = record {
  name = "main";
  latest_rev = "abc";
  last_sync_date = "then";
  last_sync_status = "success";
}

get_branch_state-merge_example :
    get_branch_state "main"
      (merge_branches_with_branch_state ("main" ∷ "dev" ∷ []) (main_branch ∷ []))
    ≡ (if contains ("main" ∷ "dev" ∷ []) "main"
        then known_or_new "main" (get_branch_state "main" (main_branch ∷ []))
        else none)
get_branch_state-merge_example =
    get_branch_state-merge "main" ("main" ∷ "dev" ∷ []) (main_branch ∷ [])

abbrev annotated : TerraformLayer
annotated = a_layer "" ((last_branch_commit, "abc") ∷ [])

abbrev repo : TerraformRepository
repo = record (a_repository none) {
  status = record { state = ""; branches = main_branch ∷ []; conditions = [] };
}

abbrev store : Store
store = a_store annotated []

synced-IsInSync_example :
    (all : List TerraformLayer) × (calm.list_layers store ≡ ok all)
    × IsInSync all_at_zero repo cfg (calm.now store) (managed_layers repo all)
unfolding get_state is_last_sync_too_old is_there_a_new_layer managed_layers lookup first_too_old
    tracked merge_branches_with_branch_state retrieve_all_layer_refs get_branch_state reason_to_sync
    is_sync_now_requested ◌+ℤ◌ has_last_sync_failed
synced-IsInSync_example = synced-IsInSync cfg all_at_zero calm store repo refl

-- The layer is new, so the branch is synced.
handle-AllBacked_example :
    AllBacked calm
      (handle cfg all_at_zero calm repo sync_needed empty_store).1
      (key_of_repository repo)
      (handle cfg all_at_zero calm repo sync_needed empty_store).0.1
handle-AllBacked_example =
    handle-AllBacked cfg all_at_zero calm (cluster-KeepsBundles PodPhase.running) repo sync_needed
      empty_store ((λ e. refl), tt)
