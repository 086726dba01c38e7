-- ===== src/Repository/Conditions.antt =====
-- internal/controllers/terraformrepository/conditions.go, and `GetState` of states.go.
use burrito.Base.{
  String, Bool, true, false, ◌||◌, Option, none, some, List, [], ◌∷◌, ◌==◌, if◌then◌else◌,
}
use burrito.Base.Int.{◌+ℤ◌, ltb_ℤ}
use burrito.Base.Dict.{lookup}
use burrito.Base.Effect.{Result, ok, err}
use burrito.Api.{
  Time, Condition, is_true, is_false, BranchState, TerraformLayer, TerraformRepository,
}
use burrito.Annotations.{compute_key_for_sync_branch_now}
use burrito.World.{World, Runtime, Config}
use burrito.Run.Conditions.{report}
use burrito.Repository.Branches.{
  managed_layers, retrieve_all_layer_refs, is_there_a_new_layer, merge_branches_with_branch_state,
}

pub data State : Type 0 where
  sync_needed synced : State

module _ (repo : TerraformRepository) where
  abbrev holds : String → String → Condition × Bool
  holds type reason = (report repo.metadata type is_true reason, true)

  abbrev fails : String → String → Condition × Bool
  fails type reason = (report repo.metadata type is_false reason, false)

  -- The branches of the managed layers, with what is known of each.
  unfoldable pub tracked : List TerraformLayer → List BranchState
  tracked layers =
      merge_branches_with_branch_state (retrieve_all_layer_refs layers) repo.status.branches

module _ (rt : Runtime) (repo : TerraformRepository) where
  unfoldable pub newer_request : Option Time → Time → Option Bool
  newer_request none last_sync = none
  newer_request (some request) last_sync = some (ltb_ℤ last_sync request)

  -- `none` is an error.
  unfoldable pub is_sync_now_requested : String → Time → Option Bool
  unfolding newer_request
  is_sync_now_requested branch last_sync =
      elim (lookup (compute_key_for_sync_branch_now branch) repo.metadata.annotations) [
        | none ↦ some false
        | some sync_now ↦ newer_request (rt.parse_time sync_now) last_sync
      ]

  module _ (cfg : Config) (now : Time) where
    due : Time → Option Bool → Option String
    due last_sync none = some "InvalidSyncNowDate"
    due last_sync (some true) = some "SyncNowRequested"
    due last_sync (some false) =
        if ltb_ℤ (last_sync +ℤ cfg.timers.repository_sync) now then some "SyncTooOld" else none

    dated : BranchState → Option Time → Option String
    unfolding due
    dated branch none = some "InvalidSyncDate"
    dated branch (some last_sync) = due last_sync (is_sync_now_requested branch.name last_sync)

    -- The body of the loop of `IsLastSyncTooOld`: the reason to sync a branch.
    unfoldable pub reason_to_sync : BranchState → Option String
    unfolding dated
    reason_to_sync branch =
        if branch.last_sync_date == ""
        then some "NoSyncYet"
        else dated branch (rt.parse_time branch.last_sync_date)

    unfoldable pub first_too_old : List BranchState → Condition × Bool
    first_too_old [] = fails repo "IsLastSyncTooOld" "SyncRecent"
    first_too_old (branch ∷ states) =
        let rest = first_too_old states in
        elim (reason_to_sync branch) [
          | some reason ↦ holds repo "IsLastSyncTooOld" reason
          | none ↦ rest
        ]

    unfoldable pub too_old_of : List TerraformLayer → Condition × Bool
    too_old_of [] = fails repo "IsLastSyncTooOld" "NoBranches"
    too_old_of (layer ∷ layers) = first_too_old (tracked repo (layer ∷ layers))

    unfoldable pub too_old_among : Result (List TerraformLayer) → Condition × Bool
    unfolding too_old_of
    too_old_among (err e) = holds repo "IsLastSyncTooOld" "ErrorListingLayers"
    too_old_among (ok listed) =
        let layers = managed_layers repo listed in
        if is_there_a_new_layer layers
        then holds repo "IsLastSyncTooOld" "NewLayer"
        else too_old_of layers

  -- The loop of `HasLastSyncFailed`.
  unfoldable pub first_failed : List BranchState → Condition × Bool
  first_failed [] = fails repo "HasLastSyncFailed" "SyncSucceeded"
  first_failed (branch ∷ states) =
      let rest = first_failed states in
      if branch.last_sync_status == ""
      then fails repo "HasLastSyncFailed" "NoSyncYet"
      else if branch.last_sync_status == "failed"
      then holds repo "HasLastSyncFailed" "SyncFailed"
      else rest

  failed_of : List TerraformLayer → Condition × Bool
  unfolding first_failed
  failed_of [] = fails repo "HasLastSyncFailed" "NoBranches"
  failed_of (layer ∷ layers) = first_failed (tracked repo (layer ∷ layers))

  failed_among : Result (List TerraformLayer) → Condition × Bool
  unfolding failed_of
  failed_among (err e) = holds repo "HasLastSyncFailed" "ErrorListingLayers"
  failed_among (ok listed) = failed_of (managed_layers repo listed)

module _ (cfg : Config) (rt : Runtime) (w : World) where
  unfoldable pub is_last_sync_too_old : w.State → TerraformRepository → Condition × Bool
  unfolding too_old_among
  is_last_sync_too_old s repo = too_old_among rt repo cfg (w.now s) (w.list_layers s)

  unfoldable pub has_last_sync_failed : w.State → TerraformRepository → Condition × Bool
  unfolding failed_among
  has_last_sync_failed s repo = failed_among rt repo (w.list_layers s)

  unfoldable pub get_state : w.State → TerraformRepository → State × List Condition
  get_state s repo =
      let (c1, too_old) = is_last_sync_too_old s repo in
      let (c2, failed) = has_last_sync_failed s repo in
      (if too_old || failed then sync_needed else synced, c1 ∷ c2 ∷ [])
