-- ===== src/Repository/States.antt =====
-- internal/controllers/terraformrepository/states.go: the handlers of the two states.
use burrito.Base.{
  String, Bool, true, false, not, ◌&&◌, Option, none, some, List, [], ◌∷◌, ◌++◌, ◌==◌,
  if◌then◌else◌,
}
use burrito.Base.Int.{pos, ◌+ℤ◌, ltb_ℤ}
use burrito.Base.Dict.{Dict, lookup}
use burrito.Base.Effect.{ok, err, ApiError, Effect}
use burrito.Api.{Time, Duration, NamespacedName, BranchState, TerraformLayer, TerraformRepository}
use burrito.Annotations.{
  last_branch_commit, last_branch_commit_date, last_relevant_commit, last_relevant_commit_date, add,
}
use burrito.World.{World, Runtime, Config}
use burrito.Layer.Files.{layer_files_have_changed}
use burrito.Repository.Branches.{
  managed_layers, retrieve_all_layer_refs, retrieve_layers_for_ref, is_there_a_new_layer,
  merge_branches_with_branch_state, update_branch_state,
}
use burrito.Repository.Conditions.{State, sync_needed, synced, is_sync_now_requested}

abbrev pub key_of_repository : TerraformRepository → NamespacedName
key_of_repository repo = record { namespace = repo.metadata.namespace; name = repo.metadata.name }

module _ (rt : Runtime) where
  -- The annotations that `annotateLayers` adds to a layer; the provider gives the changes since a
  -- commit.
  unfoldable pub commit_annotations :
      (changes : String → List String) (date revision : String) → TerraformLayer → Dict String
  commit_annotations changes date revision layer =
      let branch = (last_branch_commit, revision) ∷ (last_branch_commit_date, date) ∷ [] in
      let relevant = (last_relevant_commit, revision) ∷ (last_relevant_commit_date, date) ∷ [] in
      let on_branch : Dict String = elim (lookup last_branch_commit layer.metadata.annotations) [
        | none ↦ branch
        | some current ↦ if current == revision then [] else branch
      ] in
      let on_files : Dict String = elim (lookup last_relevant_commit layer.metadata.annotations) [
        | none ↦ relevant
        | some current ↦
            if layer_files_have_changed rt layer (changes current) then relevant else []
      ] in
      on_branch ++ on_files

module _ (rt : Runtime) (w : World) (repo : TerraformRepository) where
  -- The loop of `annotateLayers`: the error of the last layer only.
  unfoldable pub annotate_each :
      (date revision : String)
      → List TerraformLayer
      → Option ApiError
      → Effect w.State (Option ApiError)
  unfolding commit_annotations
  annotate_each date revision [] failure s = (failure, s)
  annotate_each date revision (layer ∷ layers) failure s =
      let changes : String → List String = λ commit. w.get_changes s repo commit revision in
      let (answer, s') = add w layer (commit_annotations rt changes date revision layer) s in
      annotate_each date revision layers (elim answer [ ok patched ↦ none | err e ↦ some e ]) s'

  unfoldable pub annotate_layers :
      List TerraformLayer → (revision : String) → Effect w.State (Option ApiError)
  unfolding annotate_each
  annotate_layers layers revision s =
      annotate_each (rt.format_time (w.now s)) revision layers none s

module _ (cfg : Config) (rt : Runtime) (w : World) (repo : TerraformRepository) where
  -- Whether the loop of the handler of `SyncNeeded` goes on with the next branch at once.
  unfoldable pub skips : (now : Time) (layers : List TerraformLayer) → BranchState → Bool
  skips now layers branch = elim (rt.parse_time branch.last_sync_date) [
    | none ↦ false
    | some last_sync ↦ elim (is_sync_now_requested rt repo branch.name last_sync) [
      | none ↦ true
      | some requested ↦
          let next = last_sync +ℤ cfg.timers.repository_sync in
          not requested
          && (not (ltb_ℤ next now)
              && ((branch.last_sync_status == "success") && not (is_there_a_new_layer layers)))
    ]
  ]

  -- `updateBranchState` at the present time.
  unfoldable pub mark :
      (branch revision status : String) → List BranchState → w.State → List BranchState
  mark branch revision status states s =
      update_branch_state (rt.format_time (w.now s)) branch revision status states

  -- What the loop does after the bundle is stored, or when it was there already.
  unfoldable pub finish :
      (layers : List TerraformLayer) (branch revision : String)
      → List BranchState
      → Effect w.State (List BranchState × Option ApiError)
  unfolding mark annotate_layers
  finish layers branch revision states s =
      let (failure, s') = annotate_layers rt w repo layers revision s in
      ((mark branch revision "success" states s, failure), s')

  unfoldable pub store_bundle :
      (layers : List TerraformLayer) (branch revision : String)
      → List BranchState
      → Effect w.State (List BranchState × Option ApiError)
  unfolding mark finish
  store_bundle layers branch revision states s = elim (w.bundle s repo branch) [
    | err e ↦ ((mark branch revision "failed" states s, some e), s)
    | ok bytes ↦
        let (stored, s') = w.put_git_bundle (key_of_repository repo) branch revision bytes s in
        elim stored [
          | err e ↦ ((mark branch revision "failed" states s', some e), s')
          | ok u ↦ finish layers branch revision states s'
        ]
  ]

  -- The rest of the loop's body, with the layers of the branch.
  unfoldable pub sync_branch :
      (layers : List TerraformLayer) (branch : String)
      → List BranchState
      → Effect w.State (List BranchState × Option ApiError)
  unfolding mark finish store_bundle
  sync_branch layers branch states s = elim (w.latest_revision s repo branch) [
    | err e ↦ ((mark branch "" "failed" states s, some e), s)
    | ok revision ↦ elim (w.check_git_bundle s (key_of_repository repo) branch revision) [
      | err e ↦ ((mark branch revision "failed" states s, some e), s)
      | ok true ↦ finish layers branch revision states s
      | ok false ↦ store_bundle layers branch revision states s
    ]
  ]

  -- The loop. An entry changes only in its own round, so the entries to come are those of the start.
  unfoldable pub sync_branches :
      (layers : List TerraformLayer) (remaining : List BranchState)
      → List BranchState
      → Option ApiError
      → Effect w.State (List BranchState × Option ApiError)
  unfolding skips sync_branch
  sync_branches layers [] states failure s = ((states, failure), s)
  sync_branches layers (branch ∷ remaining) states failure s =
      let of_branch = retrieve_layers_for_ref branch.name layers in
      let (after, s') = sync_branch of_branch branch.name states s in
      let skipped = sync_branches layers remaining states failure in
      let done = sync_branches layers remaining after.0 after.1 in
      if skips (w.now s) of_branch branch then skipped s else done s'

  -- The handler of `SyncNeeded` on the managed layers: when to come back, and the branches.
  unfoldable pub sync_layers :
      (layers : List TerraformLayer) → Effect w.State (Duration × List BranchState)
  unfolding sync_branches
  sync_layers [] s = ((cfg.timers.wait_action, []), s)
  sync_layers (layer ∷ layers) s =
      let refs = retrieve_all_layer_refs (layer ∷ layers) in
      let states = merge_branches_with_branch_state refs repo.status.branches in
      let (after, s') = sync_branches (layer ∷ layers) states states none s in
      elim after.1 [
        | some e ↦ ((cfg.timers.on_error, after.0), s')
        | none ↦ ((cfg.timers.wait_action, after.0), s')
      ]

  unfoldable pub handle_sync_needed : Effect w.State (Duration × List BranchState)
  unfolding sync_layers
  handle_sync_needed s = elim (w.get_git_provider s repo) [
    | err e ↦ ((pos 0, repo.status.branches), s)
    | ok u ↦ elim (w.list_layers s) [
      | err e ↦ ((pos 0, repo.status.branches), s)
      | ok listed ↦ sync_layers (managed_layers repo listed) s
    ]
  ]

  unfoldable pub handle : State → Effect w.State (Duration × List BranchState)
  unfolding handle_sync_needed
  handle sync_needed s = handle_sync_needed s
  handle synced s = ((cfg.timers.repository_sync, repo.status.branches), s)

unfoldable pub get_state_string : State → String
get_state_string sync_needed = "SyncNeeded"
get_state_string synced = "Synced"
