-- ===== src/Repository/Backed.antt =====
-- The handlers keep the bundles of the branches that are recorded as synced.
use burrito.Base.{
  String, true, false, Option, none, List, [], ◌∷◌, Bool-cases, Option-cases, inl, inr,
}
use burrito.Base.Effect.{Result-cases, ApiError}
use burrito.Api.{BranchState, TerraformLayer, TerraformRepository}
use burrito.Annotations.{add}
use burrito.World.{World, Runtime, Config}
use burrito.Repository.Branches.{
  managed_layers, retrieve_all_layer_refs, retrieve_layers_for_ref, add_found,
  merge_branches_with_branch_state,
}
use burrito.Repository.Conditions.{State, sync_needed, synced}
use burrito.Repository.Bundles.{
  IsStored, KeepsBundles, AllBacked, Keeps, AllBacked-Keeps, AllBacked-update_failed,
  AllBacked-update_success, AllBacked-add_found, AllBacked-filter,
}
use burrito.Repository.States.{
  key_of_repository, annotate_each, annotate_layers, skips, mark, finish, store_bundle, sync_branch,
  sync_branches, sync_layers, handle_sync_needed, handle,
}

module _ (cfg : Config) (rt : Runtime) (w : World) (laws : KeepsBundles w)
    (repo : TerraformRepository) where
  annotate_each-Keeps :
      (date revision : String) (layers : List TerraformLayer) (failure : Option ApiError)
      (s : w.State)
      → Keeps w s (annotate_each rt w repo date revision layers failure s).1
  unfolding annotate_each add
  annotate_each-Keeps date revision [] failure s at b r h = h
  annotate_each-Keeps date revision (layer ∷ layers) failure s at b r h =
      annotate_each-Keeps date revision layers _ _ at b r (laws.patch_keeps s _ at b r h)

  -- The result of a part of the handler: the branches it leaves are backed in the state it leaves.
  abbrev Backed : {A : Type 0} → (List BranchState × A) × w.State → Type 0
  Backed ((states, a), s) = AllBacked w s (key_of_repository repo) states

  finish-Backed :
      (layers : List TerraformLayer) (branch revision : String) (states : List BranchState)
      (s : w.State)
      → IsStored w s (key_of_repository repo) branch revision
      → AllBacked w s (key_of_repository repo) states
      → Backed (finish cfg rt w repo layers branch revision states s)
  unfolding finish mark annotate_layers
  finish-Backed layers branch revision states s stored h =
      AllBacked-Keeps w s _ (key_of_repository repo) _
        (annotate_each-Keeps (rt.format_time (w.now s)) revision layers none s)
        (AllBacked-update_success w s (key_of_repository repo) (rt.format_time (w.now s)) branch
          revision states stored h)

  store_bundle-Backed :
      (layers : List TerraformLayer) (branch revision : String) (states : List BranchState)
      (s : w.State)
      → AllBacked w s (key_of_repository repo) states
      → Backed (store_bundle cfg rt w repo layers branch revision states s)
  unfolding store_bundle mark
  store_bundle-Backed layers branch revision states s h =
      let key = key_of_repository repo in
      elim (Result-cases (w.bundle s repo branch)) [
        | inr (e, failed) ↦
            rw (store_bundle, failed)
              (AllBacked-update_failed w s key (rt.format_time (w.now s)) branch revision states h)
        | inl (bytes, got) ↦
            let s' = (w.put_git_bundle key branch revision bytes s).1 in
            let kept =
              AllBacked-Keeps w s s' key states
                (λ at b r. laws.put_keeps s key at branch revision bytes b r) h in
            elim (Result-cases (w.put_git_bundle key branch revision bytes s).0) [
              | inr (e, failed) ↦
                  rw (store_bundle, got, failed)
                    (AllBacked-update_failed w s' key (rt.format_time (w.now s')) branch revision
                      states kept)
              | inl (u, done) ↦
                  rw (store_bundle, got, done)
                    (finish-Backed layers branch revision states s'
                      (laws.put s key branch revision bytes done) kept)
            ]
      ]

  sync_branch-Backed :
      (layers : List TerraformLayer) (branch : String) (states : List BranchState) (s : w.State)
      → AllBacked w s (key_of_repository repo) states
      → Backed (sync_branch cfg rt w repo layers branch states s)
  unfolding sync_branch mark
  sync_branch-Backed layers branch states s h =
      let key = key_of_repository repo in
      let date = rt.format_time (w.now s) in
      elim (Result-cases (w.latest_revision s repo branch)) [
        | inr (e, failed) ↦
            rw (sync_branch, failed) (AllBacked-update_failed w s key date branch "" states h)
        | inl (revision, got) ↦ elim (Result-cases (w.check_git_bundle s key branch revision)) [
          | inr (e, failed) ↦
              rw (sync_branch, got, failed)
                (AllBacked-update_failed w s key date branch revision states h)
          | inl (true, stored) ↦
              rw (sync_branch, got, stored) (finish-Backed layers branch revision states s stored h)
          | inl (false, missing) ↦
              rw (sync_branch, got, missing) (store_bundle-Backed layers branch revision states s h)
        ]
      ]

  sync_branches-Backed :
      (layers : List TerraformLayer) (remaining states : List BranchState)
      (failure : Option ApiError) (s : w.State)
      → AllBacked w s (key_of_repository repo) states
      → Backed (sync_branches cfg rt w repo layers remaining states failure s)
  unfolding sync_branches
  sync_branches-Backed layers [] states failure s h = h
  sync_branches-Backed layers (branch ∷ remaining) states failure s h =
      let of_branch = retrieve_layers_for_ref branch.name layers in
      let (after, s') = sync_branch cfg rt w repo of_branch branch.name states s in
      elim (Bool-cases (skips cfg rt w repo (w.now s) of_branch branch)) [
        | inl skipped ↦
            rw (sync_branches, skipped) (sync_branches-Backed layers remaining states failure s h)
        | inr due ↦
            rw (sync_branches, due)
              (sync_branches-Backed layers remaining after.0 after.1 s'
                (sync_branch-Backed of_branch branch.name states s h))
      ]

  sync_layers-AllBacked :
      (layers : List TerraformLayer) (s : w.State)
      → AllBacked w s (key_of_repository repo) repo.status.branches
      → let (answer, s') = sync_layers cfg rt w repo layers s in
        AllBacked w s' (key_of_repository repo) answer.1
  unfolding sync_layers merge_branches_with_branch_state
  sync_layers-AllBacked [] s h = tt
  sync_layers-AllBacked (layer ∷ layers) s h =
      let key = key_of_repository repo in
      let refs = retrieve_all_layer_refs (layer ∷ layers) in
      let states = merge_branches_with_branch_state refs repo.status.branches in
      let merged =
        AllBacked-filter w s key _ (add_found refs repo.status.branches)
          (AllBacked-add_found w s key refs repo.status.branches h) in
      let last = sync_branches-Backed (layer ∷ layers) states states none s merged in
      elim (Option-cases (sync_branches cfg rt w repo (layer ∷ layers) states states none s).0.1) [
        | inl fine ↦ rw (sync_layers, fine) last
        | inr (e, failed) ↦ rw (sync_layers, failed) last
      ]

  -- If every branch that the repository records as synced has the bundle of its revision in the
  -- datastore, the same holds of the branches that a handler leaves, whatever calls fail.
  pub handle-AllBacked :
      (state : State) (s : w.State)
      → AllBacked w s (key_of_repository repo) repo.status.branches
      → let (answer, s') = handle cfg rt w repo state s in
        AllBacked w s' (key_of_repository repo) answer.1
  unfolding handle handle_sync_needed
  handle-AllBacked synced s h = h
  handle-AllBacked sync_needed s h = elim (Result-cases (w.get_git_provider s repo)) [
    | inr (e, failed) ↦ rw (handle_sync_needed, failed) h
    | inl (u, got) ↦ elim (Result-cases (w.list_layers s)) [
      | inr (e, failed) ↦ rw (handle_sync_needed, got, failed) h
      | inl (listed, found) ↦
          rw (handle_sync_needed, got, found)
            (sync_layers-AllBacked (managed_layers repo listed) s h)
    ]
  ]
