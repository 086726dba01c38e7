-- ===== src/Repository/InSync.antt =====
-- What a repository that is taken to be in sync has.
use burrito.Base.{
  ◌≡◌, refl, Bool, false, ◌||◌, contains, none, some, List, [], ◌∷◌, arith, if◌then◌else◌, All,
  filter, Option-cases, Bool-cases, inl, inr,
}
use burrito.Base.Int.{◌+ℤ◌, ◌≤ℤ◌, ltb_ℤ→le}
use burrito.Base.Effect.{Result, ok, err}
use burrito.Api.{Time, BranchState, TerraformLayer, TerraformRepository}
use burrito.World.{World, Runtime, Config}
use burrito.Repository.Branches.{
  managed_layers, retrieve_all_layer_refs, add_found, merge_branches_with_branch_state,
  is_there_a_new_layer,
}
use burrito.Repository.Conditions.{
  synced, sync_needed, tracked, is_sync_now_requested, reason_to_sync, first_too_old, too_old_among,
  too_old_of, is_last_sync_too_old, get_state,
}

module _ (rt : Runtime) (repo : TerraformRepository) (cfg : Config) (now : Time) where
  -- Synced within the period, with no later request.
  pub record IsCurrent (b : BranchState) : Type 0 where
    pub last_sync : Time
    pub dated : rt.parse_time b.last_sync_date ≡ some last_sync
    pub unrequested : is_sync_now_requested rt repo b.name last_sync ≡ some false
    pub recent : now ≤ℤ last_sync +ℤ cfg.timers.repository_sync

  reason_to_sync-IsCurrent :
      (b : BranchState) → reason_to_sync rt repo cfg now b ≡ none → IsCurrent b
  unfolding reason_to_sync
  reason_to_sync-IsCurrent b h = elim (Option-cases (rt.parse_time b.last_sync_date)) [
    | inl bad ↦ absurd (ground (arith, bad))
    | inr (t, e) ↦ record {
      last_sync = t;
      dated = e;
      unrequested = ground (arith, e);
      recent = ltb_ℤ→le (t +ℤ cfg.timers.repository_sync) now (ground (arith, e));
    }
  ]

  All-IsCurrent :
      (states : List BranchState)
      → (first_too_old rt repo cfg now states).1 ≡ false
      → All IsCurrent states
  unfolding first_too_old
  All-IsCurrent [] h = tt
  All-IsCurrent (b ∷ states) h = elim (Option-cases (reason_to_sync rt repo cfg now b)) [
    | inl none_left ↦
        (reason_to_sync-IsCurrent b none_left, All-IsCurrent states (ground (arith, none_left)))
    | inr (reason, e) ↦ absurd (ground (arith, e))
  ]

  none_found : (states : List BranchState) → All IsCurrent (filter (λ b. contains [] b.name) states)
  none_found [] = tt
  none_found (b ∷ states) = none_found states

  -- What holds of the managed layers of a repository that is taken to be in sync.
  pub record IsInSync (layers : List TerraformLayer) : Type 0 where
    pub annotated : is_there_a_new_layer layers ≡ false
    pub current : All IsCurrent (tracked repo layers)

  too_old_of-IsCurrent :
      (layers : List TerraformLayer)
      → (too_old_of rt repo cfg now layers).1 ≡ false
      → All IsCurrent (tracked repo layers)
  unfolding too_old_of tracked merge_branches_with_branch_state add_found retrieve_all_layer_refs
  too_old_of-IsCurrent [] h = none_found repo.status.branches
  too_old_of-IsCurrent (l ∷ layers) h = All-IsCurrent (tracked repo (l ∷ layers)) h

  too_old_among-IsInSync :
      (listed : Result (List TerraformLayer))
      → (too_old_among rt repo cfg now listed).1 ≡ false
      → (all : List TerraformLayer) × (listed ≡ ok all) × IsInSync (managed_layers repo all)
  unfolding too_old_among
  too_old_among-IsInSync (err e) h = cc h
  too_old_among-IsInSync (ok all) h =
      elim (Bool-cases (is_there_a_new_layer (managed_layers repo all))) [
        | inl new ↦ absurd (ground (arith, new))
        | inr old ↦ (
          all,
          refl,
          record {
            annotated = old;
            current = too_old_of-IsCurrent (managed_layers repo all) (ground (arith, old));
          },
        )
      ]

not_too_old : (a b : Bool) → (if a || b then sync_needed else synced) ≡ synced → a ≡ false
not_too_old a b h = ground arith

-- If a repository is taken to be in sync, its layers could be listed, each has been annotated with a
-- commit of its branch, and every branch of them has been synced within the period, with no later
-- request for a sync.
pub synced-IsInSync :
    (cfg : Config) (rt : Runtime) (w : World) (s : w.State) (repo : TerraformRepository)
    → (get_state cfg rt w s repo).0 ≡ synced
    → (all : List TerraformLayer) × (w.list_layers s ≡ ok all)
      × IsInSync rt repo cfg (w.now s) (managed_layers repo all)
unfolding get_state is_last_sync_too_old
synced-IsInSync cfg rt w s repo h =
    too_old_among-IsInSync rt repo cfg (w.now s) (w.list_layers s) (not_too_old _ _ h)
