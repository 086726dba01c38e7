-- ===== src/Repository/Heeded.antt =====
-- A request for a sync of a branch, read by `GetState` of
-- internal/controllers/terraformrepository/states.go.
use burrito.Base.{
  String, ◌≢◌, ◌≡◌, refl, subst, ◌⊎◌, inl, inr, false, List, All, All-weaken, arith, some, ◌==◌,
  Bool-cases, Option-cases,
}
use text.Mathlib.TextEquality.{eq_iff}
use burrito.Base.Int.{◌≤ℤ◌, ltb_ℤ→le}
use burrito.Base.Dict.{lookup}
use burrito.Base.Effect.{ok}
use burrito.Api.{Time, TerraformLayer, BranchState, TerraformRepository}
use burrito.Annotations.{compute_key_for_sync_branch_now}
use burrito.World.{World, Runtime, Config}
use burrito.Repository.Branches.{managed_layers}
use burrito.Repository.Conditions.{
  State, sync_needed, synced, tracked, newer_request, is_sync_now_requested, get_state,
}
use burrito.Repository.InSync.{IsCurrent, synced-IsInSync}

-- The branch was synced at or after the time that is written.
pub record SyncedSince (rt : Runtime) (date : String) (b : BranchState) : Type 0 where
  pub requested : Time
  pub last_sync : Time
  pub is_request : rt.parse_time date ≡ some requested
  pub is_sync : rt.parse_time b.last_sync_date ≡ some last_sync
  pub is_since : requested ≤ℤ last_sync

State-cases : (state : State) → (state ≡ sync_needed) ⊎ (state ≡ synced)
State-cases sync_needed = inl refl
State-cases synced = inr refl

module _ (cfg : Config) (rt : Runtime) (w : World) (reference date : String) (s : w.State)
    (repo : TerraformRepository) where
  -- The branch is another one, or was synced since the request.
  abbrev pub Served : BranchState → Type 0
  Served b = (b.name ≢ reference) ⊎ SyncedSince rt date b

  -- The repository controller finds that a sync is needed, or the layers can be listed and no branch
  -- of that name was last synced before the request.
  abbrev pub Heeded : Type 0
  Heeded =
      ((get_state cfg rt w s repo).0 ≡ sync_needed)
      ⊎ ((all : List TerraformLayer) × (w.list_layers s ≡ ok all)
          × All Served (tracked repo (managed_layers repo all)))

  module _
      (asked : lookup (compute_key_for_sync_branch_now reference) repo.metadata.annotations
        ≡ some date) where
    asked-SyncedSince :
        (last : Time) (b : BranchState)
        → rt.parse_time b.last_sync_date ≡ some last
        → is_sync_now_requested rt repo reference last ≡ some false
        → SyncedSince rt date b
    unfolding is_sync_now_requested newer_request
    asked-SyncedSince last b dated h = elim (Option-cases (rt.parse_time date)) [
      | inl bad ↦ cc (asked, bad, h)
      | inr (request, good) ↦ record {
        requested = request;
        last_sync = last;
        is_request = good;
        is_sync = dated;
        is_since = ltb_ℤ→le last request (grind (arith, asked, good, h));
      }
    ]

    current-Served : (now : Time) (b : BranchState) → IsCurrent rt repo cfg now b → Served b
    current-Served now b c = elim (Bool-cases (b.name == reference)) [
      | inr other ↦ inl (λ same. ground (arith, same, other, eq_iff b.name reference))
      | inl same ↦ inr (
          asked-SyncedSince c.last_sync b c.dated (
            subst (λ (n : String). is_sync_now_requested rt repo n c.last_sync ≡ some false)
              (ground (arith, same, eq_iff b.name reference)) c.unrequested))
    ]

    pub asked-Heeded : Heeded
    asked-Heeded = elim (State-cases (get_state cfg rt w s repo).0) [
      | inl needed ↦ inl needed
      | inr calm ↦
          let (all, listed, current) = synced-IsInSync cfg rt w s repo calm in
          inr (
            all,
            listed,
            All-weaken (current-Served (w.now s)) (tracked repo (managed_layers repo all))
                current.current,
          )
    ]
