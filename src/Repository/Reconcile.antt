-- ===== src/Repository/Reconcile.antt =====
-- `Reconcile` of internal/controllers/terraformrepository/controller.go.
use burrito.Base.{false, true}
use burrito.Base.Int.{pos}
use burrito.Base.Effect.{ok, err, not_found, already_exists, other, Effect}
use burrito.Api.{NamespacedName, TerraformRepository}
use burrito.World.{World, Runtime, Config}
use burrito.Run.Reconcile.{Outcome, outcome}
use burrito.Repository.Conditions.{get_state}
use burrito.Repository.States.{handle, get_state_string}

module _ (cfg : Config) (rt : Runtime) (w : World) where
  -- The handler, and the update of the status, whose error is only logged.
  unfoldable pub reconcile_repository : TerraformRepository → Effect w.State Outcome
  unfolding get_state_string
  reconcile_repository repo s =
      let (state, conditions) = get_state cfg rt w s repo in
      let now = record repo {
        status = record repo.status { conditions = conditions; state = get_state_string state };
      } in
      let ((after, branches), s1) = handle cfg rt w now state s in
      let (_, s2) =
        w.update_repository_status
          (record now { status = record now.status { branches = branches } }) s1 in
      (outcome after false, s2)

  unfoldable pub reconcile : NamespacedName → Effect w.State Outcome
  unfolding reconcile_repository
  reconcile key s = elim (w.get_repository s key) [
    | err not_found ↦ (outcome (pos 0) false, s)
    | err already_exists ↦ (outcome (pos 0) true, s)
    | err other ↦ (outcome (pos 0) true, s)
    | ok repo ↦ reconcile_repository repo s
  ]
