-- ===== src/Tests/Layers.antt =====
-- The theorems on layers, at concrete inputs.
use burrito.Base.{String, ◌≡◌, ◌≢◌, refl, ◌⊎◌, false, none, some, [], ◌∷◌, arith, ◌==◌}
use burrito.Base.Int.{pos, ◌≤ℤ◌, ◌+ℤ◌}
use burrito.Base.Dict.{Dict, lookup, lookup_or_empty, remove}
use burrito.Api.{TerraformLayer, TerraformRun}
use burrito.Annotations.{
  last_plan_sum, last_plan_date, last_plan_run, last_apply_sum, last_relevant_commit, apply_now,
  remove_annotation,
}
use burrito.Base.Text.{split}
use burrito.SyncWindow.{is_sync_blocked}
use burrito.World.{World, PodPhase}
use burrito.Run.Conditions
use burrito.Run.Reconcile.{settle, advance}
use burrito.Run.States
use burrito.Layer.Conditions.{
  is_running, is_last_plan_too_old, is_last_relevant_commit_planned, has_last_plan_failed,
  is_apply_up_to_date, is_sync_scheduled, is_apply_scheduled, has_last_run_reached_retry_limit,
}
use burrito.Layer.Runs.{Action, plan_action, apply_action, run_with, get_run, artifact_for}
use burrito.Layer.States.{
  plan_needed, get_state, handle, facts, choose_state, start_run, is_action_blocked,
}
use burrito.Layer.History.{update_latest_runs, cleanup_runs}
use burrito.Layer.Decisions.{automatic_apply_has_new_plan}
use burrito.Layer.Guards.{IsAllowed, IsWarranted, created_run-IsWarranted}
use burrito.Layer.Exhaustion.{failed_run_is_not_repeated}
use burrito.Layer.Retention.{Updated, update_latest_runs-Updated}
use burrito.Layer.Cleanup.{cleanup_spares_history}
use burrito.Tests.Cluster.{
  cluster, cluster-KeepsRuns, find, no_times, all_at_zero, Store, named_run,
}
use burrito.Tests.Samples.{
  cfg, a_run, a_layer, new_layer, a_repository, a_store, empty_store, history_entry,
}

abbrev calm : World
calm = cluster PodPhase.running

abbrev broken : World
broken = cluster PodPhase.failed

abbrev at_commit : Dict String
at_commit = (last_relevant_commit, "abc") ∷ []

-- A layer with a relevant commit and a plan, that a user asked to apply.
abbrev planned : Dict String
planned = (last_relevant_commit, "abc") ∷ (last_plan_run, "run/0") ∷ []

abbrev apply_asked : TerraformLayer
apply_asked = a_layer "" ((apply_now, "true") ∷ planned)

abbrev new_apply : TerraformRun
new_apply =
    named_run
      (run_with (a_layer "" planned) "abc" apply_action (record { run = "run"; attempt = "0" }))

created_run-IsWarranted_example :
    let decided = get_state cfg no_times calm apply_asked (a_repository none) empty_store in
    (action : Action) × IsAllowed cfg no_times calm apply_asked
      (a_repository none)
      empty_store
      action
      decided.0.2
    × IsWarranted cfg no_times calm decided.0.2 (a_repository none) decided.1 action new_apply
unfolding handle start_run is_action_blocked get_run artifact_for is_sync_blocked lookup split
    get_state choose_state facts is_running is_sync_scheduled is_apply_scheduled remove_annotation
    lookup_or_empty remove
created_run-IsWarranted_example =
    created_run-IsWarranted cfg no_times calm apply_asked (a_repository none) empty_store (pos 5)
      new_apply refl

-- The last run of a layer, out of retries.
abbrev last_attempt : TerraformRun
last_attempt = a_run "plan" "Retrying" 2 "runner-pod"

abbrev failed_run : TerraformRun
failed_run = (settle cfg no_times broken last_attempt new_layer (a_repository none) empty_store).0.1

abbrev planned_by_run : TerraformLayer
planned_by_run = a_layer "run" at_commit

failed_run_is_not_repeated_example :
    (get_state cfg no_times broken planned_by_run
      (a_repository none)
      (a_store planned_by_run (failed_run ∷ []))).0.0
    ≢ plan_needed
unfolding States.get_state Conditions.has_status Conditions.has_succeeded
    Conditions.is_in_failure_grace_period Conditions.is_running Conditions.has_reached_retry_limit
    Conditions.get_max_retries find is_sync_scheduled settle advance lookup_or_empty lookup
failed_run_is_not_repeated_example =
    failed_run_is_not_repeated cfg no_times broken last_attempt plan_action new_layer planned_by_run
      (a_repository none) (a_repository none) empty_store (a_store planned_by_run (failed_run ∷ []))
      refl refl refl refl (omega arith) refl refl

-- A layer with a recent plan that has not been applied.
abbrev unapplied : TerraformLayer
unapplied = a_layer "" ((last_plan_sum, "sum") ∷ (last_plan_date, "then") ∷ at_commit)

automatic_apply_has_new_plan_example :
    (sum : String) × (lookup last_plan_sum unapplied.metadata.annotations ≡ some sum)
    × ((sum == "") ≡ false)
    × (lookup last_apply_sum unapplied.metadata.annotations ≢ some sum)
unfolding get_state facts choose_state is_running is_last_plan_too_old
    is_last_relevant_commit_planned has_last_plan_failed is_apply_up_to_date is_sync_scheduled
    is_apply_scheduled has_last_run_reached_retry_limit lookup ◌+ℤ◌
automatic_apply_has_new_plan_example =
    automatic_apply_has_new_plan cfg all_at_zero calm unapplied (a_repository none) empty_store refl

abbrev active_run : TerraformRun
active_run = a_run "plan" "Running" 0 "runner-pod"

abbrev active_store : Store
active_store = a_store planned_by_run (active_run ∷ [])

update_latest_runs-Updated_example :
    let runs = history_entry "a" (pos 1) ∷ [] in
    ((update_latest_runs (pos 100) runs active_run (pos 2) ≡ none) × (runs ≡ []) × (pos 2 ≤ℤ pos 0))
    ⊎ ((new : _) × (update_latest_runs (pos 100) runs active_run (pos 2) ≡ some new)
        × Updated runs active_run (pos 2) new)
update_latest_runs-Updated_example =
    update_latest_runs-Updated (pos 100) (history_entry "a" (pos 1) ∷ []) active_run (pos 2)

cleanup_spares_history_example :
    calm.get_run
      (cleanup_runs calm planned_by_run (a_repository none) active_store).1
      (record { namespace = "team"; name = "run" })
    ≡ calm.get_run active_store (record { namespace = "team"; name = "run" })
cleanup_spares_history_example =
    cleanup_spares_history calm (cluster-KeepsRuns PodPhase.running)
      (record { namespace = "team"; name = "run" }) planned_by_run (a_repository none) active_store
      refl
