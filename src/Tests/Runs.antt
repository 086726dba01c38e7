-- ===== src/Tests/Runs.antt =====
-- The theorems on runs, at concrete inputs.
use burrito.Base.{◌+◌, ◌≤◌, ◌≡◌, refl, inl, inr, true, none, length}
use burrito.Base.Int.{pos}
use burrito.Base.Effect.{ok}
use burrito.Api.{TerraformRun}
use burrito.World.{World, PodPhase}
use burrito.Lock.{is_layer_locked, create_lock}
use burrito.Run.States
use burrito.Run.States.{no_info, initial_handler, handle}
use burrito.Run.Conditions.{
  has_status, has_succeeded, is_running, get_pod_phase, has_reached_retry_limit,
  is_in_failure_grace_period, get_max_retries,
}
use burrito.Run.Reconcile.{settle, advance, is_terminal}
use burrito.Run.Attempts.{Within, History, created, reconciled, attempts_bounded}
use burrito.Run.Locking.{initial_runs_exclude, ended_run_unlocks, Released}
use burrito.Run.Lifecycle.{by_phase, state_of_started}
use burrito.Run.Limits.{HasRoom, new_pod-HasRoom}
use burrito.Tests.Cluster.{cluster, cluster-KeepsLeases, no_times, Store}
use burrito.Tests.Samples.{cfg, a_run, new_layer, a_repository, empty_store}

abbrev calm : World
calm = cluster PodPhase.running

abbrev broken : World
broken = cluster PodPhase.failed

abbrev new_run : TerraformRun
new_run = a_run "plan" "" 0 ""

-- A run after its first reconciliation.
abbrev started_run : TerraformRun
started_run = (settle cfg no_times broken new_run new_layer (a_repository none) empty_store).0.1

-- And after its second.
abbrev retried_run : TerraformRun
retried_run = (settle cfg no_times broken started_run new_layer (a_repository none) empty_store).0.1

retried_history : History cfg no_times broken (pos 2) retried_run
unfolding get_max_retries
retried_history =
    reconciled new_layer (a_repository none) empty_store refl
      (reconciled new_layer (a_repository none) empty_store refl (created new_run refl refl))

attempts_bounded_example :
    Within 0 (retried_run.status.retries + 1) retried_run.status.attempts
    × (retried_run.status.retries ≤ 2)
    × (length retried_run.status.attempts ≤ 3)
attempts_bounded_example = attempts_bounded cfg no_times broken (pos 2) retried_history

initial_runs_exclude_example :
    let s' =
      (initial_handler cfg no_times calm new_run new_layer (a_repository none) empty_store).1 in
    (is_layer_locked calm s' new_layer ≡ ok true)
    × (initial_handler cfg no_times calm new_run new_layer (a_repository none) s'
        ≡ ((cfg.timers.on_error, no_info), s'))
unfolding initial_handler create_lock States.launch States.is_max_concurrent_runner_pods_reached
initial_runs_exclude_example =
    initial_runs_exclude calm (cluster-KeepsLeases PodPhase.running) cfg no_times new_run new_run
      new_layer new_layer (a_repository none) (a_repository none) empty_store refl refl

abbrev lost_run : TerraformRun
lost_run = a_run "plan" "Retrying" 1 "runner-pod"

state_of_started_example :
    (States.get_state cfg no_times broken empty_store lost_run new_layer (a_repository none)).0
    ≡ by_phase
        (get_pod_phase broken empty_store "runner-pod" "team")
        (has_reached_retry_limit cfg lost_run new_layer (a_repository none)).1
        (is_in_failure_grace_period broken empty_store cfg no_times lost_run).1
state_of_started_example =
    state_of_started cfg no_times broken new_layer (a_repository none) lost_run empty_store
      (inr (inl refl), refl)

-- A run whose retries are used up.
abbrev last_attempt : TerraformRun
last_attempt = a_run "plan" "Retrying" 2 "runner-pod"

last_attempt_fails :
    (States.get_state cfg no_times broken empty_store last_attempt new_layer (a_repository none)).0
    ≡ States.failed
unfolding States.get_state has_status has_succeeded is_in_failure_grace_period is_running
    has_reached_retry_limit
last_attempt_fails = refl

ended_run_unlocks_example :
    let (result, s') =
      advance cfg no_times broken last_attempt new_layer (a_repository none) empty_store in
    (is_terminal result.1 ≡ true)
    × Released broken
        (cluster-KeepsLeases PodPhase.failed)
        cfg
        last_attempt
        new_layer
        empty_store
        result.0
        s'
ended_run_unlocks_example =
    ended_run_unlocks broken (cluster-KeepsLeases PodPhase.failed) cfg no_times last_attempt
      new_layer (a_repository none) empty_store (inr last_attempt_fails)

-- Another run holds the layer.
abbrev locked_store : Store
locked_store = (create_lock calm new_layer last_attempt empty_store).1

new_pod-HasRoom_example : HasRoom cfg no_times calm (a_repository none) empty_store
unfolding handle States.launch States.is_max_concurrent_runner_pods_reached
new_pod-HasRoom_example =
    new_pod-HasRoom cfg no_times calm States.retrying lost_run new_layer (a_repository none)
      empty_store refl
