-- ===== src/Tests/Retries.antt =====
-- The end of a run whose pods fail, at a concrete run.
use burrito.Base.{ℕ, ◌==◌, ◌≡◌, refl, inl, inr, true, none, List, [], ◌∷◌, arith, if◌then◌else◌}
use burrito.Base.Int.{pos, ◌+ℤ◌, ◌*ℤ◌, wrap64}
use burrito.Base.Effect.{ok, err, not_found}
use burrito.Api.{TerraformRun}
use burrito.World.{World, PodPhase}
use burrito.Run.States
use burrito.Run.States.{handle}
use burrito.Run.Conditions.{
  has_status, has_succeeded, is_running, get_pod_phase, has_reached_retry_limit,
  is_in_failure_grace_period, get_max_retries, get_last_action_time,
  get_run_exponential_back_off_time,
}
use burrito.Run.Reconcile.{settle, advance, is_terminal}
use burrito.Run.Lifecycle.{FindsFailed, Failing, look, ended, life, failing_run_ends}
use burrito.Tests.Cluster.{cluster, all_at_zero, a_pod, Store}
use burrito.Tests.Samples.{cfg, a_run, new_layer, a_repository, empty_store}

-- A cluster in which the pods of one name are there, and have failed.
abbrev crashing : World
crashing = record (cluster PodPhase.failed) {
  get_pod = λ s k. if k.name == "runner-pod" then ok (a_pod PodPhase.failed) else err not_found;
}

abbrev lost_run : TerraformRun
lost_run = a_run "plan" "Retrying" 1 "runner-pod"

abbrev at_time : ℕ → Store
at_time n = record empty_store { time = pos n }

-- Each look is past the back-off of the run's last action, which all have the time 0.
three_states : List Store
three_states = at_time 100 ∷ at_time 200 ∷ at_time 300 ∷ []

-- The run after its second attempt was launched.
abbrev next_run : TerraformRun
next_run =
    (settle cfg all_at_zero crashing lost_run new_layer (a_repository none) (at_time 100)).0.1

next_run_fails :
    FindsFailed cfg all_at_zero crashing new_layer (a_repository none) (at_time 200) next_run
unfolding settle advance States.get_state handle States.choose_state has_status has_succeeded
    is_running has_reached_retry_limit get_max_retries get_pod_phase is_in_failure_grace_period
    States.retrying_handler States.launch States.is_max_concurrent_runner_pods_reached
    get_last_action_time get_run_exponential_back_off_time ◌+ℤ◌ wrap64 ◌*ℤ◌ States.get_state_string
next_run_fails = record { is_failed = refl; grace_over = refl }

-- There is no third.
next_run_ends :
    is_terminal
      (settle cfg all_at_zero crashing next_run new_layer (a_repository none) (at_time 200)).0.1
    ≡ true
unfolding settle advance States.get_state handle States.choose_state has_status has_succeeded
    is_running has_reached_retry_limit get_max_retries get_pod_phase is_in_failure_grace_period
    States.retrying_handler States.launch States.is_max_concurrent_runner_pods_reached
    get_last_action_time get_run_exponential_back_off_time ◌+ℤ◌ is_terminal States.get_state_string
    wrap64 ◌*ℤ◌
next_run_ends = refl

lost_run-Failing :
    Failing cfg all_at_zero crashing new_layer (a_repository none) three_states lost_run
unfolding three_states get_pod_phase is_in_failure_grace_period get_last_action_time
    get_run_exponential_back_off_time ◌+ℤ◌ wrap64 ◌*ℤ◌ States.is_max_concurrent_runner_pods_reached
lost_run-Failing =
    look (record { is_failed = refl; grace_over = refl })
      (λ below. record { has_room = refl; pod = _; is_created = refl; is_named = refl })
      (look next_run_fails
        (λ below. record { has_room = refl; pod = _; is_created = refl; is_named = refl })
        (ended next_run_ends))

failing_run_ends_example :
    (life cfg all_at_zero crashing new_layer (a_repository none) three_states lost_run).status.state
    ≡ "Failed"
unfolding three_states get_max_retries
failing_run_ends_example =
    failing_run_ends cfg all_at_zero crashing new_layer (a_repository none) three_states lost_run
      lost_run-Failing (inr (inl refl), refl) (omega arith) (omega arith)
