-- ===== src/Run/States.antt =====
-- internal/controllers/terraformrun/states.go: the state of a run and its handlers.
use burrito.Base.{
  ℕ, ◌+◌, String, Bool, true, false, not, ◌&&◌, Option, none, some, List, [], ◌∷◌, if◌then◌else◌,
  count,
}
use burrito.Base.Int.{ℤ, pos, ◌+ℤ◌, ◌-ℤ◌, ltb_ℤ, leb_ℤ}
use burrito.Base.Dict.{Dict}
use burrito.Base.Effect.{Result, ok, err, Effect}
use burrito.Api.{Time, Duration, Condition, TerraformLayer, TerraformRepository, TerraformRun}
use burrito.World.{World, Runtime, Config, Pod}
use burrito.Lock.{create_lock, delete_lock}
use burrito.Run.Conditions.{
  has_status, has_reached_retry_limit, has_succeeded, is_running, is_in_failure_grace_period,
  get_last_action_time, get_run_exponential_back_off_time, is_active,
}
use burrito.Run.Pod.{get_pod}

pub data State : Type 0 where
  initial succeeded failure_grace_period failed retrying running : State

-- `getStateString`: the name of the Go type.
unfoldable pub get_state_string : State → String
get_state_string initial = "Initial"
get_state_string succeeded = "Succeeded"
get_state_string failure_grace_period = "FailureGracePeriod"
get_state_string failed = "Failed"
get_state_string retrying = "Retrying"
get_state_string running = "Running"

pub record RunInfo : Type 0 where
  pub retries : ℕ
  pub last_run : String
  pub runner_pod : String
  pub new_pod : Bool

unfoldable pub get_run_info : TerraformRun → RunInfo
get_run_info run = record {
  retries = run.status.retries;
  last_run = run.status.last_run;
  runner_pod = run.status.runner_pod;
  new_pod = false;
}

-- `RunInfo{}`
abbrev pub no_info : RunInfo
no_info = record { retries = 0; last_run = ""; runner_pod = ""; new_pod = false }

-- One second.
abbrev pub second : Duration
second = pos 1_000_000_000

-- The `switch` of `GetState` on what the conditions say.
unfoldable pub choose_state : Bool → Bool → Bool → Bool → Bool → State
choose_state has_status reached_limit has_succeeded is_running in_grace =
    if not has_status
    then initial
    else if has_succeeded
    then succeeded
    else if in_grace && (not reached_limit && not is_running)
    then failure_grace_period
    else if in_grace && (reached_limit && not is_running)
    then failed
    else if not is_running && not reached_limit
    then retrying
    else if is_running
    then running
    else failed

abbrev pub Answer : Type 0
Answer = Duration × RunInfo

module _ (cfg : Config) (rt : Runtime) (w : World) where
  unfoldable pub get_state :
      w.State → TerraformRun → TerraformLayer → TerraformRepository → State × List Condition
  unfolding choose_state
  get_state s run layer repo =
      let (c1, status) = has_status run in
      let (c2, reached) = has_reached_retry_limit cfg run layer repo in
      let (c3, success) = has_succeeded w s run in
      let (c4, active) = is_running w s run in
      let (c5, grace) = is_in_failure_grace_period w s cfg rt run in
      (choose_state status reached success active grace, c1 ∷ c2 ∷ c3 ∷ c4 ∷ c5 ∷ [])

  runner_pods : Dict String
  runner_pods = ("burrito/component", "runner") ∷ []

  at_limit : ℤ → Result (List Pod) → Result Bool
  at_limit limit (err e) = err e
  at_limit limit (ok pods) = ok (leb_ℤ limit (pos (count (λ p. is_active p.phase) pods)))

  abbrev pub pod_limit : TerraformRepository → ℤ
  pod_limit repo =
      if ltb_ℤ (pos 0) repo.spec.max_concurrent_runner_pods
      then repo.spec.max_concurrent_runner_pods
      else cfg.max_concurrent_runner_pods

  unfoldable pub is_max_concurrent_runner_pods_reached : w.State → TerraformRepository → Result Bool
  unfolding at_limit runner_pods
  is_max_concurrent_runner_pods_reached s repo =
      if ltb_ℤ (pos 0) (pod_limit repo)
      then at_limit (pod_limit repo) (w.list_pods s runner_pods)
      else ok false

  launched : RunInfo → ℕ → Result Pod → Effect w.State Answer
  launched fallback retries (err e) s = ((cfg.timers.on_error, fallback), s)
  launched fallback retries (ok pod) s =
      let info : RunInfo = record {
        retries = retries;
        last_run = rt.format_time (w.now s);
        runner_pod = pod.metadata.name;
        new_pod = true;
      } in
      ((second, info), s)

  launch_unless :
      RunInfo
      → ℕ
      → TerraformRun
      → TerraformLayer
      → TerraformRepository
      → Result Bool
      → Effect w.State Answer
  unfolding launched
  launch_unless fallback retries run layer repo (err e) s = ((cfg.timers.on_error, fallback), s)
  launch_unless fallback retries run layer repo (ok true) s =
      ((cfg.timers.wait_action, fallback), s)
  launch_unless fallback retries run layer repo (ok false) s =
      let (pod, s1) = get_pod w cfg run layer repo s in
      let (created, s2) = w.create_pod pod s1 in launched fallback retries created s2

  -- What `Initial` and `Retrying` have in common: the pod limit, the pod, and the new attempt.
  unfoldable pub launch :
      RunInfo → ℕ → TerraformRun → TerraformLayer → TerraformRepository → Effect w.State Answer
  unfolding launch_unless
  launch fallback retries run layer repo s =
      launch_unless fallback retries run layer repo (is_max_concurrent_runner_pods_reached s repo) s

  with_lock :
      TerraformRun
      → TerraformLayer
      → TerraformRepository
      → Result (Unit {0})
      → Effect w.State Answer
  with_lock run layer repo (err e) s = ((cfg.timers.on_error, no_info), s)
  with_lock run layer repo (ok _) s = launch no_info 0 run layer repo s

  unfoldable pub initial_handler :
      TerraformRun → TerraformLayer → TerraformRepository → Effect w.State Answer
  unfolding with_lock
  initial_handler run layer repo s =
      let (locked, s') = create_lock w layer run s in with_lock run layer repo locked s'

  unfoldable pub running_handler : TerraformRun → Effect w.State Answer
  unfolding get_run_info
  running_handler run s = ((cfg.timers.wait_action, get_run_info run), s)

  idle_time : TerraformRun → Option Time → Time → Duration
  idle_time run none now = cfg.timers.on_error
  idle_time run (some last_action) now =
      let end_idle_time =
        last_action +ℤ get_run_exponential_back_off_time rt cfg.timers.failure_grace_period run in
      if ltb_ℤ now end_idle_time then cfg.timers.wait_action else now -ℤ end_idle_time

  unfoldable pub failure_grace_period_handler : TerraformRun → Effect w.State Answer
  unfolding get_run_info idle_time
  failure_grace_period_handler run s =
      ((idle_time run (get_last_action_time rt run) (w.now s), get_run_info run), s)

  unfoldable pub retrying_handler :
      TerraformRun → TerraformLayer → TerraformRepository → Effect w.State Answer
  unfolding get_run_info
  retrying_handler run layer repo s =
      launch (get_run_info run) (run.status.retries + 1) run layer repo s

  unlocked : TerraformRun → Result (Unit {0}) → Answer
  unlocked run (ok _) = (cfg.timers.wait_action, get_run_info run)
  unlocked run (err e) = (cfg.timers.on_error, get_run_info run)

  -- `Succeeded` and `Failed` have the same handler.
  unfoldable pub terminal_handler : TerraformRun → TerraformLayer → Effect w.State Answer
  unfolding unlocked get_run_info
  terminal_handler run layer s =
      let (deleted, s') = delete_lock w layer run s in (unlocked run deleted, s')

  unfoldable pub handle :
      State → TerraformRun → TerraformLayer → TerraformRepository → Effect w.State Answer
  unfolding initial_handler running_handler failure_grace_period_handler retrying_handler
      terminal_handler
  handle initial run layer repo = initial_handler run layer repo
  handle succeeded run layer repo = terminal_handler run layer
  handle failure_grace_period run layer repo = failure_grace_period_handler run
  handle failed run layer repo = terminal_handler run layer
  handle retrying run layer repo = retrying_handler run layer repo
  handle running run layer repo = running_handler run
