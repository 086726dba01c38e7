-- ===== src/Run/Conditions.antt =====
-- internal/controllers/terraformrun/conditions.go, and the back-off of controller.go. Each condition
-- is the reported one with the Boolean that goes with it.
use burrito.Base.{
  zero, suc, String, Bool, true, false, not, ◌&&◌, ◌||◌, Option, none, some, ◌==◌, if◌then◌else◌,
}
use burrito.Base.Int.{ℤ, pos, ◌+ℤ◌, ◌*ℤ◌, ltb_ℤ, leb_ℤ, wrap64}
use burrito.Base.Effect.{Result, ok, err}
use burrito.Api.{
  Time, Duration, ObjectMeta, Condition, ConditionStatus, is_true, is_false, TerraformLayer,
  TerraformRepository, TerraformRun,
}
use burrito.World.{
  World, Runtime, Config, Pod, PodPhase, pending, running, succeeded, failed, unknown,
}

abbrev pub report : ObjectMeta → String → ConditionStatus → String → Condition
report meta type status reason = record {
  type = type;
  observed_generation = meta.generation;
  status = status;
  reason = reason;
}

abbrev pub phase_of : Result Pod → PodPhase
phase_of (ok pod) = pod.phase
phase_of (err e) = unknown

abbrev pub is_succeeded : PodPhase → Bool
is_succeeded succeeded = true
is_succeeded _ = false

abbrev pub is_failed : PodPhase → Bool
is_failed failed = true
is_failed _ = false

abbrev pub is_active : PodPhase → Bool
is_active pending = true
is_active running = true
is_active _ = false

-- The layer's limit takes precedence over the repository's, and that over the default.
unfoldable pub get_max_retries : ℤ → TerraformRepository → TerraformLayer → ℤ
get_max_retries default r l = elim l.spec.remediation_strategy.max_retries [
  | some layer ↦ layer
  | none ↦ elim r.spec.remediation_strategy.max_retries [ some repo ↦ repo | none ↦ default ]
]

unfoldable pub has_status : TerraformRun → Condition × Bool
has_status run =
    if run.status.state == ""
    then (report run.metadata "HasStatus" is_false "HasNoStatus", false)
    else (report run.metadata "HasStatus" is_true "HasStatus", true)

unfoldable pub has_reached_retry_limit :
    Config → TerraformRun → TerraformLayer → TerraformRepository → Condition × Bool
unfolding get_max_retries
has_reached_retry_limit cfg run layer repo =
    if leb_ℤ (get_max_retries cfg.terraform_max_retries repo layer) (pos run.status.retries)
    then (report run.metadata "HasReachedRetryLimit" is_true "HasReachedRetryLimit", true)
    else (report run.metadata "HasReachedRetryLimit" is_false "HasNotReachedRetryLimit", false)

-- `math.Exp` grows past an `int32`, and the product past an `int64`.
unfoldable pub get_run_exponential_back_off_time : Runtime → Duration → TerraformRun → Duration
get_run_exponential_back_off_time rt default run = elim run.status.retries [
  | zero ↦ default
  | suc n ↦ wrap64 (rt.exp_int32 (suc n) *ℤ default)
]

unfoldable pub get_last_action_time : Runtime → TerraformRun → Option Time
get_last_action_time rt run = rt.parse_time run.status.last_run

module _ (w : World) (s : w.State) where
  unfoldable pub get_pod_phase : String → String → PodPhase
  get_pod_phase name namespace =
      phase_of (w.get_pod s (record { namespace = namespace; name = name }))

  -- The source compares with "Suceeded", a state that no run ever has.
  unfoldable pub has_succeeded : TerraformRun → Condition × Bool
  unfolding get_pod_phase
  has_succeeded run =
      if run.status.state == "Suceeded"
        || (not (run.status.runner_pod == "")
            && is_succeeded (get_pod_phase run.status.runner_pod run.metadata.namespace))
      then (report run.metadata "HasSucceeded" is_true "HasSucceeded", true)
      else (report run.metadata "HasSucceeded" is_false "HasNotSucceeded", false)

  unfoldable pub is_running : TerraformRun → Condition × Bool
  unfolding get_pod_phase
  is_running run =
      let state = run.status.state in
      if (state == "Initial" || (state == "Retrying" || state == "Running"))
        && (not (run.status.runner_pod == "")
            && is_active (get_pod_phase run.status.runner_pod run.metadata.namespace))
      then (report run.metadata "IsRunning" is_true "IsRunning", true)
      else (report run.metadata "IsRunning" is_false "NotRunning", false)

  -- `nextFailure.After(now)`, for a run whose last action has a time.
  abbrev in_grace : Config → Runtime → TerraformRun → Option Time → Condition × Bool
  in_grace cfg rt run none =
      (report run.metadata "IsInFailureGracePeriod" is_false "CouldNotGetLastActionTime", false)
  in_grace cfg rt run (some last_failure) =
      let back_off = get_run_exponential_back_off_time rt cfg.timers.failure_grace_period run in
      if ltb_ℤ (w.now s) (last_failure +ℤ back_off)
      then (report run.metadata "IsInFailureGracePeriod" is_true "InFailureGracePeriod", true)
      else (report run.metadata "IsInFailureGracePeriod" is_false "FailureGracePeriodOver", false)

  unfoldable pub is_in_failure_grace_period : Config → Runtime → TerraformRun → Condition × Bool
  unfolding get_pod_phase get_last_action_time
  is_in_failure_grace_period cfg rt run =
      if not (run.status.runner_pod == "")
        && is_failed (get_pod_phase run.status.runner_pod run.metadata.namespace)
      then in_grace cfg rt run (get_last_action_time rt run)
      else (report run.metadata "IsInFailureGracePeriod" is_false "NoFailureYet", false)
