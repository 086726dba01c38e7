-- ===== src/Run/Reconcile.antt =====
-- `Reconcile` of internal/controllers/terraformrun/controller.go.
use burrito.Base.{Bool, true, false, ◌||◌, List, [], ◌∷◌, ◌++◌, ◌==◌, if◌then◌else◌}
use burrito.Base.Int.{pos}
use burrito.Base.Effect.{Result, ok, err, not_found, Effect}
use burrito.Api.{
  Duration, NamespacedName, Attempt, TerraformLayer, TerraformRepository, TerraformRun,
  TerraformRunStatus,
}
use burrito.World.{World, Runtime, Config}
use burrito.Run.States.{RunInfo, get_state, get_state_string, handle}
use burrito.Run.Logs.{upload_logs}

-- `ctrl.Result` with the error that goes with it, if there is one.
pub record Outcome : Type 0 where
  pub requeue_after : Duration
  pub failed : Bool

abbrev pub outcome : Duration → Bool → Outcome
outcome d e = record { requeue_after = d; failed = e }

-- A new pod is a new attempt.
unfoldable pub add_attempt : RunInfo → List Attempt → List Attempt
add_attempt info attempts =
    if info.new_pod
    then attempts
      ++ record { pod_name = info.runner_pod; number = info.retries; logs_uploaded = false } ∷ []
    else attempts

-- `run.Status.State == "Succeeded" || run.Status.State == "Failed"`
unfoldable pub is_terminal : TerraformRun → Bool
is_terminal run = run.status.state == "Succeeded" || run.status.state == "Failed"

module _ (cfg : Config) (rt : Runtime) (w : World) where
  -- From `GetState` to the new status, before the logs are uploaded.
  unfoldable pub advance :
      TerraformRun → TerraformLayer → TerraformRepository → Effect w.State (Duration × TerraformRun)
  unfolding add_attempt
  advance run layer repo s =
      let (state, conditions) = get_state cfg rt w s run layer repo in
      let ((after, info), s') = handle cfg rt w state run layer repo s in
      let status : TerraformRunStatus = record {
        conditions = conditions;
        state = get_state_string state;
        retries = info.retries;
        last_run = info.last_run;
        attempts = add_attempt info run.status.attempts;
        runner_pod = info.runner_pod;
      } in
      ((after, record run { status = status }), s')

  -- The run as it is handed to `Status().Update`: the new status, with the logs uploaded.
  unfoldable pub settle :
      TerraformRun → TerraformLayer → TerraformRepository → Effect w.State (Duration × TerraformRun)
  settle run layer repo s =
      let ((after, run'), s1) = advance run layer repo s in
      let ((attempts, _), s2) = upload_logs w run' run'.status.attempts s1 in
      ((after, record run' { status = record run'.status { attempts = attempts } }), s2)

  -- The rest of `Reconcile`, once the layer, the repository and the bundle are there.
  unfoldable pub reconcile_ready :
      TerraformRun → TerraformLayer → TerraformRepository → Effect w.State Outcome
  unfolding settle
  reconcile_ready run layer repo s =
      let ((after, settled), s1) = settle run layer repo s in
      let (_, s2) = w.update_run_status settled s1 in (outcome after false, s2)

  checked :
      TerraformRun → TerraformLayer → TerraformRepository → Result Bool → Effect w.State Outcome
  unfolding reconcile_ready
  checked run layer repo (err e) s = (outcome cfg.timers.on_error true, s)
  checked run layer repo (ok false) s = (outcome cfg.timers.on_error false, s)
  checked run layer repo (ok true) s = reconcile_ready run layer repo s

  with_repository :
      TerraformRun → TerraformLayer → Result TerraformRepository → Effect w.State Outcome
  unfolding checked
  with_repository run layer (err e) s = (outcome cfg.timers.on_error true, s)
  with_repository run layer (ok repo) s =
      checked run layer repo
        (w.check_git_bundle s layer.spec.repository layer.spec.branch run.spec.layer.revision) s

  with_layer : TerraformRun → Result TerraformLayer → Effect w.State Outcome
  unfolding with_repository
  with_layer run (err e) s = (outcome cfg.timers.on_error true, s)
  with_layer run (ok layer) s =
      with_repository run layer (w.get_repository s layer.spec.repository) s

  with_run : Result TerraformRun → Effect w.State Outcome
  unfolding with_layer is_terminal
  with_run (err not_found) s = (outcome (pos 0) false, s)
  with_run (err _) s = (outcome (pos 0) true, s)
  with_run (ok run) s =
      if is_terminal run
      then (outcome (pos 0) false, s)
      else with_layer run
          (w.get_layer s
            (record { namespace = run.spec.layer.namespace; name = run.spec.layer.name }))
          s

  unfoldable pub reconcile : NamespacedName → Effect w.State Outcome
  unfolding with_run
  reconcile req s = with_run (w.get_run s req) s
