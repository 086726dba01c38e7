-- ===== src/Run/Lifecycle.antt =====
-- How the phase of its pod drives a started run, and why a run whose pods fail ends.
use burrito.Base.{
  ◌+◌, ◌≤◌, ◌<◌, ◌≡◌, refl, ◌∙◌, ◌⊎◌, inl, inr, Bool, true, false, List, [], ◌∷◌, arith, ◌==◌,
  if◌then◌else◌, length, Bool-cases,
}
use burrito.Base.Int.{pos_part}
use burrito.Base.Effect.{ok}
use burrito.Api.{TerraformLayer, TerraformRepository, TerraformRun}
use burrito.World.{World, Runtime, Config, Pod, PodPhase, pending, running, unknown}
use burrito.Run.Conditions.{
  has_status, get_pod_phase, get_max_retries, has_reached_retry_limit, has_succeeded, is_running,
  is_in_failure_grace_period,
}
use burrito.Run.States.{
  State, failure_grace_period, retrying, get_state, get_state_string, handle, launch,
  retrying_handler, is_max_concurrent_runner_pods_reached,
}
use burrito.Run.Pod.{get_pod}
use burrito.Run.Reconcile.{advance, settle, is_terminal}

-- The states in which the pod of a run is looked for.
abbrev pub IsStarted : TerraformRun → Type 0
IsStarted run =
    ((run.status.state ≡ "Initial")
      ⊎ ((run.status.state ≡ "Retrying") ⊎ (run.status.state ≡ "Running")))
    × ((run.status.runner_pod == "") ≡ false)

-- The next state by the phase of the pod, whether the retry limit is reached, and whether the grace
-- period after a failure lasts.
unfoldable pub by_phase : PodPhase → Bool → Bool → State
by_phase PodPhase.succeeded limit grace = State.succeeded
by_phase pending limit grace = State.running
by_phase running limit grace = State.running
by_phase PodPhase.failed limit grace =
    if limit then State.failed else if grace then failure_grace_period else retrying
by_phase unknown limit grace = if limit then State.failed else retrying

module _ (cfg : Config) (rt : Runtime) (w : World) (layer : TerraformLayer)
    (repo : TerraformRepository) where
  -- The next state of a started run is a function of the phase of its pod: Succeeded and Running as
  -- the pod is; after a failure Failed at the retry limit, and below it FailureGracePeriod while the
  -- grace period lasts and then Retrying; and for a pod that cannot be read, Failed or Retrying.
  pub state_of_started :
      (run : TerraformRun) (s : w.State)
      → IsStarted run
      → (get_state cfg rt w s run layer repo).0
        ≡ by_phase
            (get_pod_phase w s run.status.runner_pod run.metadata.namespace)
            (has_reached_retry_limit cfg run layer repo).1
            (is_in_failure_grace_period w s cfg rt run).1
  unfolding get_state by_phase has_status has_succeeded is_running is_in_failure_grace_period
  state_of_started run s (inl e, p) = rw (e, p) (ground arith)
  state_of_started run s (inr (inl e), p) = rw (e, p) (ground arith)
  state_of_started run s (inr (inr e), p) = rw (e, p) (ground arith)

  -- A run through reconciliations, each in its own state of the world, until it is terminal.
  unfoldable pub life : List w.State → TerraformRun → TerraformRun
  life [] run = run
  life (s ∷ later) run =
      let rest = life later (settle cfg rt w run layer repo s).0.1 in
      if is_terminal run then run else rest

  -- A look at a run finds its pod failed, with the grace period over.
  pub record FindsFailed (s : w.State) (run : TerraformRun) : Type 0 where
    pub is_failed : get_pod_phase w s run.status.runner_pod run.metadata.namespace ≡ PodPhase.failed
    pub grace_over : (is_in_failure_grace_period w s cfg rt run).1 ≡ false

  -- There is room for a pod, and the pod of the run's next attempt can be created.
  pub record CanLaunch (s : w.State) (run : TerraformRun) : Type 0 where
    pub has_room : is_max_concurrent_runner_pods_reached cfg rt w s repo ≡ ok false
    pub pod : Pod
    pub is_created :
        (w.create_pod (get_pod w cfg run layer repo s).0 (get_pod w cfg run layer repo s).1).0
        ≡ ok pod
    pub is_named : (pod.metadata.name == "") ≡ false

  -- What the looks of a run's life find, each at the run as the one before left it: until the run is
  -- terminal, its pod failed with the grace period over, and below the retry limit the next pod can be
  -- launched.
  pub data Failing : List w.State → TerraformRun → Type 0 where
    unseen : {run : TerraformRun} → Failing [] run
    ended : {later : List w.State} {run : TerraformRun} → is_terminal run ≡ true → Failing later run
    look :
        {s : w.State} {later : List w.State} {run : TerraformRun}
        → FindsFailed s run
        → ((has_reached_retry_limit cfg run layer repo).1 ≡ false → CanLaunch s run)
        → Failing later (settle cfg rt w run layer repo s).0.1
        → Failing (s ∷ later) run

  state_of_failing :
      (run : TerraformRun) (s : w.State)
      → FindsFailed s run
      → IsStarted run
      → (get_state cfg rt w s run layer repo).0
        ≡ (if (has_reached_retry_limit cfg run layer repo).1 then State.failed else retrying)
  unfolding by_phase
  state_of_failing run s h started = state_of_started run s started ∙ rw (h.is_failed, h.grace_over)

  retry_of_failing :
      (run : TerraformRun) (s : w.State)
      → CanLaunch s run
      → let info = (retrying_handler cfg rt w run layer repo s).0.1 in
        (info.retries ≡ run.status.retries + 1) × ((info.runner_pod == "") ≡ false)
  unfolding retrying_handler launch
  retry_of_failing run s h = rw (h.has_room, h.is_created) (refl, h.is_named)

  -- One reconciliation of a started run: one more retry, or the end at the limit.
  step_of_failing :
      (run : TerraformRun) (s : w.State)
      → FindsFailed s run
      → ((has_reached_retry_limit cfg run layer repo).1 ≡ false → CanLaunch s run)
      → IsStarted run
      → let run' = (settle cfg rt w run layer repo s).0.1 in
        if (has_reached_retry_limit cfg run layer repo).1
        then run'.status.state ≡ "Failed"
        else IsStarted run' × (run'.status.retries ≡ run.status.retries + 1)
  unfolding settle advance handle get_state_string
  step_of_failing run s h room started =
      elim (Bool-cases (has_reached_retry_limit cfg run layer repo).1) [
        | inl reached ↦ rw (reached, state_of_failing run s h started, reached) refl
        | inr below ↦
            rw (below, state_of_failing run s h started, below)
              (let (count, named) = retry_of_failing run s (room below) in
                ((inr (inl refl), named), count))
      ]

  life_of_terminal :
      (later : List w.State) (run : TerraformRun)
      → run.status.state ≡ "Failed"
      → (life later run).status.state ≡ "Failed"
  unfolding life is_terminal
  life_of_terminal [] run e = e
  life_of_terminal (s ∷ later) run e = rw e

  started_is_live : (run : TerraformRun) → IsStarted run → is_terminal run ≡ false
  unfolding is_terminal
  started_is_live run (inl e, p) = rw e
  started_is_live run (inr (inl e), p) = rw e
  started_is_live run (inr (inr e), p) = rw e

  below_limit :
      (run : TerraformRun)
      → (has_reached_retry_limit cfg run layer repo).1 ≡ false
      → run.status.retries < pos_part (get_max_retries cfg.terraform_max_retries repo layer)
  unfolding has_reached_retry_limit
  below_limit run h = ground arith

  -- A started run within its retry limit is Failed once it has been reconciled once more than it has
  -- retries left, and stays so, if each reconciliation before the end finds its pod failed and the
  -- grace period over, and below the limit has room for a pod and can create the next one.
  pub failing_run_ends :
      (later : List w.State) (run : TerraformRun)
      → Failing later run
      → IsStarted run
      → run.status.retries ≤ pos_part (get_max_retries cfg.terraform_max_retries repo layer)
      → pos_part (get_max_retries cfg.terraform_max_retries repo layer)
        < run.status.retries + length later
      → (life later run).status.state ≡ "Failed"
  unfolding life
  failing_run_ends later run (ended over) started capped enough =
      absurd (cc (over, started_is_live run started))
  failing_run_ends [] run unseen started capped enough = absurd (omega arith)
  failing_run_ends (s ∷ later) run (look h room rest) started capped enough =
      rw (started_is_live run started)
        (elim (Bool-cases (has_reached_retry_limit cfg run layer repo).1) [
          | inl reached ↦
              life_of_terminal later _ (rw reached at (step_of_failing run s h room started))
          | inr below ↦
              let (started', count) = rw below at (step_of_failing run s h room started) in
              failing_run_ends later (settle cfg rt w run layer repo s).0.1 rest started'
                (omega (arith, count, below_limit run below)) (omega (arith, count))
        ])
