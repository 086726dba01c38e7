-- ===== src/Layer/States.antt =====
-- internal/controllers/terraformlayer/states.go. A handler's answer is `none` where it panics.
use burrito.Base.{
  String, Bool, true, false, not, ◌&&◌, ◌||◌, Option, none, some, List, [], ◌∷◌, ◌++◌, ◌==◌,
  if◌then◌else◌,
}
use burrito.Base.Dict.{lookup}
use burrito.Base.Effect.{Result, ok, err, Effect}
use burrito.Api.{Duration, Condition, TerraformLayer, TerraformRepository, TerraformRun}
use burrito.Api.Config.{get_auto_apply_enabled}
use burrito.Annotations.{last_relevant_commit, sync_now, apply_now, remove_annotation}
use burrito.SyncWindow.{is_sync_blocked}
use burrito.World.{World, Runtime, Config}
use burrito.Layer.Conditions.{
  is_running, is_last_plan_too_old, is_last_relevant_commit_planned, has_last_plan_failed,
  is_apply_up_to_date, is_sync_scheduled, has_last_run_reached_retry_limit, is_apply_scheduled,
}
use burrito.Layer.Runs.{Action, plan_action, apply_action, action_name, get_run}

pub data State : Type 0 where
  idle : State
  plan_needed : State
  apply_needed : Bool → State
  max_retries_reached : State

-- `getStateString`: the name of the Go type.
unfoldable pub get_state_string : State → String
get_state_string idle = "Idle"
get_state_string plan_needed = "PlanNeeded"
get_state_string (apply_needed is_manual) = "ApplyNeeded"
get_state_string max_retries_reached = "MaxRetriesReached"

-- What the conditions say of a layer.
pub record Facts : Type 0 where
  pub running : Bool
  pub plan_too_old : Bool
  pub commit_planned : Bool
  pub plan_failed : Bool
  pub apply_up_to_date : Bool
  pub sync_scheduled : Bool
  pub apply_scheduled : Bool
  pub plan_exhausted : Bool
  pub apply_exhausted : Bool

-- The `switch` of `GetState`, with the annotation that it removes.
unfoldable pub choose_state : Facts → State × Option String
choose_state f =
    if f.running
    then (idle, none)
    else if f.sync_scheduled
    then (plan_needed, some sync_now)
    else if f.apply_scheduled
    then (apply_needed true, some apply_now)
    else if (f.plan_too_old || not f.commit_planned) && not f.plan_exhausted
    then (plan_needed, none)
    else if not f.apply_up_to_date && (not f.plan_failed && not f.apply_exhausted)
    then (apply_needed false, none)
    else if f.plan_exhausted || f.apply_exhausted
    then (max_retries_reached, none)
    else (idle, none)

-- The time until the next call and the created run.
abbrev pub Answer : Type 0
Answer = Option (Duration × Option TerraformRun)

module _ (cfg : Config) (rt : Runtime) (w : World) where
  unfoldable pub facts : w.State → TerraformLayer → TerraformRepository → Facts
  facts s layer repo =
      let retry = (has_last_run_reached_retry_limit cfg layer repo w s).1 in
      record {
        running = (is_running w s layer).1;
        plan_too_old = (is_last_plan_too_old rt cfg (w.now s) layer).1;
        commit_planned = (is_last_relevant_commit_planned rt layer).1;
        plan_failed = (has_last_plan_failed layer).1;
        apply_up_to_date = (is_apply_up_to_date rt layer).1;
        sync_scheduled = (is_sync_scheduled layer).1;
        apply_scheduled = (is_apply_scheduled layer).1;
        plan_exhausted = retry.reached_limit && retry.action == "plan";
        apply_exhausted = retry.reached_limit && retry.action == "apply";
      }

  unfoldable pub all_conditions : w.State → TerraformLayer → TerraformRepository → List Condition
  all_conditions s layer repo =
      (is_running w s layer).0
      ∷ (is_last_plan_too_old rt cfg (w.now s) layer).0
      ∷ (is_last_relevant_commit_planned rt layer).0
      ∷ (has_last_plan_failed layer).0
      ∷ (is_apply_up_to_date rt layer).0
      ∷ (is_sync_scheduled layer).0
      ∷ (has_last_run_reached_retry_limit cfg layer repo w s).0
      ∷ (is_apply_scheduled layer).0
      ∷ []

  abbrev remove_if : TerraformLayer → Option String → Effect w.State TerraformLayer
  remove_if layer none s = (layer, s)
  remove_if layer (some key) s = remove_annotation w layer key s

  -- The state, the conditions, and the layer in memory.
  unfoldable pub get_state :
      TerraformLayer
      → TerraformRepository
      → Effect w.State (State × List Condition × TerraformLayer)
  get_state layer repo s =
      let (state, key) = choose_state (facts s layer repo) in
      let (layer', s') = remove_if layer key s in ((state, all_conditions s layer repo, layer'), s')

  abbrev is_some {ℓ} : {A : Type ℓ} → Option A → Bool
  is_some none = false
  is_some (some a) = true

  unfoldable pub is_action_blocked : w.State → TerraformLayer → TerraformRepository → Action → Bool
  is_action_blocked s layer repo action = is_some (
      is_sync_blocked rt (repo.spec.sync_windows ++ cfg.default_sync_windows) (w.now s)
        (action_name action) layer.metadata.name)

  unfoldable pub created : Result TerraformRun → Answer
  created (err e) = some (cfg.timers.on_error, none)
  created (ok run) = some (cfg.timers.wait_action, some run)

  submit : Option TerraformRun → Effect w.State Answer
  unfolding created
  submit none s = (none, s)
  submit (some run) s = let (r, s') = w.create_run run s in (created r, s')

  for_revision : TerraformLayer → Action → Option String → Effect w.State Answer
  unfolding submit
  for_revision layer action none s = (some (cfg.timers.on_error, none), s)
  for_revision layer action (some revision) s = submit (get_run layer revision action) s

  -- What the handlers of `PlanNeeded` and `ApplyNeeded` have in common.
  unfoldable pub start_run : TerraformLayer → TerraformRepository → Action → Effect w.State Answer
  unfolding for_revision
  start_run layer repo action s =
      if is_action_blocked s layer repo action
      then (some (cfg.timers.wait_action, none), s)
      else for_revision layer action (lookup last_relevant_commit layer.metadata.annotations) s

  unfoldable pub handle : State → TerraformLayer → TerraformRepository → Effect w.State Answer
  handle idle layer repo s = (some (cfg.timers.drift_detection, none), s)
  handle plan_needed layer repo s = start_run layer repo plan_action s
  handle (apply_needed is_manual) layer repo s =
      if not is_manual && not (get_auto_apply_enabled repo layer)
      then (some (cfg.timers.drift_detection, none), s)
      else start_run layer repo apply_action s
  handle max_retries_reached layer repo s = (some (cfg.timers.drift_detection, none), s)
