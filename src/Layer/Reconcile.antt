-- ===== src/Layer/Reconcile.antt =====
-- `Reconcile` of internal/controllers/terraformlayer/controller.go. `none` is a panic.
use burrito.Base.{String, Bool, true, false, ◌||◌, Option, none, some, List, ◌==◌, if◌then◌else◌}
use burrito.Base.Int.{pos}
use burrito.Base.Effect.{Result, ok, err, ApiError, Effect}
use burrito.Api.{
  Duration, NamespacedName, Condition, TerraformLayer, TerraformLayerRun, TerraformLayerStatus,
  TerraformRepository, TerraformRun,
}
use burrito.Api.Config.{get_terraform_enabled, get_opentofu_enabled, get_keep_last_runs}
use burrito.Annotations.{received}
use burrito.Lock.{is_layer_locked}
use burrito.World.{World, Runtime, Config}
use burrito.Run.Reconcile.{Outcome, outcome}
use burrito.Layer.States.{State, get_state, get_state_string, handle}
use burrito.Layer.History.{get_layer_run, update_latest_runs, cleanup_runs}

-- `validateLayerConfig`: whether there is an engine to run.
unfoldable pub is_valid_config : TerraformLayer → TerraformRepository → Bool
is_valid_config layer repository =
    get_terraform_enabled repository layer || get_opentofu_enabled repository layer

module _ (cfg : Config) (rt : Runtime) (w : World) where
  last_result : w.State → TerraformLayer → String
  last_result s layer =
      if layer.status.last_run.name == ""
      then "Layer has never been planned"
      else elim (w.get_plan s
          (record { namespace = layer.metadata.namespace; name = layer.metadata.name })
          layer.status.last_run.name "" "short") [
            | ok plan ↦ plan
            | err e ↦ "Error getting last Result"
          ]

  -- The last run and the history after the handler.
  unfoldable pub next_history :
      w.State
      → TerraformLayer
      → TerraformRepository
      → Option TerraformRun
      → Option (TerraformLayerRun × List TerraformLayerRun)
  next_history s layer repo none = some (layer.status.last_run, layer.status.latest_runs)
  next_history s layer repo (some run) =
      elim (update_latest_runs (w.now s) layer.status.latest_runs run
        (get_keep_last_runs repo layer)) [
          | none ↦ none
          | some history ↦ some (get_layer_run run, history)
        ]

  -- The status update and the clean-up; an error of either is only logged.
  store_status :
      TerraformLayer → TerraformRepository → TerraformLayerStatus → Effect w.State (Unit {0})
  store_status layer repo status s =
      let sent = record layer { status = status } in
      let (answer, s1) = w.update_layer_status sent s in
      let (_, s2) = cleanup_runs w (received sent answer) repo s1 in (tt, s2)

  recorded :
      State
      → List Condition
      → String
      → TerraformLayer
      → TerraformRepository
      → Duration
      → Option (TerraformLayerRun × List TerraformLayerRun)
      → Effect w.State (Option Outcome)
  unfolding store_status
  recorded state conditions result layer repo after none s = (none, s)
  recorded state conditions result layer repo after (some (last_run, history)) s =
      let status : TerraformLayerStatus = record {
        conditions = conditions;
        state = get_state_string state;
        last_result = result;
        last_run = last_run;
        latest_runs = history;
      } in
      let (_, s') = store_status layer repo status s in (some (outcome after false), s')

  answered :
      State
      → List Condition
      → String
      → TerraformLayer
      → TerraformRepository
      → Option (Duration × Option TerraformRun)
      → Effect w.State (Option Outcome)
  unfolding recorded
  answered state conditions result layer repo none s = (none, s)
  answered state conditions result layer repo (some (after, run)) s =
      recorded state conditions result layer repo after (next_history s layer repo run) s

  -- The rest of `Reconcile` for a valid layer.
  unfoldable pub reconcile_ready :
      TerraformLayer → TerraformRepository → Effect w.State (Option Outcome)
  unfolding answered last_result
  reconcile_ready layer repo s =
      let ((state, conditions, layer'), s1) = get_state cfg rt w layer repo s in
      let result = last_result s1 layer' in
      let (answer, s2) = handle cfg rt w state layer' repo s1 in
      answered state conditions result layer' repo answer s2

  with_repository : TerraformLayer → Result TerraformRepository → Effect w.State (Option Outcome)
  with_repository layer (err e) s = (some (outcome cfg.timers.on_error true), s)
  with_repository layer (ok repo) s =
      if is_valid_config layer repo
      then reconcile_ready layer repo s
      else (some (outcome (pos 0) true), s)

  unless_locked : TerraformLayer → Result Bool → Effect w.State (Option Outcome)
  unfolding with_repository
  unless_locked layer (err e) s = (some (outcome cfg.timers.on_error true), s)
  unless_locked layer (ok true) s = (some (outcome cfg.timers.wait_action false), s)
  unless_locked layer (ok false) s =
      with_repository layer (w.get_repository s layer.spec.repository) s

  with_layer : Result TerraformLayer → Effect w.State (Option Outcome)
  unfolding unless_locked
  with_layer (err ApiError.not_found) s = (some (outcome (pos 0) false), s)
  with_layer (err _) s = (some (outcome (pos 0) true), s)
  with_layer (ok layer) s = unless_locked layer (is_layer_locked w s layer) s

  unfoldable pub reconcile : NamespacedName → Effect w.State (Option Outcome)
  unfolding with_layer
  reconcile req s = with_layer (w.get_layer s req) s
