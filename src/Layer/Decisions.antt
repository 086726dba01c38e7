-- ===== src/Layer/Decisions.antt =====
-- What `GetState` decides of a layer.
use burrito.Base.{String, ◌≡◌, ◌≢◌, refl, true, false, some, none, arith, ◌==◌, eq_refl}
use burrito.Base.Dict.{lookup}
use burrito.Base.Effect.{ok}
use burrito.Api.{NamespacedName, TerraformLayer, TerraformRepository}
use burrito.Annotations.{last_plan_sum, last_apply_sum}
use burrito.Lock.{is_layer_locked}
use burrito.World.{World, Runtime, Config}
use burrito.Run.Reconcile.{outcome}
use burrito.Layer.Conditions.{is_running, has_last_plan_failed, is_apply_up_to_date}
use burrito.Layer.States.{
  idle, apply_needed, Facts, facts, choose_state, all_conditions, get_state, handle,
}
use burrito.Layer.Reconcile.{reconcile}

chosen_apply :
    (f : Facts)
    → (choose_state f).0 ≡ apply_needed false
    → (f.plan_failed ≡ false) × (f.apply_up_to_date ≡ false)
unfolding choose_state
chosen_apply f h = ground arith

succeeded_plan :
    (layer : TerraformLayer)
    → (has_last_plan_failed layer).1 ≡ false
    → (sum : String) × (lookup last_plan_sum layer.metadata.annotations ≡ some sum)
      × ((sum == "") ≡ false)
unfolding has_last_plan_failed
succeeded_plan layer h = ground arith

sum_not_applied :
    (rt : Runtime) (layer : TerraformLayer) (sum : String)
    → lookup last_plan_sum layer.metadata.annotations ≡ some sum
    → (sum == "") ≡ false
    → (is_apply_up_to_date rt layer).1 ≡ false
    → lookup last_apply_sum layer.metadata.annotations ≢ some sum
unfolding is_apply_up_to_date
sum_not_applied rt layer sum found filled h same = ground (arith, eq_refl sum)

module _ (cfg : Config) (rt : Runtime) (w : World) (layer : TerraformLayer)
    (repo : TerraformRepository) (s : w.State) where
  -- While the last run of a layer has not ended, or cannot be read for another reason than that it
  -- is gone, the layer is Idle, its annotations stay, and the handler creates no run: what a user or
  -- a commit asks for waits.
  pub running_layer_is_idle :
      (is_running w s layer).1 ≡ true
      → (get_state cfg rt w layer repo s ≡ ((idle, all_conditions cfg rt w s layer repo, layer), s))
        × (handle cfg rt w idle layer repo s ≡ (some (cfg.timers.drift_detection, none), s))
  unfolding get_state choose_state facts handle
  running_layer_is_idle h = rw h (refl, refl)

  -- An apply that nobody asked for follows a plan that succeeded and whose sum differs from that of
  -- the last apply.
  pub automatic_apply_has_new_plan :
      (get_state cfg rt w layer repo s).0.0 ≡ apply_needed false
      → (sum : String) × (lookup last_plan_sum layer.metadata.annotations ≡ some sum)
        × ((sum == "") ≡ false)
        × (lookup last_apply_sum layer.metadata.annotations ≢ some sum)
  unfolding get_state facts
  automatic_apply_has_new_plan h =
      let chosen = chosen_apply (facts cfg rt w s layer repo) h in
      let (sum, found, filled) = succeeded_plan layer chosen.0 in
      (sum, found, filled, sum_not_applied rt layer sum found filled chosen.1)

-- A locked layer is left alone, whatever else is to be done, and looked at again after the wait
-- timer.
pub locked_layer_is_skipped :
    (cfg : Config) (rt : Runtime) (w : World) (req : NamespacedName) (s : w.State)
    (layer : TerraformLayer)
    → w.get_layer s req ≡ ok layer
    → is_layer_locked w s layer ≡ ok true
    → reconcile cfg rt w req s ≡ (some (outcome cfg.timers.wait_action false), s)
unfolding reconcile
locked_layer_is_skipped cfg rt w req s layer found locked = rw (found, locked)
