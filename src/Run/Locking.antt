-- ===== src/Run/Locking.antt =====
-- The lock of a layer through the handlers of its runs.
use burrito.Base.{String, ℕ, ◌≡◌, refl, ◌∙◌, ◌⊎◌, inl, inr, Bool, true, false, arith}
use burrito.Base.Int.{pos}
use burrito.Base.Effect.{ok, err, ApiError, Result-cases}
use burrito.Api.{Duration, NamespacedName, TerraformLayer, TerraformRepository, TerraformRun}
use burrito.World.{World, Runtime, Config, Lease}
use burrito.Lock.{lease_key, get_lease_lock, create_lock, delete_lock, is_layer_locked}
use burrito.Lock.Server.{KeepsLeases, key-lease_lock}
use burrito.Run.Pod.{get_pod, available, ensure_certificate_authority_secret}
use burrito.Run.States.{
  succeeded, failed, RunInfo, no_info, launch, initial_handler, terminal_handler, get_state,
  get_state_string, handle,
}
use burrito.Run.Reconcile.{advance, is_terminal, reconcile, outcome}

module _ (w : World) (laws : KeepsLeases w) where
  ensure_frame :
      (cfg : Config) (tenant name : String) (s : w.State) (k : NamespacedName)
      → w.get_lease (ensure_certificate_authority_secret w cfg tenant name s).1 k ≡ w.get_lease s k
  unfolding ensure_certificate_authority_secret
  ensure_frame cfg tenant name s k =
      grind (arith, laws.create_secret_frame, laws.update_secret_frame)

  available_frame :
      (cfg : Config) (enabled : Bool) (tenant name : String) (s : w.State) (k : NamespacedName)
      → w.get_lease (available w cfg enabled tenant name s).1 k ≡ w.get_lease s k
  available_frame cfg false tenant name s k = refl
  available_frame cfg true tenant name s k = ensure_frame cfg tenant name s k

  get_pod_frame :
      (cfg : Config) (run : TerraformRun) (layer : TerraformLayer) (repo : TerraformRepository)
      (s : w.State) (k : NamespacedName)
      → w.get_lease (get_pod w cfg run layer repo s).1 k ≡ w.get_lease s k
  unfolding get_pod
  get_pod_frame cfg run layer repo s k =
      available_frame cfg cfg.datastore_tls _ _ _ k
      ∙ available_frame cfg cfg.hermitcrab_enabled _ _ s k

  launch_frame :
      (cfg : Config) (rt : Runtime) (fallback : RunInfo) (retries : ℕ) (run : TerraformRun)
      (layer : TerraformLayer) (repo : TerraformRepository) (s : w.State) (k : NamespacedName)
      → w.get_lease (launch cfg rt w fallback retries run layer repo s).1 k ≡ w.get_lease s k
  unfolding launch
  launch_frame cfg rt fallback retries run layer repo s k =
      grind (arith, get_pod_frame, laws.create_pod_frame)

  -- While the lease of its layer is held, a run with no status starts no pod and changes nothing.
  held_lock_blocks :
      (cfg : Config) (rt : Runtime) (run : TerraformRun) (layer : TerraformLayer)
      (repo : TerraformRepository) (s : w.State) (held : Lease)
      → w.get_lease s (lease_key layer) ≡ ok held
      → initial_handler cfg rt w run layer repo s ≡ ((cfg.timers.on_error, no_info), s)
  unfolding initial_handler create_lock
  held_lock_blocks cfg rt run layer repo s held h =
      rw (laws.taken s (get_lease_lock layer run) held (rw key-lease_lock h))

  launched_is_locked :
      (cfg : Config) (rt : Runtime) (run : TerraformRun) (layer : TerraformLayer)
      (repo : TerraformRepository) (s : w.State)
      → (initial_handler cfg rt w run layer repo s).0.1.new_pod ≡ true
      → w.get_lease (initial_handler cfg rt w run layer repo s).1 (lease_key layer)
        ≡ ok (get_lease_lock layer run)
  unfolding initial_handler create_lock
  launched_is_locked cfg rt run layer repo s h = ground (
    arith,
    laws.created s (get_lease_lock layer run),
    key-lease_lock layer run,
    launch_frame cfg rt no_info 0 run layer repo (create_lock w layer run s).1 (lease_key layer),
  )

  -- Two runs whose layers have the same lease name and namespace: once the first one's initial
  -- reconciliation has started a pod, the layer is locked, and an initial reconciliation of the
  -- second starts none, changes nothing and asks to be called again after the error timer.
  pub initial_runs_exclude :
      (cfg : Config) (rt : Runtime) (run run2 : TerraformRun) (layer layer2 : TerraformLayer)
      (repo repo2 : TerraformRepository) (s : w.State)
      → lease_key layer2 ≡ lease_key layer
      → (initial_handler cfg rt w run layer repo s).0.1.new_pod ≡ true
      → let s' = (initial_handler cfg rt w run layer repo s).1 in
        (is_layer_locked w s' layer ≡ ok true)
        × (initial_handler cfg rt w run2 layer2 repo2 s' ≡ ((cfg.timers.on_error, no_info), s'))
  unfolding is_layer_locked
  initial_runs_exclude cfg rt run run2 layer layer2 repo repo2 s same h =
      let locked = launched_is_locked cfg rt run layer repo s h in
      (
        rw locked,
        held_lock_blocks cfg rt run2 layer2 repo2 _ (get_lease_lock layer run) (rw same locked),
      )

  unlocked_after :
      (run : TerraformRun) (layer : TerraformLayer) (s : w.State)
      → (delete_lock w layer run s).0 ≡ ok tt
      → w.get_lease (delete_lock w layer run s).1 (lease_key layer) ≡ err ApiError.not_found
  unfolding delete_lock
  unlocked_after run layer s d =
      ground (arith, laws.deleted s (get_lease_lock layer run) d, key-lease_lock layer run)

  -- What the deletion of the lease comes to: the layer is no longer locked, or there is an error and
  -- the error timer is asked for.
  abbrev pub Released :
      Config → TerraformRun → TerraformLayer → w.State → Duration → w.State → Type 0
  Released cfg run layer s after s' =
      (((delete_lock w layer run s).0 ≡ ok tt)
        × (is_layer_locked w s' layer ≡ ok false)
        × (after ≡ cfg.timers.wait_action))
      ⊎ ((e : ApiError) × ((delete_lock w layer run s).0 ≡ err e) × (after ≡ cfg.timers.on_error))

  terminal_handler-Released :
      (cfg : Config) (rt : Runtime) (run : TerraformRun) (layer : TerraformLayer) (s : w.State)
      → let ((after, info), s') = terminal_handler cfg rt w run layer s in
        Released cfg run layer s after s'
  unfolding terminal_handler is_layer_locked
  terminal_handler-Released cfg rt run layer s = elim (Result-cases (delete_lock w layer run s).0) [
    | inl (u, e) ↦ inl (e, rw (unlocked_after run layer s e), rw e)
    | inr (x, e) ↦ inr (x, e, rw e)
  ]

  -- A run that has just become Succeeded or Failed is terminal, whether or not its lease could be
  -- deleted. If it could, the layer is no longer locked and the wait timer is asked for; if not, the
  -- error timer is.
  pub ended_run_unlocks :
      (cfg : Config) (rt : Runtime) (run : TerraformRun) (layer : TerraformLayer)
      (repo : TerraformRepository) (s : w.State)
      → ((get_state cfg rt w s run layer repo).0 ≡ succeeded)
        ⊎ ((get_state cfg rt w s run layer repo).0 ≡ failed)
      → let (result, s') = advance cfg rt w run layer repo s in
        (is_terminal result.1 ≡ true) × Released cfg run layer s result.0 s'
  unfolding advance is_terminal handle get_state_string
  ended_run_unlocks cfg rt run layer repo s (inl e) =
      rw e (refl, terminal_handler-Released cfg rt run layer s)
  ended_run_unlocks cfg rt run layer repo s (inr e) =
      rw e (refl, terminal_handler-Released cfg rt run layer s)

module _ (cfg : Config) (rt : Runtime) (w : World) where
  -- A reconciliation of a run that is Succeeded or Failed changes nothing and asks for no other.
  pub terminal_run_is_left_alone :
      (run : TerraformRun) (req : NamespacedName) (s : w.State)
      → w.get_run s req ≡ ok run
      → is_terminal run ≡ true
      → reconcile cfg rt w req s ≡ (outcome (pos 0) false, s)
  unfolding reconcile
  terminal_run_is_left_alone run req s found ended = rw (found, ended)
