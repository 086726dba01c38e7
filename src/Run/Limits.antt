-- ===== src/Run/Limits.antt =====
-- The limit on runner pods, and the labels by which they are counted.
use burrito.Base.{
  ℕ, ◌+◌, ◌≡◌, refl, ◌⊎◌, inl, inr, Bool-cases, true, false, some, List, [], ◌∷◌, arith, count,
}
use burrito.Base.Int.{ℤ, pos, ◌<ℤ◌, ltb_ℤ, leb_ℤ}
use burrito.Base.Dict.{lookup, insert_all, lookup-insert}
use burrito.Base.Effect.{Result, ok, Result-cases}
use burrito.Api.{TerraformLayer, TerraformRepository, TerraformRun}
use burrito.Api.Merge.{merge_maps}
use burrito.World.{World, Runtime, Config, Pod}
use burrito.Lock.{create_lock}
use burrito.Run.Conditions.{is_active}
use burrito.Run.Pod.{get_default_labels, get_pod}
use burrito.Run.States.{
  State, initial, retrying, RunInfo, no_info, get_run_info, launch, handle,
  is_max_concurrent_runner_pods_reached, pod_limit,
}

-- The runner pods of a state that count against the limit, if they can be listed.
abbrev pub active_pods : (w : World) → w.State → Result (List Pod)
active_pods w s = w.list_pods s (("burrito/component", "runner") ∷ [])

below_of_test : (limit : ℤ) (n : ℕ) → ok (leb_ℤ limit (pos n)) ≡ ok false → pos n <ℤ limit
below_of_test limit n h = ground arith

module _ (cfg : Config) (rt : Runtime) (w : World) where
  -- There is no limit, or the pods could be listed and fewer than the limit are active.
  abbrev pub HasRoom : TerraformRepository → w.State → Type 0
  HasRoom repo s =
      (ltb_ℤ (pos 0) (pod_limit cfg rt w repo) ≡ false)
      ⊎ ((pods : List Pod) × (active_pods w s ≡ ok pods)
          × (pos (count (λ p. is_active p.phase) pods) <ℤ pod_limit cfg rt w repo))

  room_of_check :
      (repo : TerraformRepository) (s : w.State)
      → is_max_concurrent_runner_pods_reached cfg rt w s repo ≡ ok false
      → HasRoom repo s
  unfolding is_max_concurrent_runner_pods_reached
  room_of_check repo s h = elim (Bool-cases (ltb_ℤ (pos 0) (pod_limit cfg rt w repo))) [
    | inr unlimited ↦ inl unlimited
    | inl limited ↦ elim (Result-cases (active_pods w s)) [
      | inl (pods, e) ↦ inr (
        pods,
        e,
        below_of_test (pod_limit cfg rt w repo) (count (λ p. is_active p.phase) pods)
            (rw (limited, e) at h),
      )
      | inr (x, e) ↦ cc (rw (limited, e) at h)
    ]
  ]

  launch_room :
      (fallback : RunInfo) (retries : ℕ) (run : TerraformRun) (layer : TerraformLayer)
      (repo : TerraformRepository) (s : w.State)
      → fallback.new_pod ≡ false
      → (launch cfg rt w fallback retries run layer repo s).0.1.new_pod ≡ true
      → HasRoom repo s
  unfolding launch
  launch_room fallback retries run layer repo s old h = room_of_check repo s (ground arith)

  -- Where the pods are counted: for a run with no status, after the lock has been taken.
  abbrev pub counted_at : State → TerraformRun → TerraformLayer → w.State → w.State
  counted_at initial run layer s = (create_lock w layer run s).1
  counted_at _ run layer s = s

  -- A pod is started only if there is room for it: where a limit is set, by the repository or else
  -- by the controller, the runner pods could be listed and fewer than the limit are pending or
  -- running. For a run with no status they are counted after the lock has been taken.
  pub new_pod-HasRoom :
      (state : State) (run : TerraformRun) (layer : TerraformLayer) (repo : TerraformRepository)
      (s : w.State)
      → (handle cfg rt w state run layer repo s).0.1.new_pod ≡ true
      → HasRoom repo (counted_at state run layer s)
  unfolding handle
  new_pod-HasRoom initial run layer repo s h =
      launch_room no_info 0 run layer repo (create_lock w layer run s).1 refl (ground arith)
  new_pod-HasRoom retrying run layer repo s h =
      launch_room (get_run_info run) (run.status.retries + 1) run layer repo s refl h
  new_pod-HasRoom _ run layer repo s h = absurd (ground arith)

-- Whatever labels the repository and the layer ask for, a runner pod carries the labels by which the
-- pod limit counts it and by which it is found for its run.
pub get_pod-labels :
    (cfg : Config) (w : World) (run : TerraformRun) (layer : TerraformLayer)
    (repo : TerraformRepository) (s : w.State)
    → let labels = (get_pod w cfg run layer repo s).0.metadata.labels in
      (lookup "burrito/component" labels ≡ some "runner")
      × (lookup "burrito/managed-by" labels ≡ some run.metadata.name)
      × (lookup "burrito/action" labels ≡ some run.spec.action)
unfolding get_pod get_default_labels merge_maps insert_all
get_pod-labels cfg w run layer repo s = simp lookup-insert (refl, refl, refl)
