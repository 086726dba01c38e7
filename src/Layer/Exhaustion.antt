-- ===== src/Layer/Exhaustion.antt =====
-- A run that failed at its retry limit, seen from its layer.
use burrito.Base.{◌≡◌, ◌≢◌, refl, Bool, true, false, arith, ◌==◌, eq_refl}
use burrito.Base.Int.{ℤ, pos, ◌≤ℤ◌, ltb_ℤ}
use burrito.Base.Dict.{lookup_or_empty}
use burrito.Base.Effect.{ok}
use burrito.Api.{TerraformLayer, TerraformRepository, TerraformRun}
use burrito.Annotations.{last_relevant_commit}
use burrito.World.{World, Runtime, Config}
use burrito.Run.Conditions.{get_max_retries, has_reached_retry_limit}
use burrito.Run.States
use burrito.Run.Launch.{handle-Answers}
use burrito.Run.Reconcile.{advance, settle}
use burrito.Layer.Conditions.{
  last_run_key, has_last_run_reached_retry_limit, limit_of_run, is_sync_scheduled,
}
use burrito.Layer.Runs.{Action, plan_action, apply_action, action_name}
use burrito.Layer.States.{State, plan_needed, apply_needed, Facts, facts, choose_state, get_state}

-- The state that starts an action without a user's request.
abbrev pub automatic : Action → State
automatic plan_action = plan_needed
automatic apply_action = apply_needed false

failed_at_limit :
    (status limit success active grace : Bool)
    → States.choose_state status limit success active grace ≡ States.failed
    → limit ≡ true
unfolding States.choose_state
failed_at_limit status limit success active grace h = ground arith

limit_is_reached :
    (cfg : Config) (run : TerraformRun) (layer : TerraformLayer) (repo : TerraformRepository)
    → (has_reached_retry_limit cfg run layer repo).1 ≡ true
    → get_max_retries cfg.terraform_max_retries repo layer ≤ℤ pos run.status.retries
unfolding has_reached_retry_limit
limit_is_reached cfg run layer repo h = ground arith

exhausted_is_not_automatic :
    (f : Facts) (action : Action)
    → (action ≡ plan_action → f.plan_exhausted ≡ true)
    → (action ≡ apply_action → f.apply_exhausted ≡ true)
    → f.sync_scheduled ≡ false
    → (choose_state f).0 ≢ automatic action
unfolding choose_state
exhausted_is_not_automatic f plan_action p a h e = ground (arith, p refl)
exhausted_is_not_automatic f apply_action p a h e = ground (arith, a refl)

not_less : (a b : ℤ) → a ≤ℤ b → ltb_ℤ b a ≡ false
not_less a b h = ground arith

module _ (cfg : Config) (rt : Runtime) (w : World) where
  settled_failure :
      (run : TerraformRun) (layer : TerraformLayer) (repo : TerraformRepository) (s : w.State)
      → (States.get_state cfg rt w s run layer repo).0 ≡ States.failed
      → let run' = (settle cfg rt w run layer repo s).0.1 in
        (run'.status.state ≡ "Failed")
        × (run'.spec ≡ run.spec)
        × (get_max_retries cfg.terraform_max_retries repo layer ≤ℤ pos run'.status.retries)
  unfolding settle advance States.get_state States.get_state_string States.get_run_info
  settled_failure run layer repo s h =
      let reached = failed_at_limit _ _ _ _ _ h in
      rw (h, handle-Answers cfg rt w States.failed run layer repo s)
        (refl, refl, limit_is_reached cfg run layer repo reached)

  limit_of_failed :
      (run : TerraformRun) (layer : TerraformLayer) (repo : TerraformRepository)
      → run.status.state ≡ "Failed"
      → get_max_retries cfg.terraform_max_retries repo layer ≤ℤ pos run.status.retries
      → run.spec.layer.revision ≡ lookup_or_empty last_relevant_commit layer.metadata.annotations
      → ((limit_of_run cfg layer repo (ok run)).1.reached_limit ≡ true)
        × ((limit_of_run cfg layer repo (ok run)).1.action ≡ run.spec.action)
  unfolding limit_of_run
  limit_of_failed run layer repo e h same =
      let current = lookup_or_empty last_relevant_commit layer.metadata.annotations in
      rw
        (
          e,
          not_less (get_max_retries cfg.terraform_max_retries repo layer) (pos run.status.retries)
              h,
          same,
          eq_refl current,
        )
        (ground arith)

  failed_run_facts :
      (run : TerraformRun) (action : Action) (layer : TerraformLayer) (repo : TerraformRepository)
      (s : w.State)
      → (layer.status.last_run.name == "") ≡ false
      → w.get_run s (last_run_key layer) ≡ ok run
      → run.status.state ≡ "Failed"
      → run.spec.action ≡ action_name action
      → get_max_retries cfg.terraform_max_retries repo layer ≤ℤ pos run.status.retries
      → run.spec.layer.revision ≡ lookup_or_empty last_relevant_commit layer.metadata.annotations
      → (action ≡ plan_action → (facts cfg rt w s layer repo).plan_exhausted ≡ true)
        × (action ≡ apply_action → (facts cfg rt w s layer repo).apply_exhausted ≡ true)
  unfolding facts has_last_run_reached_retry_limit
  failed_run_facts run action layer repo s named found e a h same =
      let (reached, kind) = limit_of_failed run layer repo e h same in
      (
        λ p. rw (named, found, reached, kind, a, p) refl,
        λ p. rw (named, found, reached, kind, a, p) refl,
      )

  -- A run of an action that becomes Failed and is stored, seen from its layer as the last run: if
  -- the layer's retry limit is not higher than the one that the run failed at, and its last
  -- relevant commit is the one of the run, and no user asks for a sync, then the layer does not
  -- start that action again by itself.
  pub failed_run_is_not_repeated :
      (run : TerraformRun) (action : Action) (layer layer2 : TerraformLayer)
      (repo repo2 : TerraformRepository) (s s2 : w.State)
      → (States.get_state cfg rt w s run layer repo).0 ≡ States.failed
      → run.spec.action ≡ action_name action
      → (layer2.status.last_run.name == "") ≡ false
      → w.get_run s2 (last_run_key layer2) ≡ ok (settle cfg rt w run layer repo s).0.1
      → get_max_retries cfg.terraform_max_retries repo2 layer2
        ≤ℤ get_max_retries cfg.terraform_max_retries repo layer
      → run.spec.layer.revision ≡ lookup_or_empty last_relevant_commit layer2.metadata.annotations
      → (is_sync_scheduled layer2).1 ≡ false
      → (get_state cfg rt w layer2 repo2 s2).0.0 ≢ automatic action
  unfolding get_state facts
  failed_run_is_not_repeated run action layer layer2 repo repo2 s s2 h a named found limit same
        no_sync =
      let run' = (settle cfg rt w run layer repo s).0.1 in
      let (state, spec, reached) = settled_failure run layer repo s h in
      let (plan, apply) =
        failed_run_facts run' action layer2 repo2 s2 named found state (rw spec a)
          (omega (arith, limit, reached)) (rw spec same) in
      exhausted_is_not_automatic (facts cfg rt w s2 layer2 repo2) action plan apply no_sync
