-- ===== src/Layer/Guards.antt =====
-- What stands between a layer and a run that the layer controller creates for it.
use burrito.Base.{String, ◌≡◌, refl, ◌⊎◌, inl, inr, true, false, some, arith, Bool-cases}
use burrito.Base.Dict.{lookup}
use burrito.Base.Effect.{Result, ok, err}
use burrito.Api.{Duration, TerraformLayer, TerraformRepository, TerraformRun}
use burrito.Api.Config.{get_auto_apply_enabled}
use burrito.Annotations.{last_relevant_commit, apply_now}
use burrito.World.{World, Runtime, Config}
use burrito.Layer.Conditions.{is_apply_scheduled}
use burrito.Layer.Runs.{Action, plan_action, apply_action}
use burrito.Layer.States.{
  State, idle, plan_needed, apply_needed, max_retries_reached, Facts, Answer, facts, choose_state,
  get_state, handle, start_run, created, is_action_blocked,
}
use burrito.Layer.Handled.{Asks, Handled, blocked, no_commit, panicked, start_run-Handled}

module _ (cfg : Config) (rt : Runtime) (w : World) (layer : TerraformLayer)
    (repo : TerraformRepository) (s : w.State) where
  -- No sync window blocks the action, and the created run is the API server's answer to a run of the
  -- action for the last relevant commit of the layer.
  pub record IsWarranted (action : Action) (run : TerraformRun) : Type 0 where
    pub open_window : is_action_blocked cfg rt w s layer repo action ≡ false
    pub revision : String
    pub is_revision : lookup last_relevant_commit layer.metadata.annotations ≡ some revision
    pub sent : TerraformRun
    pub asks : Asks action layer revision sent
    pub is_created : (w.create_run sent s).0 ≡ ok run

  created-ok :
      (answer : Result TerraformRun) (d : Duration) (run : TerraformRun)
      → created cfg rt w answer ≡ some (d, some run)
      → answer ≡ ok run
  unfolding created
  created-ok (ok other) d run h = cc
  created-ok (err e) d run h = absurd (cc h)

  Handled-IsWarranted :
      (action : Action) (o : Answer × w.State)
      → Handled cfg rt w layer repo s action o
      → (d : Duration) (run : TerraformRun) → o.0 ≡ some (d, some run)
      → IsWarranted action run
  Handled-IsWarranted action o (blocked closed) d run h = absurd (cc h)
  Handled-IsWarranted action o (no_commit open_window missing) d run h = absurd (cc h)
  Handled-IsWarranted action o (panicked open_window is_apply unnamed) d run h = absurd (cc h)
  Handled-IsWarranted action o (Handled.sent revision asked open_window commit asks) d run h =
      record {
        open_window = open_window;
        revision = revision;
        is_revision = commit;
        sent = asked;
        asks = asks;
        is_created = created-ok (w.create_run asked s).0 d run h;
      }

  started-IsWarranted :
      (action : Action) (d : Duration) (run : TerraformRun)
      → (start_run cfg rt w layer repo action s).0 ≡ some (d, some run)
      → IsWarranted action run
  started-IsWarranted action d run =
      Handled-IsWarranted action (start_run cfg rt w layer repo action s)
        (start_run-Handled cfg rt w layer repo s action) d run

  -- The handler of a state creates a run only as the state allows.
  handled_state :
      (state : State) (d : Duration) (run : TerraformRun)
      → (handle cfg rt w state layer repo s).0 ≡ some (d, some run)
      → ((state ≡ plan_needed) × IsWarranted plan_action run)
        ⊎ (((state ≡ apply_needed true)
              ⊎ ((state ≡ apply_needed false) × (get_auto_apply_enabled repo layer ≡ true)))
            × IsWarranted apply_action run)
  unfolding handle
  handled_state idle d run h = absurd (ground arith)
  handled_state max_retries_reached d run h = absurd (ground arith)
  handled_state plan_needed d run h = inl (refl, started-IsWarranted plan_action d run h)
  handled_state (apply_needed true) d run h =
      inr (inl refl, started-IsWarranted apply_action d run h)
  handled_state (apply_needed false) d run h =
      elim (Bool-cases (get_auto_apply_enabled repo layer)) [
        | inl auto ↦ inr (inr (refl, auto), started-IsWarranted apply_action d run (rw auto at h))
        | inr off ↦ absurd (cc (rw off at h))
      ]

manual_apply : (f : Facts) → (choose_state f).0 ≡ apply_needed true → f.apply_scheduled ≡ true
unfolding choose_state
manual_apply f h = ground arith

apply_was_asked :
    (layer : TerraformLayer)
    → (is_apply_scheduled layer).1 ≡ true
    → (value : String) × (lookup apply_now layer.metadata.annotations ≡ some value)
unfolding is_apply_scheduled
apply_was_asked layer h = ground arith

module _ (cfg : Config) (rt : Runtime) (w : World) (layer : TerraformLayer)
    (repo : TerraformRepository) (s : w.State) where
  -- A plan needs no more; an apply was asked for by an annotation of the layer that was read, or
  -- automatic apply is enabled for the layer as `GetState` leaves it in memory.
  abbrev pub IsAllowed : Action → TerraformLayer → Type 0
  IsAllowed plan_action kept = Unit
  IsAllowed apply_action kept =
      ((value : String) × (lookup apply_now layer.metadata.annotations ≡ some value))
      ⊎ (get_auto_apply_enabled repo kept ≡ true)

  -- When `GetState` and then the handler of its state create a run for a layer, it is the answer of the
  -- API server to a plan, or to an apply that an annotation of the layer asked for or automatic apply
  -- allows, of the plan that the layer names as its last; no sync window blocked the action, and the
  -- run is for the last relevant commit of the layer as `GetState` left it in memory.
  pub created_run-IsWarranted :
      (d : Duration) (run : TerraformRun)
      → let decided = get_state cfg rt w layer repo s in
        (handle cfg rt w decided.0.0 decided.0.2 repo decided.1).0 ≡ some (d, some run)
        → let decided = get_state cfg rt w layer repo s in
          (action : Action) × IsAllowed action decided.0.2
          × IsWarranted cfg rt w decided.0.2 repo decided.1 action run
  unfolding get_state facts
  created_run-IsWarranted d run h =
      let decided = get_state cfg rt w layer repo s in
      elim (handled_state cfg rt w decided.0.2 repo decided.1 decided.0.0 d run h) [
        | inl (is_plan, warranted) ↦ (plan_action, _, warranted)
        | inr (which, warranted) ↦ elim which [
          | inl manual ↦ (
            apply_action,
            inl (apply_was_asked layer (manual_apply (facts cfg rt w s layer repo) manual)),
            warranted,
          )
          | inr (automatic, auto) ↦ (apply_action, inr auto, warranted)
        ]
      ]
