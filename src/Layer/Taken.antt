-- ===== src/Layer/Taken.antt =====
-- What the layer controller does with a request of a user: `GetState` of
-- internal/controllers/terraformlayer/states.go and the handler of its answer.
use burrito.Base.{
  String, ◌≡◌, refl, true, false, some, none, arith, ◌==◌, eq_refl, Bool-cases, inl, inr, ◌⊎◌,
}
use burrito.Base.Dict.{lookup, remove, lookup-remove}
use burrito.Base.Effect.{Result, ok, err, ApiError}
use burrito.Api.{TerraformLayer, TerraformRepository}
use burrito.Annotations.{sync_now, apply_now, set_annotations, received, remove_annotation}
use burrito.World.{World, Runtime, Config}
use burrito.Layer.Conditions.{is_running, is_sync_scheduled, is_apply_scheduled}
use burrito.Layer.Runs.{Action, plan_action, apply_action}
use burrito.Layer.States.{
  State, idle, plan_needed, apply_needed, facts, choose_state, all_conditions, get_state, handle,
  start_run,
}
use burrito.Layer.Decisions.{running_layer_is_idle}
use burrito.Layer.Handled.{Handled, start_run-Handled}

module _ (cfg : Config) (rt : Runtime) (w : World) (layer : TerraformLayer)
    (repo : TerraformRepository) (s : w.State) where
  -- The last run has not ended, or cannot be read: the layer is Idle, nothing changes, and so the
  -- request stays.
  abbrev pub Waits : Type 0
  Waits =
      ((is_running w s layer).1 ≡ true)
      × (get_state cfg rt w layer repo s ≡ ((idle, all_conditions cfg rt w s layer repo, layer), s))
      × (handle cfg rt w idle layer repo s ≡ (some (cfg.timers.drift_detection, none), s))

  -- `GetState` sends the layer without an annotation to the API server, goes on with what is answered,
  -- or with what was sent where that fails, and then the handler of the state acts.
  pub record Taken (key : String) (state : State) (action : Action) : Type 0 where
    pub sent : TerraformLayer
    pub is_for :
        (sent.metadata.namespace ≡ layer.metadata.namespace)
        × (sent.metadata.name ≡ layer.metadata.name)
    pub is_removed : lookup key sent.metadata.annotations ≡ none
    pub are_kept :
        (other : String)
        → (key == other) ≡ false
        → lookup other sent.metadata.annotations ≡ lookup other layer.metadata.annotations
    pub left : TerraformLayer
    pub is_left :
        ((w.patch_layer sent s).0 ≡ ok left)
        ⊎ ((e : ApiError) × ((w.patch_layer sent s).0 ≡ err e) × (left ≡ sent))
    pub decides :
        get_state cfg rt w layer repo s
        ≡ ((state, all_conditions cfg rt w s layer repo, left), (w.patch_layer sent s).1)
    pub handles :
        Handled cfg rt w left repo
          (w.patch_layer sent s).1
          action
          (handle cfg rt w state left repo (w.patch_layer sent s).1)

  received-cases :
      (asked : TerraformLayer) (answer : Result TerraformLayer)
      → (answer ≡ ok (received asked answer))
        ⊎ ((e : ApiError) × (answer ≡ err e) × (received asked answer ≡ asked))
  received-cases asked (ok x) = inl refl
  received-cases asked (err e) = inr (e, refl, refl)

  -- The part of both requests: the removal of the annotation, and a handler that starts a run.
  removed-Taken :
      (key : String) (state : State) (action : Action)
      → (get_state cfg rt w layer repo s ≡ (
        (state, all_conditions cfg rt w s layer repo, (remove_annotation w layer key s).0),
        (remove_annotation w layer key s).1,
      ))
      → ((l : TerraformLayer) (s' : w.State)
          → handle cfg rt w state l repo s' ≡ start_run cfg rt w l repo action s')
      → Taken key state action
  unfolding remove_annotation
  removed-Taken key state action decided starts =
      let asked = set_annotations (remove key layer.metadata.annotations) layer in
      let left = (remove_annotation w layer key s).0 in
      record {
        sent = asked;
        is_for = (refl, refl);
        is_removed = rw lookup-remove (ground (arith, eq_refl key));
        are_kept = λ other differs. rw (lookup-remove, differs) refl;
        left = left;
        is_left = received-cases asked (w.patch_layer asked s).0;
        decides = decided;
        handles =
            rw (starts left (w.patch_layer asked s).1)
              (start_run-Handled cfg rt w left repo (w.patch_layer asked s).1 action);
      }

  sync_is_Taken :
      (is_running w s layer).1 ≡ false
      → (is_sync_scheduled layer).1 ≡ true
      → Taken sync_now plan_needed plan_action
  unfolding get_state facts choose_state handle
  sync_is_Taken free asked =
      removed-Taken sync_now plan_needed plan_action (rw (free, asked) refl) (λ l s'. refl)

  apply_is_Taken :
      (is_running w s layer).1 ≡ false
      → (is_sync_scheduled layer).1 ≡ false
      → (is_apply_scheduled layer).1 ≡ true
      → Taken apply_now (apply_needed true) apply_action
  unfolding get_state facts choose_state handle
  apply_is_Taken free unasked asked =
      removed-Taken apply_now (apply_needed true) apply_action (rw (free, unasked, asked) refl)
        (λ l s'. refl)

  pub sync_is_handled :
      (is_sync_scheduled layer).1 ≡ true → Waits ⊎ Taken sync_now plan_needed plan_action
  sync_is_handled asked = elim (Bool-cases (is_running w s layer).1) [
    | inl busy ↦
        let (decides, acts) = running_layer_is_idle cfg rt w layer repo s busy in
        inl (busy, decides, acts)
    | inr free ↦ inr (sync_is_Taken free asked)
  ]

  pub apply_is_handled :
      (is_apply_scheduled layer).1 ≡ true
      → Waits
        ⊎ (Taken sync_now plan_needed plan_action
            ⊎ Taken apply_now (apply_needed true) apply_action)
  apply_is_handled asked = elim (Bool-cases (is_sync_scheduled layer).1) [
    | inl sync ↦ elim (sync_is_handled sync) [ inl waits ↦ inl waits | inr taken ↦ inr (inl taken) ]
    | inr unasked ↦ elim (Bool-cases (is_running w s layer).1) [
      | inl busy ↦
          let (decides, acts) = running_layer_is_idle cfg rt w layer repo s busy in
          inl (busy, decides, acts)
      | inr free ↦ inr (inr (apply_is_Taken free unasked asked))
    ]
  ]
