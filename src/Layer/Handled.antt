-- ===== src/Layer/Handled.antt =====
-- What the handlers of `PlanNeeded` and `ApplyNeeded` in
-- internal/controllers/terraformlayer/states.go come to, and what a run that they send asks for.
use burrito.Base.{
  String, ◌≡◌, refl, ◌⊎◌, inl, inr, true, false, some, none, List, [], ◌∷◌, Option-cases,
  Bool-cases,
}
use burrito.Base.Dict.{lookup, lookup_or_empty}
use burrito.Base.Text.{split}
use burrito.Api.{Artifact, TerraformLayer, TerraformRepository, TerraformRun}
use burrito.Annotations.{last_relevant_commit, last_plan_run}
use burrito.World.{World, Runtime, Config}
use burrito.Layer.Runs.{
  Action, plan_action, apply_action, run_with, get_run, artifact_for, artifact_of,
}
use burrito.Layer.States.{Answer, created, start_run, is_action_blocked}

-- A run of a layer: its action, the layer and the revision it is for, and the plan that it applies.
pub record IsRunOf (layer : TerraformLayer) (revision action : String) (artifact : Artifact)
    (run : TerraformRun) : Type 0 where
  pub has_action : run.spec.action ≡ action
  pub for_layer : run.spec.layer.name ≡ layer.metadata.name
  pub in_namespace : run.spec.layer.namespace ≡ layer.metadata.namespace
  pub at_revision : run.spec.layer.revision ≡ revision
  pub beside_layer : run.metadata.namespace ≡ layer.metadata.namespace
  pub reads : run.spec.artifact ≡ artifact

abbrev last_plan : TerraformLayer → String × List String
last_plan layer = split b'/' (lookup_or_empty last_plan_run layer.metadata.annotations)

-- A plan reads no plan; an apply reads the one that the annotation of the last plan names, as
-- `run/attempt`.
abbrev pub Asks : Action → TerraformLayer → String → TerraformRun → Type 0
Asks plan_action layer revision run =
    IsRunOf layer revision "plan" (record { run = ""; attempt = "" }) run
Asks apply_action layer revision run =
    (name : String) × (attempt : String) × (others : List String) × (last_plan layer
      ≡ (name, attempt ∷ others))
    × IsRunOf layer revision "apply" (record { run = name; attempt = attempt }) run

-- What a handler comes to: a sync window blocks the action; no relevant commit is known; it panics,
-- since the layer names no run with an attempt as its last plan; or it sends a run of the action, for
-- the last relevant commit, to the API server.
pub data Handled (cfg : Config) (rt : Runtime) (w : World) (layer : TerraformLayer)
    (repo : TerraformRepository) (s : w.State) (action : Action) : Answer × w.State → Type 0 where
  blocked :
      is_action_blocked cfg rt w s layer repo action ≡ true
      → Handled cfg rt w layer repo s action (some (cfg.timers.wait_action, none), s)
  no_commit :
      is_action_blocked cfg rt w s layer repo action ≡ false
      → lookup last_relevant_commit layer.metadata.annotations ≡ none
      → Handled cfg rt w layer repo s action (some (cfg.timers.on_error, none), s)
  panicked :
      is_action_blocked cfg rt w s layer repo action ≡ false
      → action ≡ apply_action
      → (last_plan layer).1 ≡ []
      → Handled cfg rt w layer repo s action (none, s)
  sent :
      (revision : String) (run : TerraformRun)
      → is_action_blocked cfg rt w s layer repo action ≡ false
      → lookup last_relevant_commit layer.metadata.annotations ≡ some revision
      → Asks action layer revision run
      → Handled cfg rt w layer repo s action
          (created cfg rt w (w.create_run run s).0, (w.create_run run s).1)

-- The parts of the annotation name a plan, or are too few.
parts-cases :
    (parts : String × List String)
    → ((parts.1 ≡ []) × (artifact_of parts ≡ none))
      ⊎ ((name : String) × (attempt : String) × (others : List String) × (parts
            ≡ (name, attempt ∷ others))
          × (artifact_of parts ≡ some (record { run = name; attempt = attempt })))
parts-cases (first, []) = inl (refl, refl)
parts-cases (first, attempt ∷ others) = inr (first, attempt, others, refl, refl)

run_with-IsRunOf :
    (layer : TerraformLayer) (revision : String) (artifact : Artifact)
    → IsRunOf layer revision "plan" artifact (run_with layer revision plan_action artifact)
      × IsRunOf layer revision "apply" artifact (run_with layer revision apply_action artifact)
unfolding run_with
run_with-IsRunOf layer revision artifact = (
  record {
    has_action = refl;
    for_layer = refl;
    in_namespace = refl;
    at_revision = refl;
    beside_layer = refl;
    reads = refl;
  },
  record {
    has_action = refl;
    for_layer = refl;
    in_namespace = refl;
    at_revision = refl;
    beside_layer = refl;
    reads = refl;
  },
)

-- A plan can always be asked for; an apply only of a layer whose last plan has a name.
pub get_run-Asks :
    (action : Action) (layer : TerraformLayer) (revision : String)
    → ((get_run layer revision action ≡ none)
        × (action ≡ apply_action)
        × ((last_plan layer).1 ≡ []))
      ⊎ ((run : TerraformRun) × (get_run layer revision action ≡ some run)
          × Asks action layer revision run)
unfolding get_run artifact_for
get_run-Asks plan_action layer revision = inr (_, refl, (run_with-IsRunOf layer revision _).0)
get_run-Asks apply_action layer revision = elim (parts-cases (last_plan layer)) [
  | inl (short, nothing) ↦ inl (rw (get_run, nothing) refl, refl, short)
  | inr (name, attempt, others, named, some_artifact) ↦ inr (
    run_with layer revision apply_action (record { run = name; attempt = attempt }),
    rw (get_run, some_artifact) refl,
    (name, attempt, others, named, (run_with-IsRunOf layer revision _).1),
  )
]

pub start_run-Handled :
    (cfg : Config) (rt : Runtime) (w : World) (layer : TerraformLayer) (repo : TerraformRepository)
    (s : w.State) (action : Action)
    → Handled cfg rt w layer repo s action (start_run cfg rt w layer repo action s)
unfolding start_run
start_run-Handled cfg rt w layer repo s action =
    elim (Bool-cases (is_action_blocked cfg rt w s layer repo action)) [
      | inl closed ↦ rw closed (blocked closed)
      | inr open_window ↦
          elim (Option-cases (lookup last_relevant_commit layer.metadata.annotations)) [
            | inl missing ↦ rw (open_window, missing) (no_commit open_window missing)
            | inr (revision, commit) ↦ elim (get_run-Asks action layer revision) [
              | inl (panic, is_apply, unnamed) ↦
                  rw (open_window, commit, panic) (panicked open_window is_apply unnamed)
              | inr (run, e, asks) ↦
                  rw (open_window, commit, e) (sent revision run open_window commit asks)
            ]
          ]
    ]
