-- ===== src/Layer/Runs.antt =====
-- internal/controllers/terraformlayer/run.go: the run of an action, and the runs of a layer. A panic
-- of the source is `none`.
use burrito.Base.{String, ◌<>◌, Option, none, some, List, [], ◌∷◌}
use burrito.Base.Int.{pos}
use burrito.Base.Dict.{Dict, lookup_or_empty}
use burrito.Base.Text.{split}
use burrito.Base.Effect.{Result, ok, err, Effect}
use burrito.Api.{Artifact, TerraformLayer, TerraformRun, api_version_or_default, layer_kind}
use burrito.Annotations.{last_plan_run}
use burrito.World.{World}

pub data Action : Type 0 where
  plan_action apply_action : Action

abbrev pub action_name : Action → String
action_name plan_action = "plan"
action_name apply_action = "apply"

unfoldable pub get_default_labels : TerraformLayer → Dict String
get_default_labels layer = ("burrito/managed-by", layer.metadata.name) ∷ []

-- `run := strings.Split(_, "/")`, `run[0]` and `run[1]`: an index out of range is a panic.
abbrev pub artifact_of : String × List String → Option Artifact
artifact_of (first, []) = none
artifact_of (first, attempt ∷ others) = some (record { run = first; attempt = attempt })

abbrev pub no_artifact : Artifact
no_artifact = record { run = ""; attempt = "" }

unfoldable pub artifact_for : TerraformLayer → Action → Option Artifact
artifact_for layer plan_action = some no_artifact
artifact_for layer apply_action =
    artifact_of (split b'/' (lookup_or_empty last_plan_run layer.metadata.annotations))

-- The run around its artifact.
unfoldable pub run_with : TerraformLayer → String → Action → Artifact → TerraformRun
unfolding get_default_labels
run_with layer revision action artifact = record {
  api_version = "";
  kind = "";
  metadata = record {
    name = "";
    generate_name = layer.metadata.name <> "-" <> action_name action <> "-";
    namespace = layer.metadata.namespace;
    uid = "";
    generation = 0;
    creation_timestamp = pos 0;
    labels = get_default_labels layer;
    annotations = [];
    owner_references =
        record {
          api_version = api_version_or_default layer.api_version;
          kind = layer_kind layer;
          name = layer.metadata.name;
          uid = layer.metadata.uid;
        }
        ∷ [];
  };
  spec = record {
    action = action_name action;
    artifact = artifact;
    layer = record {
      name = layer.metadata.name;
      namespace = layer.metadata.namespace;
      revision = revision;
    };
  };
  status = record {
    conditions = [];
    state = "";
    retries = 0;
    last_run = "";
    attempts = [];
    runner_pod = "";
  };
}

unfoldable pub get_run : TerraformLayer → String → Action → Option TerraformRun
get_run layer revision action = elim (artifact_for layer action) [
  | none ↦ none
  | some artifact ↦ some (run_with layer revision action artifact)
]

module _ (w : World) where
  -- The comment in the source speaks of finished runs only; the code keeps all.
  unfoldable pub get_all_runs : w.State → TerraformLayer → Result (List TerraformRun)
  unfolding get_default_labels
  get_all_runs s layer = w.list_runs s layer.metadata.namespace (get_default_labels layer)

  -- The runs are deleted in turn, up to the first error.
  unfoldable pub delete_all : List TerraformRun → Effect w.State (Result (Unit {0}))
  delete_all [] s = (ok tt, s)
  delete_all (run ∷ runs) s =
      let (r, s') = w.delete_run run s in
      let rest = delete_all runs s' in elim r [ ok _ ↦ rest | err e ↦ (err e, s') ]
