-- ===== src/PullRequest/Layers.antt =====
-- internal/controllers/terraformpullrequest/layer.go: the layers that a pull request affects, and their
-- temporary copies.
use burrito.Base.{
  String, ◌<>◌, Bool, false, ◌||◌, ◌&&◌, none, some, List, [], ◌∷◌, ◌==◌, filter, map, contains,
}
use burrito.Base.Int.{pos}
use burrito.Base.Dict.{lookup_or_empty}
use burrito.Base.Effect.{Result, ok, err, Effect}
use burrito.Api.{
  TerraformLayer, TerraformRepository, TerraformPullRequest, pull_request_kind,
  api_version_or_default,
}
use burrito.Annotations.{last_branch_commit, last_relevant_commit}
use burrito.World.{World, Runtime}
use burrito.Layer.Files.{layer_files_have_changed}

-- `pr.Annotations[annotations.LastBranchCommit]`
abbrev pub commit_of : TerraformPullRequest → String
commit_of pr = lookup_or_empty last_branch_commit pr.metadata.annotations

unfoldable pub is_layer_affected :
    Runtime → TerraformPullRequest → (changes : List String) → TerraformLayer → Bool
is_layer_affected rt pr changes layer =
    (layer.spec.repository.name == pr.spec.repository.name)
    && ((layer.spec.repository.namespace == pr.spec.repository.namespace)
        && (((layer.spec.branch == pr.spec.base)
              || contains layer.spec.additional_target_refs pr.spec.base)
            && layer_files_have_changed rt layer changes))

-- One layer of `generateTempLayers`.
unfoldable pub temp_layer : TerraformPullRequest → TerraformLayer → TerraformLayer
temp_layer pr layer = record {
  api_version = "";
  kind = "";
  metadata = record {
    name = "";
    generate_name = layer.metadata.name <> ("-pr-" <> (pr.spec.id <> "-"));
    namespace = layer.metadata.namespace;
    uid = "";
    generation = 0;
    creation_timestamp = pos 0;
    labels = ("burrito/managed-by", pr.metadata.name) ∷ [];
    annotations = (last_branch_commit, commit_of pr) ∷ (last_relevant_commit, commit_of pr) ∷ [];
    owner_references =
        record {
          api_version = api_version_or_default pr.api_version;
          kind = pull_request_kind pr;
          name = pr.metadata.name;
          uid = pr.metadata.uid;
        }
        ∷ [];
  };
  spec = record {
    path = layer.spec.path;
    branch = pr.spec.branch;
    additional_target_refs = [];
    terraform = layer.spec.terraform;
    opentofu = layer.spec.opentofu;
    terragrunt = layer.spec.terragrunt;
    repository = layer.spec.repository;
    remediation_strategy = record {
      auto_apply = some false;
      apply_without_plan_artifact = none;
      max_retries = none;
    };
    override_runner_spec = layer.spec.override_runner_spec;
    run_history_policy = layer.spec.run_history_policy;
  };
  status = record {
    conditions = [];
    state = "";
    last_result = "";
    last_run = record { name = ""; commit = ""; date = pos 0; action = "" };
    latest_runs = [];
  };
}

unfoldable pub generate_temp_layers :
    TerraformPullRequest → List TerraformLayer → List TerraformLayer
unfolding temp_layer
generate_temp_layers pr layers = map (temp_layer pr) layers

module _ (rt : Runtime) (w : World) where
  unfoldable pub get_affected_layers :
      TerraformRepository → TerraformPullRequest → w.State → Result (List TerraformLayer)
  unfolding is_layer_affected
  get_affected_layers repo pr s = elim (w.list_layers s) [
    | err e ↦ err e
    | ok layers ↦ elim (w.get_api_provider s repo) [
      | err e ↦ err e
      | ok u ↦ elim (w.pull_request_changes s repo pr) [
        | err e ↦ err e
        | ok changes ↦ ok (filter (is_layer_affected rt pr changes) layers)
      ]
    ]
  ]

  unfoldable pub delete_temp_layers : TerraformPullRequest → Effect w.State (Result (Unit {0}))
  delete_temp_layers pr =
      w.delete_layers pr.metadata.namespace "burrito/managed-by" pr.metadata.name
