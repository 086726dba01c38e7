-- ===== src/Api.antt =====
-- The custom resources of api/v1alpha1: TerraformLayer, TerraformRepository, TerraformRun and
-- TerraformPullRequest, with the parts of the Kubernetes types that the controllers read. `*int` and `*bool` are
-- options. Not kept: the messages and times of conditions, and what `overrideRunnerSpec` only hands
-- on to the pod (tolerations, affinity, resources, volumes, init containers, pull secrets).
pub mod Config
pub mod Merge
pub mod Engine
use burrito.Base.{ℕ, String, Bool, Option, none, some, List, [], ◌∷◌, ◌==◌, if◌then◌else◌}
use burrito.Base.Int.{ℤ}
use burrito.Base.Dict.{Dict}

-- An instant, in nanoseconds from a fixed origin, and `time.Duration`.
abbrev pub Time : Type 0
Time = ℤ

abbrev pub Duration : Type 0
Duration = ℤ

pub record NamespacedName : Type 0 where
  pub namespace : String
  pub name : String

pub record OwnerReference : Type 0 where
  pub api_version : String
  pub kind : String
  pub name : String
  pub uid : String

pub record ObjectMeta : Type 0 where
  pub name : String
  pub generate_name : String
  pub namespace : String
  pub uid : String
  pub generation : ℕ
  pub creation_timestamp : Time
  pub labels : Dict String
  pub annotations : Dict String
  pub owner_references : List OwnerReference

pub data ConditionStatus : Type 0 where
  is_true is_false unknown : ConditionStatus

pub record Condition : Type 0 where
  pub type : String
  pub observed_generation : ℕ
  pub status : ConditionStatus
  pub reason : String

pub record ToolConfig : Type 0 where
  pub version : String
  pub enabled : Option Bool

pub record RemediationStrategy : Type 0 where
  pub auto_apply : Option Bool
  pub apply_without_plan_artifact : Option Bool
  pub max_retries : Option ℤ

pub record RunHistoryPolicy : Type 0 where
  pub keep_last_runs : Option ℤ

pub data SyncWindowKind : Type 0 where
  allow deny other_kind : SyncWindowKind

pub record SyncWindow : Type 0 where
  pub kind : SyncWindowKind
  pub actions : List String
  pub schedule : String
  pub duration : String
  pub layers : List String

pub record EnvVar : Type 0 where
  pub name : String
  pub value : String

pub record OverrideRunnerSpec : Type 0 where
  pub image : String
  pub image_pull_policy : String
  pub service_account_name : String
  pub node_selector : Dict String
  pub env : List EnvVar
  pub annotations : Dict String
  pub labels : Dict String
  pub command : List String
  pub args : List String
  pub extra_init_args : List String
  pub extra_plan_args : List String
  pub extra_apply_args : List String

pub record TerraformLayerSpec : Type 0 where
  pub path : String
  pub branch : String
  pub additional_target_refs : List String
  pub terraform : ToolConfig
  pub opentofu : ToolConfig
  pub terragrunt : ToolConfig
  pub repository : NamespacedName
  pub remediation_strategy : RemediationStrategy
  pub override_runner_spec : OverrideRunnerSpec
  pub run_history_policy : RunHistoryPolicy

pub record TerraformLayerRun : Type 0 where
  pub name : String
  pub commit : String
  pub date : Time
  pub action : String

pub record TerraformLayerStatus : Type 0 where
  pub conditions : List Condition
  pub state : String
  pub last_result : String
  pub last_run : TerraformLayerRun
  pub latest_runs : List TerraformLayerRun

pub record TerraformLayer : Type 0 where
  pub api_version : String
  pub kind : String
  pub metadata : ObjectMeta
  pub spec : TerraformLayerSpec
  pub status : TerraformLayerStatus

pub record BranchState : Type 0 where
  pub name : String
  pub latest_rev : String
  pub last_sync_date : String
  pub last_sync_status : String

pub record TerraformRepositorySpec : Type 0 where
  pub url : String
  pub terraform : ToolConfig
  pub terragrunt : ToolConfig
  pub opentofu : ToolConfig
  pub remediation_strategy : RemediationStrategy
  pub override_runner_spec : OverrideRunnerSpec
  pub run_history_policy : RunHistoryPolicy
  pub max_concurrent_runner_pods : ℤ
  pub sync_windows : List SyncWindow

pub record TerraformRepositoryStatus : Type 0 where
  pub state : String
  pub branches : List BranchState
  pub conditions : List Condition

pub record TerraformRepository : Type 0 where
  pub metadata : ObjectMeta
  pub spec : TerraformRepositorySpec
  pub status : TerraformRepositoryStatus

pub record Artifact : Type 0 where
  pub run : String
  pub attempt : String

pub record TerraformRunLayer : Type 0 where
  pub name : String
  pub namespace : String
  pub revision : String

pub record TerraformRunSpec : Type 0 where
  pub action : String
  pub artifact : Artifact
  pub layer : TerraformRunLayer

pub record Attempt : Type 0 where
  pub pod_name : String
  pub number : ℕ
  pub logs_uploaded : Bool

-- `retries` is an `int` that starts at 0 and only the run controller writes, by adding 1.
pub record TerraformRunStatus : Type 0 where
  pub conditions : List Condition
  pub state : String
  pub retries : ℕ
  pub last_run : String
  pub attempts : List Attempt
  pub runner_pod : String

pub record TerraformRun : Type 0 where
  pub api_version : String
  pub kind : String
  pub metadata : ObjectMeta
  pub spec : TerraformRunSpec
  pub status : TerraformRunStatus

pub record TerraformPullRequestSpec : Type 0 where
  pub branch : String
  pub base : String
  pub id : String
  pub repository : NamespacedName

pub record TerraformPullRequestStatus : Type 0 where
  pub conditions : List Condition
  pub state : String
  pub last_discovered_commit : String
  pub last_commented_commit : String

pub record TerraformPullRequest : Type 0 where
  pub api_version : String
  pub kind : String
  pub metadata : ObjectMeta
  pub spec : TerraformPullRequestSpec
  pub status : TerraformPullRequestStatus

unfoldable pub pull_request_kind : TerraformPullRequest → String
pull_request_kind pr = if pr.kind == "" then "TerraformPullRequest" else pr.kind

-- `(*TerraformRun).GetAPIVersion` and `GetKind`, and those of the layer.
unfoldable pub api_version_or_default : String → String
api_version_or_default v = if v == "" then "config.terraform.padok.cloud/v1alpha1" else v

unfoldable pub run_kind : TerraformRun → String
run_kind run = if run.kind == "" then "TerraformRun" else run.kind

unfoldable pub layer_kind : TerraformLayer → String
layer_kind layer = if layer.kind == "" then "TerraformLayer" else layer.kind

-- `GetBranchState`: the first entry of that name.
unfoldable pub get_branch_state : String → List BranchState → Option BranchState
get_branch_state name [] = none
get_branch_state name (b ∷ branches) =
    if b.name == name then some b else get_branch_state name branches
