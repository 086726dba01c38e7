-- ===== src/World.antt =====
-- What the controllers call and do not implement: the Kubernetes API through
-- `sigs.k8s.io/controller-runtime`, the datastore through internal/datastore/client, the git
-- providers of internal/repository, the clock, and the parsers of times, schedules and glob patterns.
-- A call that only reads is a function of the state, so the reads between two writes of one
-- reconciliation see one state.
use burrito.Base.{ℕ, String, Bool, Option, List}
use burrito.Base.Int.{ℤ}
use burrito.Base.Effect.{Result, Effect}
use burrito.Base.Dict.{Dict}
use burrito.Api.{
  Time, Duration, NamespacedName, ObjectMeta, EnvVar, OwnerReference, TerraformLayer,
  TerraformRepository, TerraformRun, TerraformPullRequest, SyncWindow,
}

pub record Lease : Type 0 where
  pub name : String
  pub namespace : String
  pub holder_identity : String
  pub owner_references : List OwnerReference

pub data PodPhase : Type 0 where
  pending running succeeded failed unknown : PodPhase

pub record Container : Type 0 where
  pub image : String
  pub image_pull_policy : String
  pub args : List String
  pub command : List String
  pub env : List EnvVar

pub record Pod : Type 0 where
  pub metadata : ObjectMeta
  pub service_account_name : String
  pub node_selector : Dict String
  pub mounted_cas : List (String × String)
  pub container : Container
  pub phase : PodPhase

-- A secret with the `ca.crt` entry of its data.
pub record Secret : Type 0 where
  pub name : String
  pub namespace : String
  pub ca_crt : Option String

-- What a provider of Git repositories is reached with. The tokens and keys are not told apart.
pub record Credential : Type 0 where
  pub provider : String
  pub secrets : Dict String
  pub url : String

-- A secret of a credentials type; `credential` is none where its data cannot be parsed.
pub record CredentialSecret : Type 0 where
  pub namespace : String
  pub annotations : Dict String
  pub credential : Option Credential

-- Functions of libraries that are not part of the program.
pub record Runtime : Type 0 where
  pub parse_time : String → Option Time  -- `time.Parse(time.UnixDate, _)`
  pub format_time : Time → String  -- `_.Format(time.UnixDate)`
  pub parse_duration : String → Option Duration  -- `time.ParseDuration`
  pub cron_next : String → Option (Time → Time)  -- `cron.ParseStandard` and `Schedule.Next`
  pub glob_match : String → String → Option Bool  -- `filepath.Match`
  pub exp_int32 : ℕ → ℤ  -- `int32(math.Exp(float64(_)))`
  pub parse_url : String → Option (String × String)  -- `url.Parse`: `Hostname()` and `Path`
  pub clean_path : String → String  -- `filepath.Clean`

pub record World : Type 1 where
  pub State : Type 0
  pub now : State → Time
  pub get_layer : State → NamespacedName → Result TerraformLayer
  pub get_repository : State → NamespacedName → Result TerraformRepository
  pub get_run : State → NamespacedName → Result TerraformRun
  pub get_pod : State → NamespacedName → Result Pod
  pub get_lease : State → NamespacedName → Result Lease
  pub get_secret : State → NamespacedName → Result Secret
  pub list_runs : State → String → Dict String → Result (List TerraformRun)
  pub list_layers : State → Result (List TerraformLayer)
  pub list_all_runs : State → Result (List TerraformRun)
  pub list_pods : State → Dict String → Result (List Pod)
  pub create_run : TerraformRun → Effect State (Result TerraformRun)
  pub delete_run : TerraformRun → Effect State (Result (Unit {0}))
  pub create_pod : Pod → Effect State (Result Pod)
  pub create_lease : Lease → Effect State (Result (Unit {0}))
  pub delete_lease : Lease → Effect State (Result (Unit {0}))
  pub create_secret : Secret → Effect State (Result (Unit {0}))
  pub update_secret : Secret → Effect State (Result (Unit {0}))
  pub patch_layer : TerraformLayer → Effect State (Result TerraformLayer)
  pub update_layer_status : TerraformLayer → Effect State (Result TerraformLayer)
  pub update_run_status : TerraformRun → Effect State (Result TerraformRun)
  pub check_git_bundle : State → NamespacedName → String → String → Result Bool
  pub put_git_bundle : NamespacedName → String → String → String → Effect State (Result (Unit {0}))
  pub update_repository_status : TerraformRepository → Effect State (Result TerraformRepository)
  -- `GetGitProviderFromRepository`, and the provider's `GetLatestRevisionForRef`, `Bundle` and
  -- `GetChanges` between two commits
  pub get_git_provider : State → TerraformRepository → Result (Unit {0})
  pub latest_revision : State → TerraformRepository → String → Result String
  pub bundle : State → TerraformRepository → String → Result String
  pub get_changes : State → TerraformRepository → String → String → List String
  pub get_pull_request : State → NamespacedName → Result TerraformPullRequest
  pub list_repositories : State → Result (List TerraformRepository)
  pub list_pull_requests : State → Result (List TerraformPullRequest)
  -- the layers with a label, in every namespace; an error if it is no valid label
  pub list_labelled_layers : State → String → String → Result (List TerraformLayer)
  pub create_layer : TerraformLayer → Effect State (Result TerraformLayer)
  -- `DeleteAllOf` in a namespace with a label
  pub delete_layers : String → String → String → Effect State (Result (Unit {0}))
  pub create_pull_request : TerraformPullRequest → Effect State (Result TerraformPullRequest)
  pub delete_pull_request : TerraformPullRequest → Effect State (Result (Unit {0}))
  pub patch_repository : TerraformRepository → Effect State (Result TerraformRepository)
  pub patch_pull_request : TerraformPullRequest → Effect State (Result TerraformPullRequest)
  pub update_pull_request_status : TerraformPullRequest → Effect State (Result TerraformPullRequest)
  -- `GetAPIProviderFromRepository`, and the provider's `GetChanges` and `Comment`
  pub get_api_provider : State → TerraformRepository → Result (Unit {0})
  pub pull_request_changes :
      State → TerraformRepository → TerraformPullRequest → Result (List String)
  pub comment :
      TerraformRepository
      → TerraformPullRequest
      → List TerraformLayer
      → Effect State (Result (Unit {0}))
  -- the secrets of a type
  pub list_credential_secrets : State → String → Result (List CredentialSecret)
  pub get_plan : State → NamespacedName → String → String → String → Result String
  pub pod_logs : State → NamespacedName → Result String
  pub put_logs : NamespacedName → String → String → String → Effect State (Result (Unit {0}))

-- internal/burrito/config/config.go, the entries that the controllers read.
pub record Timers : Type 0 where
  pub drift_detection : Duration
  pub on_error : Duration
  pub wait_action : Duration
  pub failure_grace_period : Duration
  pub repository_sync : Duration

pub record Config : Type 0 where
  pub main_namespace : String
  pub timers : Timers
  pub default_sync_windows : List SyncWindow
  pub terraform_max_retries : ℤ
  pub max_concurrent_runner_pods : ℤ
  pub hermitcrab_enabled : Bool
  pub hermitcrab_secret : String
  pub datastore_hostname : String
  pub datastore_tls : Bool
  pub datastore_secret : String
  pub runner_image : String
  pub runner_tag : String
  pub runner_pull_policy : String
  pub runner_args : List String
  pub runner_command : List String
