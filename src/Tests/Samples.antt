-- ===== src/Tests/Samples.antt =====
-- A configuration, a repository, layers and runs.
use burrito.Base.{ℕ, String, Bool, false, true, Option, none, some, List, [], ◌∷◌}
use burrito.Base.Int.{ℤ, pos}
use burrito.Base.Dict.{Dict}
use burrito.Api.{
  ObjectMeta, ToolConfig, RemediationStrategy, RunHistoryPolicy, OverrideRunnerSpec, TerraformLayer,
  TerraformLayerRun, TerraformRepository, TerraformRun, TerraformPullRequest, SyncWindow,
  SyncWindowKind,
}
use burrito.Annotations.{last_branch_commit}
use burrito.World.{Config}
use burrito.Tests.Cluster.{Store}

abbrev pub cfg : Config
cfg = record {
  main_namespace = "burrito";
  timers = record {
    drift_detection = pos 3600;
    on_error = pos 10;
    wait_action = pos 5;
    failure_grace_period = pos 30;
    repository_sync = pos 300;
  };
  default_sync_windows = [];
  terraform_max_retries = pos 2;
  max_concurrent_runner_pods = pos 5;
  hermitcrab_enabled = false;
  hermitcrab_secret = "hermitcrab";
  datastore_hostname = "datastore";
  datastore_tls = false;
  datastore_secret = "datastore";
  runner_image = "burrito";
  runner_tag = "latest";
  runner_pull_policy = "Always";
  runner_args = "runner" ∷ "start" ∷ [];
  runner_command = [];
}

abbrev meta : String → Dict String → ObjectMeta
meta name annotations = record {
  name = name;
  generate_name = "";
  namespace = "team";
  uid = "uid";
  generation = 1;
  creation_timestamp = pos 7;
  labels = [];
  annotations = annotations;
  owner_references = [];
}

abbrev tool : Option Bool → ToolConfig
tool enabled = record { version = ""; enabled = enabled }

abbrev pub strategy : Option Bool → RemediationStrategy
strategy auto = record { auto_apply = auto; apply_without_plan_artifact = none; max_retries = none }

abbrev history_policy : RunHistoryPolicy
history_policy = record { keep_last_runs = none }

abbrev pub overrides : Dict String → OverrideRunnerSpec
overrides labels = record {
  image = "";
  image_pull_policy = "";
  service_account_name = "";
  node_selector = [];
  env = [];
  annotations = [];
  labels = labels;
  command = [];
  args = [];
  extra_init_args = [];
  extra_plan_args = [];
  extra_apply_args = [];
}

abbrev pub a_run : String → String → ℕ → String → TerraformRun
a_run action state retries pod = record {
  api_version = "";
  kind = "";
  metadata = meta "run" [];
  spec = record {
    action = action;
    artifact = record { run = ""; attempt = "" };
    layer = record { name = "network"; namespace = "team"; revision = "abc" };
  };
  status = record {
    conditions = [];
    state = state;
    retries = retries;
    last_run = "then";
    attempts = [];
    runner_pod = pod;
  };
}

abbrev pub history_entry : String → ℤ → TerraformLayerRun
history_entry name date = record { name = name; commit = ""; date = date; action = "plan" }

abbrev pub a_layer : String → Dict String → TerraformLayer
a_layer last_run annotations = record {
  api_version = "";
  kind = "";
  metadata = meta "network" annotations;
  spec = record {
    path = "network/";
    branch = "main";
    additional_target_refs = [];
    terraform = tool (some true);
    opentofu = tool none;
    terragrunt = tool none;
    repository = record { namespace = "team"; name = "repo" };
    remediation_strategy = strategy none;
    override_runner_spec = overrides (("burrito/component", "mine") ∷ []);
    run_history_policy = history_policy;
  };
  status = record {
    conditions = [];
    state = "";
    last_result = "";
    last_run = history_entry last_run (pos 7);
    latest_runs = history_entry "run" (pos 7) ∷ [];
  };
}

abbrev pub a_window : SyncWindowKind → SyncWindow
a_window kind = record {
  kind = kind;
  actions = "apply" ∷ [];
  schedule = "* * * * *";
  duration = "10s";
  layers = "*" ∷ [];
}

abbrev pub a_repository : Option Bool → TerraformRepository
a_repository auto = record {
  metadata = meta "repo" [];
  spec = record {
    url = "https://github.com/padok-team/burrito";
    terraform = tool none;
    terragrunt = tool none;
    opentofu = tool none;
    remediation_strategy = strategy auto;
    override_runner_spec = overrides (("burrito/action", "theirs") ∷ []);
    run_history_policy = history_policy;
    max_concurrent_runner_pods = pos 0;
    sync_windows = [];
  };
  status = record { state = ""; branches = []; conditions = [] };
}

abbrev pub a_store : TerraformLayer → List TerraformRun → Store
a_store layer runs = record {
  time = pos 100;
  layer = layer;
  repository = a_repository none;
  leases = λ k. none;
  runs = runs;
  pull_request = none;
  plans = λ key run attempt format. some "";
}

-- A layer that nothing is known of.
abbrev pub new_layer : TerraformLayer
new_layer = a_layer "" []

abbrev pub empty_store : Store
empty_store = a_store new_layer []

abbrev pub a_pull_request : String → String → TerraformPullRequest
a_pull_request discovered commented = record {
  api_version = "";
  kind = "";
  metadata = record (meta "repo-7" ((last_branch_commit, "def") ∷ [])) { namespace = "team" };
  spec = record {
    branch = "feature";
    base = "main";
    id = "7";
    repository = record { namespace = "team"; name = "repo" };
  };
  status = record {
    conditions = [];
    state = "";
    last_discovered_commit = discovered;
    last_commented_commit = commented;
  };
}
