-- ===== src/Run/Pod.antt =====
-- internal/controllers/terraformrun/pod.go: the runner pod of a run. Volumes, resources, tolerations
-- and the like are handed on unread and are left out; `mounted_cas` keeps each mounted certificate.
use burrito.Base.{
  String, ◌<>◌, Bool, true, false, none, some, List, [], ◌∷◌, ◌++◌, ◌==◌, if◌then◌else◌,
}
use burrito.Base.Int.{pos}
use burrito.Base.Dict.{Dict}
use burrito.Base.Text.{join}
use burrito.Base.Effect.{Result, ok, err, ApiError, Effect, is_ok}
use burrito.Api.{EnvVar, OverrideRunnerSpec, TerraformLayer, TerraformRepository, TerraformRun}
use burrito.Api.Config.{choose_string, choose_slice}
use burrito.Api.Merge.{merge_maps}
use burrito.Lock.{run_owner}
use burrito.World.{World, Config, Pod, pending, Secret}

abbrev env : String → String → EnvVar
env name value = record { name = name; value = value }

unfoldable pub get_default_labels : TerraformRun → Dict String
get_default_labels run =
    ("burrito/component", "runner")
    ∷ ("burrito/managed-by", run.metadata.name)
    ∷ ("burrito/action", run.spec.action)
    ∷ []

-- `GetOverrideRunnerSpec` of api/v1alpha1/common.go, the entries that are not merely handed on.
unfoldable pub get_override_runner_spec : TerraformRepository → TerraformLayer → OverrideRunnerSpec
unfolding choose_string choose_slice merge_maps
get_override_runner_spec repository layer =
    let a = repository.spec.override_runner_spec in
    let b = layer.spec.override_runner_spec in
    record {
      image = choose_string a.image b.image;
      image_pull_policy = choose_string a.image_pull_policy b.image_pull_policy;
      service_account_name = choose_string a.service_account_name b.service_account_name;
      node_selector = merge_maps a.node_selector b.node_selector;
      env = choose_slice a.env b.env;
      annotations = merge_maps a.annotations b.annotations;
      labels = merge_maps a.labels b.labels;
      command = choose_slice a.command b.command;
      args = choose_slice a.args b.args;
      extra_init_args = choose_slice a.extra_init_args b.extra_init_args;
      extra_plan_args = choose_slice a.extra_plan_args b.extra_plan_args;
      extra_apply_args = choose_slice a.extra_apply_args b.extra_apply_args;
    }

-- The environment that `defaultPodSpec` sets.
unfoldable pub default_env : Config → TerraformLayer → TerraformRun → List EnvVar
default_env cfg layer run =
    env "BURRITO_RUNNER_LAYER_NAME" layer.metadata.name
    ∷ env "BURRITO_RUNNER_LAYER_NAMESPACE" layer.metadata.namespace
    ∷ env "BURRITO_RUNNER_RUN" run.metadata.name
    ∷ env "SSH_KNOWN_HOSTS" "/home/burrito/.ssh/known_hosts"
    ∷ env "BURRITO_DATASTORE_HOSTNAME" cfg.datastore_hostname
    ∷ env "TERM" "xterm-256color"
    ∷ []

abbrev action_env : String → List EnvVar
action_env action =
    if action == "plan"
    then env "BURRITO_RUNNER_ACTION" "plan" ∷ []
    else if action == "apply"
    then env "BURRITO_RUNNER_ACTION" "apply" ∷ []
    else []

abbrev extra_env : String → List String → List EnvVar
extra_env name [] = []
extra_env name (a ∷ args) = env name (join (a ∷ args)) ∷ []

-- The settings that a certificate brings with it, where it could be made available.
abbrev hermitcrab_env : Config → Bool → List EnvVar
hermitcrab_env cfg false = []
hermitcrab_env cfg true =
    env "BURRITO_HERMITCRAB_ENABLED" "true"
    ∷ env "BURRITO_HERMITCRAB_URL"
        ("https://burrito-hermitcrab." <> cfg.main_namespace <> ".svc.cluster.local/v1/providers/")
    ∷ []

abbrev tls_env : Bool → List EnvVar
tls_env false = []
tls_env true = env "BURRITO_DATASTORE_TLS" "true" ∷ []

abbrev mounted : String → String → Bool → List (String × String)
mounted secret ca false = []
mounted secret ca true = (secret, ca) ∷ []

-- The pod that `getPod` returns, when it is known which certificates are available.
unfoldable pub build_pod :
    Config → TerraformRun → TerraformLayer → TerraformRepository → Bool → Bool → Pod
unfolding get_default_labels get_override_runner_spec default_env
build_pod cfg run layer repository hermitcrab tls =
    let spec = get_override_runner_spec repository layer in
    record {
      metadata = record {
        name = "";
        generate_name = layer.metadata.name <> "-" <> run.spec.action <> "-";
        namespace = layer.metadata.namespace;
        uid = "";
        generation = 0;
        creation_timestamp = pos 0;
        labels = merge_maps spec.labels (get_default_labels run);
        annotations = spec.annotations;
        owner_references = run_owner run ∷ [];
      };
      service_account_name =
          if spec.service_account_name == "" then "burrito-runner" else spec.service_account_name;
      node_selector = spec.node_selector;
      mounted_cas =
          mounted cfg.hermitcrab_secret "burrito-hermitcrab-ca" hermitcrab
          ++ mounted cfg.datastore_secret "burrito-datastore-ca" tls;
      container = record {
        image = if spec.image == "" then cfg.runner_image <> ":" <> cfg.runner_tag else spec.image;
        image_pull_policy = spec.image_pull_policy;
        args = choose_slice cfg.runner_args spec.args;
        command = choose_slice cfg.runner_command spec.command;
        env =
            default_env cfg layer run
            ++ (hermitcrab_env cfg hermitcrab
                ++ (tls_env tls
                    ++ (action_env run.spec.action
                        ++ (spec.env
                            ++ (extra_env "TF_CLI_ARGS_init" spec.extra_init_args
                                ++ (extra_env "TF_CLI_ARGS_plan" spec.extra_plan_args
                                    ++ extra_env "TF_CLI_ARGS_apply" spec.extra_apply_args))))));
      };
      phase = pending;
    }

module _ (w : World) where
  open w use {State, get_secret, create_secret, update_secret}

  after_create : Secret → Result (Unit {0}) → Effect State Bool
  after_create secret (ok _) s = (true, s)
  after_create secret (err ApiError.already_exists) s =
      let (r, s') = update_secret secret s in (is_ok r, s')
  after_create secret (err _) s = (false, s)

  copy_ca : String → String → Result Secret → Effect State Bool
  unfolding after_create
  copy_ca tenant name (err e) s = (false, s)
  copy_ca tenant name (ok source) s = elim source.ca_crt [
    | none ↦ (false, s)
    | some ca ↦
        let secret : Secret = record { name = name; namespace = tenant; ca_crt = some ca } in
        let (r, s') = create_secret secret s in after_create secret r s'
  ]

  -- Whether the CA certificate is available in the tenant's namespace, copied there if need be.
  unfoldable pub ensure_certificate_authority_secret : Config → String → String → Effect State Bool
  unfolding copy_ca
  ensure_certificate_authority_secret cfg tenant name s =
      copy_ca tenant name (get_secret s (record { namespace = cfg.main_namespace; name = name })) s

  abbrev pub available : Config → Bool → String → String → Effect State Bool
  available cfg false tenant name s = (false, s)
  available cfg true tenant name s = ensure_certificate_authority_secret cfg tenant name s

  unfoldable pub get_pod :
      Config → TerraformRun → TerraformLayer → TerraformRepository → Effect State Pod
  unfolding build_pod
  get_pod cfg run layer repository s =
      let (hermitcrab, s1) =
        available cfg cfg.hermitcrab_enabled layer.metadata.namespace cfg.hermitcrab_secret s in
      let (tls, s2) =
        available cfg cfg.datastore_tls layer.metadata.namespace cfg.datastore_secret s1 in
      (build_pod cfg run layer repository hermitcrab tls, s2)
