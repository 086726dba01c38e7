-- ===== src/Api/Config.antt =====
-- The settings of a layer that fall back on its repository: the getters of api/v1alpha1/common.go.
use burrito.Base.{String, Bool, false, Option, none, some, List, [], ◌∷◌, ◌==◌, if◌then◌else◌}
use burrito.Base.Int.{ℤ, pos}
use burrito.Api.{TerraformLayer, TerraformRepository}

unfoldable pub is_enabled : Option Bool → Bool
is_enabled none = false
is_enabled (some b) = b

-- The second argument, the layer's, takes precedence over the first, the repository's.
unfoldable pub choose_bool : Option Bool → Option Bool → Bool → Bool
choose_bool a (some b) default_val = b
choose_bool (some a) none default_val = a
choose_bool none none default_val = default_val

unfoldable pub choose_int : Option ℤ → Option ℤ → ℤ → ℤ
choose_int a (some b) d = b
choose_int (some a) none d = a
choose_int none none d = d

unfoldable pub choose_string : String → String → String
choose_string a b = if b == "" then a else b

unfoldable pub choose_slice {ℓ} : {A : Type ℓ} → List A → List A → List A
choose_slice a [] = a
choose_slice a (x ∷ b) = x ∷ b

module _ (repository : TerraformRepository) (layer : TerraformLayer) where
  unfoldable pub get_terraform_enabled : Bool
  unfolding is_enabled choose_bool
  get_terraform_enabled =
      if is_enabled layer.spec.opentofu.enabled
      then false
      else choose_bool repository.spec.terraform.enabled layer.spec.terraform.enabled false

  unfoldable pub get_opentofu_enabled : Bool
  unfolding is_enabled choose_bool
  get_opentofu_enabled =
      if is_enabled layer.spec.terraform.enabled
      then false
      else choose_bool repository.spec.opentofu.enabled layer.spec.opentofu.enabled false

  unfoldable pub get_terragrunt_enabled : Bool
  unfolding choose_bool
  get_terragrunt_enabled =
      choose_bool repository.spec.terragrunt.enabled layer.spec.terragrunt.enabled false

  unfoldable pub get_terraform_version : String
  unfolding choose_string
  get_terraform_version =
      choose_string repository.spec.terraform.version layer.spec.terraform.version

  unfoldable pub get_opentofu_version : String
  unfolding choose_string
  get_opentofu_version = choose_string repository.spec.opentofu.version layer.spec.opentofu.version

  unfoldable pub get_terragrunt_version : String
  unfolding choose_string
  get_terragrunt_version =
      choose_string repository.spec.terragrunt.version layer.spec.terragrunt.version

  -- `*GetRunHistoryPolicy(repository, layer).KeepLastRuns`
  unfoldable pub get_keep_last_runs : ℤ
  unfolding choose_int
  get_keep_last_runs =
      choose_int repository.spec.run_history_policy.keep_last_runs
        layer.spec.run_history_policy.keep_last_runs (pos 5)

  unfoldable pub get_auto_apply_enabled : Bool
  unfolding choose_bool
  get_auto_apply_enabled =
      choose_bool repository.spec.remediation_strategy.auto_apply
        layer.spec.remediation_strategy.auto_apply false

  unfoldable pub get_apply_without_plan_artifact_enabled : Bool
  unfolding choose_bool
  get_apply_without_plan_artifact_enabled =
      choose_bool repository.spec.remediation_strategy.apply_without_plan_artifact
        layer.spec.remediation_strategy.apply_without_plan_artifact false
