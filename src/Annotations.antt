-- ===== src/Annotations.antt =====
-- internal/annotations/annotations.go: the annotation keys, `Add` and `Remove`.
use Prim.Native.Char.{code}
use burrito.Base.{String, ◌<>◌, eqb, if◌then◌else◌}
use burrito.Base.Dict.{Dict, remove, insert_all}
use burrito.Base.Effect.{Result, ok, err, Effect}
use burrito.Api.{TerraformLayer}
use burrito.World.{World}

abbrev pub last_apply_sum : String
last_apply_sum = "runner.terraform.padok.cloud/apply-sum"

abbrev pub last_apply_date : String
last_apply_date = "runner.terraform.padok.cloud/apply-date"

abbrev pub last_apply_commit : String
last_apply_commit = "runner.terraform.padok.cloud/apply-commit"

abbrev pub last_plan_commit : String
last_plan_commit = "runner.terraform.padok.cloud/plan-commit"

abbrev pub last_plan_date : String
last_plan_date = "runner.terraform.padok.cloud/plan-date"

abbrev pub last_plan_sum : String
last_plan_sum = "runner.terraform.padok.cloud/plan-sum"

abbrev pub last_plan_run : String
last_plan_run = "runner.terraform.padok.cloud/plan-run"

abbrev pub last_branch_commit : String
last_branch_commit = "webhook.terraform.padok.cloud/branch-commit"

abbrev pub last_branch_commit_date : String
last_branch_commit_date = "webhook.terraform.padok.cloud/branch-commit-date"

abbrev pub last_relevant_commit : String
last_relevant_commit = "webhook.terraform.padok.cloud/relevant-commit"

abbrev pub last_relevant_commit_date : String
last_relevant_commit_date = "webhook.terraform.padok.cloud/relevant-commit-date"

abbrev pub additionnal_trigger_paths : String
additionnal_trigger_paths = "config.terraform.padok.cloud/additionnal-trigger-paths"

abbrev pub sync_now : String
sync_now = "api.terraform.padok.cloud/sync-now"

abbrev pub apply_now : String
apply_now = "api.terraform.padok.cloud/apply-now"

abbrev pub allowed_tenants : String
allowed_tenants = "credentials.terraform.padok.cloud/allowed-tenants"

abbrev pub sync_branch_now : String
sync_branch_now = "webhook.terraform.padok.cloud/sync-"

-- `strings.ReplaceAll(branch, "/", "--")`
unfoldable pub replace_slashes : String → String
replace_slashes String.[] = ""
replace_slashes (String.◌∷◌ c s) =
    let rest = replace_slashes s in if eqb (code c) b'/' then "--" <> rest else String.◌∷◌ c rest

unfoldable pub compute_key_for_sync_branch_now : String → String
unfolding replace_slashes
compute_key_for_sync_branch_now branch = sync_branch_now <> replace_slashes branch

-- `obj.SetAnnotations`
abbrev pub set_annotations : Dict String → TerraformLayer → TerraformLayer
set_annotations a layer = record layer { metadata = record layer.metadata { annotations = a } }

-- A patch that succeeds leaves the object as the server returned it; one that fails leaves it as it
-- was sent.
abbrev pub received {ℓ} : {A : Type ℓ} → A → Result A → A
received sent (ok answer) = answer
received sent (err e) = sent

module _ (w : World) where
  open w use {State, patch_layer}

  -- `Add` on a layer: what the call returned, and the layer in memory.
  unfoldable pub add : TerraformLayer → Dict String → Effect State (Result TerraformLayer)
  add layer changes =
      patch_layer (set_annotations (insert_all changes layer.metadata.annotations) layer)

  -- `Remove` on a layer, whose error the callers only log: the layer in memory.
  unfoldable pub remove_annotation : TerraformLayer → String → Effect State TerraformLayer
  remove_annotation layer annotation s =
      let sent = set_annotations (remove annotation layer.metadata.annotations) layer in
      let (answer, s') = patch_layer sent s in (received sent answer, s')
