-- ===== src/Api/Engine.antt =====
-- Which of Terraform and OpenTofu a layer runs (api/v1alpha1/common.go).
use burrito.Base.{◌≡◌, ◌⊎◌, false, ◌&&◌, arith}
use burrito.Api.{ToolConfig, TerraformLayer, TerraformRepository}
use burrito.Api.Config.{is_enabled, get_terraform_enabled, get_opentofu_enabled}

-- The first validation rule of the CRDs: not both are enabled in one resource.
abbrev pub NotBoth : ToolConfig → ToolConfig → Type 0
NotBoth terraform opentofu =
    (is_enabled terraform.enabled ≡ false) ⊎ (is_enabled opentofu.enabled ≡ false)

-- Whatever the layer says, with or without validation of the layer: if the repository passes the
-- rule that not both engines are enabled, then never are both engines enabled for the layer.
pub engines_exclusive :
    (repository : TerraformRepository) (layer : TerraformLayer)
    → NotBoth repository.spec.terraform repository.spec.opentofu
    → get_terraform_enabled repository layer && get_opentofu_enabled repository layer ≡ false
unfolding get_terraform_enabled get_opentofu_enabled
engines_exclusive repository layer valid = ground arith
