-- ===== src/Layer/Files.antt =====
-- `LayerFilesHaveChanged` of internal/controllers/terraformlayer/conditions.go.
use burrito.Base.{
  String, ◌<>◌, Bool, true, false, ◌||◌, none, some, List, [], ◌∷◌, ◌==◌, any, if◌then◌else◌,
}
use burrito.Base.Dict.{lookup}
use burrito.Base.Text.{split, has_prefix, contains_text, trim_space}
use burrito.Api.{TerraformLayer}
use burrito.Annotations.{additionnal_trigger_paths}
use burrito.World.{Runtime}

-- `ensureAbsPath`, where `filepath.IsAbs` is a leading slash.
unfoldable pub ensure_abs_path : (input : String) → String
ensure_abs_path input = if has_prefix input "/" then input else "/" <> input

-- `filepath.Join` of two elements: an empty one is left out.
unfoldable pub join_path : Runtime → (base path : String) → String
join_path rt base path =
    if base == "" then rt.clean_path path else rt.clean_path (base <> ("/" <> path))

module _ (rt : Runtime) (layer : TerraformLayer) where
  -- The absolute path of an entry of the trigger paths.
  unfoldable pub trigger_path : (entry : String) → String
  unfolding ensure_abs_path join_path
  trigger_path entry =
      let p = trim_space entry in
      if has_prefix p "./" || has_prefix p "../"
      then ensure_abs_path (rt.clean_path (join_path rt layer.spec.path p))
      else ensure_abs_path (rt.clean_path p)

  -- Whether a changed file is one of the layer.
  unfoldable pub is_layer_file : (file : String) → Bool
  unfolding trigger_path
  is_layer_file file =
      let f = ensure_abs_path file in
      contains_text f layer.spec.path
      || elim (lookup additionnal_trigger_paths layer.metadata.annotations) [
        | none ↦ false
        | some val ↦
            let (first, others) = split 44 val in
            any (λ entry. contains_text f (trigger_path entry)) (first ∷ others)
      ]

  unfoldable pub layer_files_have_changed : (changed_files : List String) → Bool
  unfolding is_layer_file
  layer_files_have_changed [] = true
  layer_files_have_changed (file ∷ files) = any is_layer_file (file ∷ files)
