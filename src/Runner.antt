-- ===== src/Runner.antt =====
-- internal/runner: what a runner pod does. The binaries of Terraform, OpenTofu and Terragrunt, git, the
-- file system and the datastore's client are the parameter `Machine`.
pub mod Sums
use burrito.Base.{
  ℕ, suc, ◌+◌, String, ◌<>◌, Bool, true, false, Option, none, some, List, [], ◌∷◌, ◌==◌,
  if◌then◌else◌, count,
}
use burrito.Base.Effect.{Result, ok, err, other, Effect}
use burrito.Base.Text.{itoa, trim_prefix}
use burrito.Base.Dict.{Dict}
use burrito.Api.{NamespacedName, TerraformLayer, TerraformRepository, TerraformRun}
use burrito.Api.Config.{get_apply_without_plan_artifact_enabled}
use burrito.Annotations.{
  last_plan_date, last_plan_run, last_plan_sum, last_plan_commit, last_apply_date, last_apply_sum,
  last_apply_commit, add,
}
use burrito.World.{World, Runtime}

-- The actions of one entry of `ResourceChanges`.
pub record Change : Type 0 where
  pub creates : Bool
  pub deletes : Bool
  pub updates : Bool
  pub replaces : Bool

pub record Machine (w : World) : Type 0 where
  -- the methods of `tools.BaseExec`
  pub init : (working_dir : String) → Effect w.State (Result (Unit {0}))
  pub plan : (artifact : String) → Effect w.State (Result (Unit {0}))
  pub show : (artifact mode : String) → Effect w.State (Result String)
  pub apply : (artifact : String) → Effect w.State (Result (Unit {0}))
  -- `os.ReadFile` and `os.WriteFile`
  pub read_file : (path : String) → w.State → Result String
  pub write_file : (path bytes : String) → Effect w.State (Result (Unit {0}))
  -- the client of the datastore; its `GetPlan` is that of `World`
  pub put_plan :
      NamespacedName → (run attempt format bytes : String) → Effect w.State (Result (Unit {0}))
  -- base64 of SHA-256
  pub digest : (bytes : String) → String
  -- `json.Unmarshal` to a plan: its resource changes
  pub resource_changes : (json : String) → Option (List Change)

-- `GetDiff`: the summary only.
unfoldable pub get_diff : List Change → String
get_diff changes =
    let create = count (λ c. c.creates) changes + count (λ c. c.replaces) changes in
    let delete = count (λ c. c.deletes) changes + count (λ c. c.replaces) changes in
    let update = count (λ c. c.updates) changes in
    "Plan: "
    <> (itoa create
        <> (" to create, " <> (itoa update <> (" to update, " <> (itoa delete <> " to delete")))))

abbrev pub plan_artifact : String
plan_artifact = "/tmp/plan.out"

module _ (w : World) (m : Machine w) (layer : TerraformLayer) (repository : TerraformRepository)
    (run : TerraformRun) where
  abbrev key : NamespacedName
  key = record { namespace = layer.metadata.namespace; name = layer.metadata.name }

  -- `Datastore.PutPlan` for the attempt that runs.
  unfoldable pub upload : (format bytes : String) → Effect w.State (Result (Unit {0}))
  upload format bytes = m.put_plan key run.metadata.name (itoa run.status.retries) format bytes

  -- The end of `execPlan`: the plan binary must be stored.
  unfoldable pub store_binary : Effect w.State (Result String)
  unfolding upload
  store_binary s = elim (m.read_file plan_artifact s) [
    | err e ↦ (err e, s)
    | ok binary ↦
        let (stored, s') = upload "bin" binary s in
        (elim stored [ err e ↦ err e | ok u ↦ ok (m.digest binary) ], s')
  ]

  -- The part of `execPlan` with both renderings of the plan; failures to store them are only logged.
  unfoldable pub store_renderings : (json pretty : String) → Effect w.State (Result String)
  unfolding upload get_diff store_binary
  store_renderings json pretty s =
      let (_, s1) = upload "pretty" pretty s in
      elim (m.resource_changes json) [
        | none ↦ (err other, s1)
        | some changes ↦
            let (_, s2) = upload "json" json s1 in
            let (_, s3) = upload "short" (get_diff changes) s2 in store_binary s3
      ]

  unfoldable pub exec_plan : Effect w.State (Result String)
  unfolding store_renderings
  exec_plan s =
      let (planned, s1) = m.plan plan_artifact s in
      elim planned [
        | err e ↦ (err e, s1)
        | ok u ↦
            let (json, s2) = m.show plan_artifact "json" s1 in
            elim json [
              | err e ↦ (err e, s2)
              | ok as_json ↦
                  let (pretty, s3) = m.show plan_artifact "pretty" s2 in
                  elim pretty [
                    | err e ↦ (err e, s3)
                    | ok as_text ↦ store_renderings as_json as_text s3
                  ]
            ]
      ]

  -- The end of `execApply`: the apply of a plan that was written to disk.
  unfoldable pub apply_plan : (plan : String) → Effect w.State (Result String)
  unfolding upload
  apply_plan plan s =
      let artifact =
        if get_apply_without_plan_artifact_enabled repository layer then "" else plan_artifact in
      let (applied, s1) = m.apply artifact s in
      elim applied [
        | err e ↦ (err e, s1)
        | ok u ↦ let (_, s2) = upload "short" "Apply Successful" s1 in (ok (m.digest plan), s2)
      ]

  unfoldable pub exec_apply : Effect w.State (Result String)
  unfolding apply_plan
  exec_apply s = elim (w.get_plan s key run.spec.artifact.run run.spec.artifact.attempt "bin") [
    | err e ↦ (err e, s)
    | ok plan ↦
        let (written, s1) = m.write_file plan_artifact plan s in
        elim written [ err e ↦ (err e, s1) | ok u ↦ apply_plan plan s1 ]
  ]

  module _ (rt : Runtime) where
    -- The end of `ExecAction`.
    unfoldable pub annotate : (changes : Dict String) → Effect w.State (Result (Unit {0}))
    annotate changes s =
        let (added, s') = add w layer changes s in
        (elim added [ err e ↦ err e | ok answer ↦ ok tt ], s')

    unfoldable pub plan_annotations : (sum : String) → w.State → Dict String
    plan_annotations sum s =
        (last_plan_date, rt.format_time (w.now s))
        ∷ (last_plan_run, run.metadata.name <> ("/" <> itoa run.status.retries))
        ∷ (last_plan_sum, sum)
        ∷ (last_plan_commit, run.spec.layer.revision)
        ∷ []

    unfoldable pub apply_annotations : (sum : String) → w.State → Dict String
    apply_annotations sum s =
        (last_apply_date, rt.format_time (w.now s))
        ∷ (last_apply_sum, sum)
        ∷ (last_apply_commit, run.spec.layer.revision)
        ∷ []

    -- `ExecAction`, by the action of the runner's configuration.
    unfoldable pub exec_action : (action : String) → Effect w.State (Result (Unit {0}))
    unfolding exec_plan exec_apply annotate plan_annotations apply_annotations
    exec_action action s =
        let (planned, s1) = exec_plan s in
        let (applied, s2) = exec_apply s in
        if action == "plan"
        then elim planned [ err e ↦ (err e, s1) | ok sum ↦ annotate (plan_annotations sum s1) s1 ]
        else if action == "apply"
        then elim applied [ err e ↦ (err e, s2) | ok sum ↦ annotate (apply_annotations sum s2) s2 ]
        else (err other, s)

    -- `ExecInit`, then `ExecAction`, as `Exec` calls them once the runner is set up.
    unfoldable pub exec_init_and_action :
        (working_dir action : String) → Effect w.State (Result (Unit {0}))
    unfolding exec_action
    exec_init_and_action working_dir action s =
        let (initialised, s') = m.init working_dir s in
        let done = exec_action action s' in elim initialised [ err e ↦ (err e, s') | ok u ↦ done ]

-- `GetResources`: the layer, the run and the repository.
unfoldable pub get_resources :
    (w : World)
    → w.State
    → (layer : NamespacedName) (run : String)
    → Result (TerraformLayer × TerraformRun × TerraformRepository)
get_resources w s layer run = elim (w.get_layer s layer) [
  | err e ↦ err e
  | ok found ↦ elim (w.get_run s (record { namespace = found.metadata.namespace; name = run })) [
    | err e ↦ err e
    | ok found_run ↦ elim (w.get_repository s found.spec.repository) [
      | err e ↦ err e
      | ok repository ↦ ok (found, found_run, repository)
    ]
  ]
]

-- The branch that `cloneGitBundle` checks out.
unfoldable pub checked_out_branch : TerraformLayer → String
checked_out_branch layer = trim_prefix (trim_prefix layer.spec.branch "refs/heads/") "refs/tags/"
