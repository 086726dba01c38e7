-- ===== src/Server/Views.antt =====
-- What the server shows: internal/server/api/layers.go and repositories.go. An answer is its HTTP status
-- with the results.
use burrito.Base.{
  ℕ, String, ◌<>◌, Bool, false, not, ◌&&◌, Option, none, some, List, [], ◌∷◌, ◌==◌, map, length,
  if◌then◌else◌,
}
use burrito.Base.Dict.{Dict, lookup, insert, lookup_or_empty}
use burrito.Base.Effect.{ok, err}
use burrito.Api.{Time, TerraformRun, TerraformLayer, TerraformLayerRun, TerraformRepository}
use burrito.Api.Config.{get_auto_apply_enabled}
use burrito.Annotations.{last_plan_sum, last_apply_sum}
use burrito.World.{World}
use burrito.Server.{
  ManualSyncStatus, no_sync, annotated, pending, get_manual_sync_status, get_manual_apply_status,
}

pub record RunView : Type 0 where
  pub name : String
  pub commit : String
  pub date : String
  pub action : String

pub record LayerView : Type 0 where
  pub uid : String
  pub name : String
  pub namespace : String
  pub repository : String
  pub branch : String
  pub path : String
  pub state : String
  pub run_count : ℕ
  pub last_run : RunView
  pub last_run_at : String
  pub last_result : String
  pub is_running : Bool
  pub is_pr : Bool
  pub latest_runs : List RunView
  pub manual_sync_status : ManualSyncStatus
  pub has_valid_plan : Bool
  pub auto_apply : Bool

abbrev pub view_key : (namespace name : String) → String
view_key namespace name = namespace <> ("/" <> name)

-- The loops of `getLayersAndRuns` and `getRepositories`: a later object of a key takes the place.
unfoldable pub index_runs : List TerraformRun → Dict TerraformRun → Dict TerraformRun
index_runs [] indexed = indexed
index_runs (run ∷ runs) indexed =
    index_runs runs (insert (view_key run.metadata.namespace run.metadata.name) run indexed)

unfoldable pub index_repositories :
    List TerraformRepository → Dict TerraformRepository → Dict TerraformRepository
index_repositories [] indexed = indexed
index_repositories (repo ∷ repos) indexed =
    index_repositories repos
      (insert (view_key repo.metadata.namespace repo.metadata.name) repo indexed)

unfoldable pub run_still_running : TerraformRun → Bool
run_still_running run = not (run.status.state == "Failed") && not (run.status.state == "Succeeded")

-- The `switch` of `getLayerState`.
unfoldable pub state_shown : TerraformLayer → String
state_shown layer = elim layer.status.conditions [
  | [] ↦ "disabled"
  | c ∷ conditions ↦
      if layer.status.state == "ApplyNeeded"
      then if layer.status.last_result == "Plan: 0 to create, 0 to update, 0 to delete"
        then "success"
        else "warning"
      else if layer.status.state == "PlanNeeded"
      then "warning"
      else "success"
]

-- The second test is written as in the source.
unfoldable pub get_layer_state : TerraformLayer → String
unfolding state_shown
get_layer_state layer =
    let planned = lookup_or_empty last_plan_sum layer.metadata.annotations in
    let applied = lookup_or_empty last_apply_sum layer.metadata.annotations in
    if not (applied == "") && (applied == "")
    then "error"
    else if planned == ""
    then "error"
    else state_shown layer

unfoldable pub is_layer_pr : TerraformLayer → Bool
is_layer_pr layer = elim layer.metadata.owner_references [
  | [] ↦ false
  | owner ∷ owners ↦ owner.kind == "TerraformPullRequest"
]

first_status : (apply sync : ManualSyncStatus) → ManualSyncStatus
first_status no_sync sync = sync
first_status annotated sync = annotated
first_status pending sync = pending

unfoldable pub get_manual_operation_status : TerraformLayer → ManualSyncStatus
unfolding first_status
get_manual_operation_status layer =
    first_status (get_manual_apply_status layer) (get_manual_sync_status layer)

unfoldable pub has_valid_plan : TerraformLayer → Bool
has_valid_plan layer = elim (lookup last_plan_sum layer.metadata.annotations) [
  | none ↦ false
  | some sum ↦ not (sum == "")
]

-- `_.Format(time.RFC3339)` is a parameter.
module _ (format : Time → String) where
  unfoldable pub transform_latest_runs : List TerraformLayerRun → List RunView
  transform_latest_runs runs =
      map
        (λ r. record { name = r.name; commit = r.commit; date = format r.date; action = r.action })
        runs

  -- The last run as it is shown, and whether it is running.
  unfoldable pub last_run_shown : Option TerraformRun → RunView × Bool
  unfolding run_still_running
  last_run_shown none = (record { name = ""; commit = ""; date = ""; action = "" }, false)
  last_run_shown (some run) = (
    record {
      name = run.metadata.name;
      commit = "";
      date = format run.metadata.creation_timestamp;
      action = run.spec.action;
    },
    run_still_running run,
  )

  unfoldable pub auto_apply_shown : Option TerraformRepository → TerraformLayer → Bool
  auto_apply_shown none layer = false
  auto_apply_shown (some repo) layer = get_auto_apply_enabled repo layer

  -- The body of the loop of `LayersHandler`.
  unfoldable pub layer_view :
      Dict TerraformRun → Dict TerraformRepository → TerraformLayer → LayerView
  unfolding get_layer_state is_layer_pr get_manual_operation_status has_valid_plan
      transform_latest_runs last_run_shown auto_apply_shown
  layer_view runs repositories l =
      let (run, running) =
        last_run_shown (lookup (view_key l.metadata.namespace l.status.last_run.name) runs) in
      let repo_key = view_key l.spec.repository.namespace l.spec.repository.name in
      record {
        uid = l.metadata.uid;
        name = l.metadata.name;
        namespace = l.metadata.namespace;
        repository = repo_key;
        branch = l.spec.branch;
        path = l.spec.path;
        state = get_layer_state l;
        run_count = length l.status.latest_runs;
        last_run = run;
        last_run_at = format l.status.last_run.date;
        last_result = l.status.last_result;
        is_running = running;
        is_pr = is_layer_pr l;
        latest_runs = transform_latest_runs l.status.latest_runs;
        manual_sync_status = get_manual_operation_status l;
        has_valid_plan = has_valid_plan l;
        auto_apply = auto_apply_shown (lookup repo_key repositories) l;
      }

  unfoldable pub layers_handler : (w : World) → w.State → ℕ × List LayerView
  unfolding index_runs index_repositories layer_view
  layers_handler w s = elim (w.list_layers s) [
    | err e ↦ (500, [])
    | ok layers ↦ elim (w.list_all_runs s) [
      | err e ↦ (500, [])
      | ok runs ↦ elim (w.list_repositories s) [
        | err e ↦ (500, [])
        | ok repositories ↦
            (200, map (layer_view (index_runs runs []) (index_repositories repositories [])) layers)
      ]
    ]
  ]

unfoldable pub repositories_handler : (w : World) → w.State → ℕ × List String
repositories_handler w s = elim (w.list_repositories s) [
  | err e ↦ (500, [])
  | ok repositories ↦ (
    200,
    map (λ (r : TerraformRepository). view_key r.metadata.namespace r.metadata.name) repositories,
  )
]
