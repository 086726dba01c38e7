-- ===== src/Layer/History.antt =====
-- The history of a layer's runs: `updateLatestRuns` and `cleanupRuns` of
-- internal/controllers/terraformlayer/controller.go.
use burrito.Base.{
  ℕ, zero, suc, ◌+◌, Bool, not, Option, none, some, List, [], ◌∷◌, ◌++◌, ◌==◌, if◌then◌else◌,
  length, any, filter,
}
use burrito.Base.Int.{ℤ, pos, ltb_ℤ}
use burrito.Base.Effect.{Result, ok, err, Effect}
use burrito.Api.{Time, TerraformLayer, TerraformLayerRun, TerraformRepository, TerraformRun}
use burrito.Api.Config.{get_keep_last_runs}
use burrito.World.{World}
use burrito.Layer.Runs.{get_all_runs, delete_all}

-- `getRun` of controller.go.
unfoldable pub get_layer_run : TerraformRun → TerraformLayerRun
get_layer_run run = record {
  name = run.metadata.name;
  commit = "";
  date = run.metadata.creation_timestamp;
  action = run.spec.action;
}

-- The loop over the runs: the index of the oldest run that is older than `oldest`, or `index`.
unfoldable pub oldest_index : Time → ℕ → ℕ → List TerraformLayerRun → ℕ
oldest_index oldest index i [] = index
oldest_index oldest index i (r ∷ runs) =
    let older = ltb_ℤ r.date oldest in
    oldest_index (if older then r.date else oldest) (if older then i else index) (i + 1) runs

-- `append(runs[:i], runs[i+1:]...)`, which panics past the end.
unfoldable pub remove_at : ℕ → List TerraformLayerRun → Option (List TerraformLayerRun)
remove_at i [] = none
remove_at zero (r ∷ runs) = some runs
remove_at (suc i) (r ∷ runs) = elim (remove_at i runs) [ none ↦ none | some rs ↦ some (r ∷ rs) ]

unfoldable pub update_latest_runs :
    Time → List TerraformLayerRun → TerraformRun → ℤ → Option (List TerraformLayerRun)
update_latest_runs now runs run keep =
    if ltb_ℤ (pos (length runs)) keep
    then some (runs ++ get_layer_run run ∷ [])
    else elim (remove_at (oldest_index now 0 0 runs) runs) [
      | none ↦ none
      | some rs ↦ some (rs ++ get_layer_run run ∷ [])
    ]

-- `runsToKeep[run.Name]`
abbrev pub is_kept : List TerraformLayerRun → TerraformRun → Bool
is_kept latest run = any (λ r. r.name == run.metadata.name) latest

module _ (w : World) (keep : ℤ) (layer : TerraformLayer) where
  unfoldable pub delete_others : List TerraformRun → Effect w.State (Result (Unit {0}))
  delete_others [] s = (ok tt, s)
  delete_others (run ∷ runs) s = delete_all w (run ∷ runs) s

  -- A failed list is an empty one where the history policy keeps any run at all.
  unfoldable pub cleanup_listed : Result (List TerraformRun) → Effect w.State (Result (Unit {0}))
  unfolding delete_others
  cleanup_listed (err e) s = (if ltb_ℤ (pos 0) keep then ok tt else err e, s)
  cleanup_listed (ok runs) s =
      if ltb_ℤ (pos (length runs)) keep
      then (ok tt, s)
      else delete_others (filter (λ run. not (is_kept layer.status.latest_runs run)) runs) s

unfoldable pub cleanup_runs :
    (w : World) → TerraformLayer → TerraformRepository → Effect w.State (Result (Unit {0}))
unfolding cleanup_listed
cleanup_runs w layer repository s =
    cleanup_listed w (get_keep_last_runs repository layer) layer (get_all_runs w s layer) s
