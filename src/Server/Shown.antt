-- ===== src/Server/Shown.antt =====
-- What the server shows of a layer, beside what the layer controller finds.
use burrito.Base.{String, ◌≡◌, ◌==◌, false, Option, none, some, Option-cases, inl, inr, arith}
use burrito.Base.Dict.{Dict, lookup}
use burrito.Base.Effect.{Result, ok, err, not_found}
use burrito.Api.{Time, TerraformLayer, TerraformRepository, TerraformRun}
use burrito.World.{World}
use burrito.Layer.Conditions.{last_run_key, is_running}
use burrito.Server.Views.{view_key, run_still_running, last_run_shown, layer_view}

abbrev pub found : Option TerraformRun → Result TerraformRun
found none = err not_found
found (some run) = ok run

-- A layer with a last run is shown as running exactly where the layer controller finds it running, if
-- the run that is listed is the one that is there.
pub shown_running :
    (format : Time → String) (w : World) (s : w.State) (runs : Dict TerraformRun)
    (repositories : Dict TerraformRepository) (l : TerraformLayer)
    → l.status.last_run.name == "" ≡ false
    → w.get_run s (last_run_key l)
      ≡ found (lookup (view_key l.metadata.namespace l.status.last_run.name) runs)
    → (layer_view format runs repositories l).is_running ≡ (is_running w s l).1
unfolding layer_view last_run_shown run_still_running is_running
shown_running format w s runs repositories l named there =
    elim (Option-cases (lookup (view_key l.metadata.namespace l.status.last_run.name) runs)) [
      | inl missing ↦ ground (arith, missing, named, there)
      | inr (run, listed) ↦ ground (arith, listed, named, there)
    ]
