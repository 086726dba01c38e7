-- ===== src/Layer/Cleanup.antt =====
-- What the clean-up of a layer's history leaves alone.
use burrito.Base.{
  ◌≡◌, refl, true, false, not, List, [], ◌∷◌, arith, ◌==◌, eq_iff, All, any, filter, Bool-cases,
  inl, inr,
}
use burrito.Base.Int.{ℤ}
use burrito.Base.Effect.{Result, ok, err}
use burrito.Api.{
  NamespacedName, TerraformLayer, TerraformLayerRun, TerraformRepository, TerraformRun,
}
use burrito.Api.Config.{get_keep_last_runs}
use burrito.World.{World}
use burrito.Layer.Runs.{get_all_runs, delete_all}
use burrito.Layer.History.{is_kept, delete_others, cleanup_listed, cleanup_runs}

-- What the clean-up relies on the API server for: a deletion leaves the runs of other names alone.
pub record KeepsRuns (w : World) : Type 0 where
  pub deleted_frame :
      (s : w.State) (run : TerraformRun) (k : NamespacedName)
      → (k.name == run.metadata.name) ≡ false
      → w.get_run (w.delete_run run s).1 k ≡ w.get_run s k

-- A name that the history holds is not the name of a run that is thrown away.
abbrev Spared : NamespacedName → TerraformRun → Type 0
Spared k run = (k.name == run.metadata.name) ≡ false

name-Spared :
    (latest : List TerraformLayerRun) (k : NamespacedName) (run : TerraformRun)
    → any (λ r. r.name == k.name) latest ≡ true
    → is_kept latest run ≡ false
    → Spared k run
name-Spared latest k run h out = elim (Bool-cases (k.name == run.metadata.name)) [
  | inr other ↦ other
  | inl same ↦ cc (rw ((eq_iff k.name run.metadata.name).0 same) at h, out)
]

thrown_away :
    (latest : List TerraformLayerRun) (k : NamespacedName) (runs : List TerraformRun)
    → any (λ r. r.name == k.name) latest ≡ true
    → All (Spared k) (filter (λ run. not (is_kept latest run)) runs)
thrown_away latest k [] h = tt
thrown_away latest k (run ∷ runs) h = elim (Bool-cases (is_kept latest run)) [
  | inl kept ↦ rw kept (thrown_away latest k runs h)
  | inr out ↦ rw out (name-Spared latest k run h out, thrown_away latest k runs h)
]

module _ (w : World) (laws : KeepsRuns w) (k : NamespacedName) where
  delete_all_frame :
      (runs : List TerraformRun) (s : w.State)
      → All (Spared k) runs
      → w.get_run (delete_all w runs s).1 k ≡ w.get_run s k
  unfolding delete_all
  delete_all_frame [] s h = refl
  delete_all_frame (run ∷ runs) s (p, h) =
      ground (arith, delete_all_frame runs (w.delete_run run s).1 h, laws.deleted_frame s run k p)

  delete_others_frame :
      (keep : ℤ) (layer : TerraformLayer) (runs : List TerraformRun) (s : w.State)
      → All (Spared k) runs
      → w.get_run (delete_others w keep layer runs s).1 k ≡ w.get_run s k
  unfolding delete_others
  delete_others_frame keep layer [] s h = refl
  delete_others_frame keep layer (run ∷ runs) s h = delete_all_frame (run ∷ runs) s h

  listed_frame :
      (keep : ℤ) (layer : TerraformLayer) (listed : Result (List TerraformRun)) (s : w.State)
      → any (λ r. r.name == k.name) layer.status.latest_runs ≡ true
      → w.get_run (cleanup_listed w keep layer listed s).1 k ≡ w.get_run s k
  unfolding cleanup_listed
  listed_frame keep layer (err e) s h = refl
  listed_frame keep layer (ok runs) s h =
      let thrown = filter (λ run. not (is_kept layer.status.latest_runs run)) runs in
      ground (
        arith,
        delete_others_frame keep layer thrown s (thrown_away layer.status.latest_runs k runs h),
      )

  -- Whatever runs are listed and whichever deletions fail, the clean-up leaves every run alone whose
  -- name is in the history of the layer.
  pub cleanup_spares_history :
      (layer : TerraformLayer) (repo : TerraformRepository) (s : w.State)
      → any (λ r. r.name == k.name) layer.status.latest_runs ≡ true
      → w.get_run (cleanup_runs w layer repo s).1 k ≡ w.get_run s k
  unfolding cleanup_runs
  cleanup_spares_history layer repo s h =
      listed_frame (get_keep_last_runs repo layer) layer (get_all_runs w s layer) s h
