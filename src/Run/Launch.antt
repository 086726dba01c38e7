-- ===== src/Run/Launch.antt =====
-- What a handler of the run controller can answer, as far as attempts and retries go.
use burrito.Base.{ℕ, ◌+◌, ◌≡◌, refl, ◌⊎◌, true, arith}
use burrito.Api.{TerraformLayer, TerraformRepository, TerraformRun}
use burrito.World.{World, Runtime, Config}
use burrito.Lock.{create_lock}
use burrito.Run.States.{
  State, initial, succeeded, failure_grace_period, failed, retrying, running, RunInfo, no_info,
  get_run_info, launch, handle,
}

-- The answer is the given one, or tells of a new pod for the given attempt.
abbrev pub Launches : RunInfo → ℕ → RunInfo → Type 0
Launches fallback retries info =
    (info ≡ fallback) ⊎ ((info.new_pod ≡ true) × (info.retries ≡ retries))

-- What the states may answer.
abbrev pub Answers : State → TerraformRun → RunInfo → Type 0
Answers initial run info = Launches no_info 0 info
Answers retrying run info = Launches (get_run_info run) (run.status.retries + 1) info
Answers _ run info = info ≡ get_run_info run

module _ (cfg : Config) (rt : Runtime) (w : World) where
  launch-Launches :
      (fallback : RunInfo) (retries : ℕ) (run : TerraformRun) (layer : TerraformLayer)
      (repo : TerraformRepository) (s : w.State)
      → Launches fallback retries (launch cfg rt w fallback retries run layer repo s).0.1
  unfolding launch
  launch-Launches fallback retries run layer repo s = ground arith

  pub handle-Answers :
      (state : State) (run : TerraformRun) (layer : TerraformLayer) (repo : TerraformRepository)
      (s : w.State)
      → Answers state run (handle cfg rt w state run layer repo s).0.1
  unfolding handle
  handle-Answers initial run layer repo s =
      ground (arith, launch-Launches no_info 0 run layer repo (create_lock w layer run s).1)
  handle-Answers retrying run layer repo s =
      launch-Launches (get_run_info run) (run.status.retries + 1) run layer repo s
  handle-Answers succeeded run layer repo s = ground arith
  handle-Answers failed run layer repo s = ground arith
  handle-Answers failure_grace_period run layer repo s = refl
  handle-Answers running run layer repo s = refl
