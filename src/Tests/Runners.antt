-- ===== src/Tests/Runners.antt =====
-- The theorems on runners and on the URLs of repositories, at concrete inputs.
use burrito.Base.{String, ◌≡◌, refl, none}
use burrito.Base.Text.{itoa}
use burrito.Api.{TerraformRun}
use burrito.World.{World, PodPhase}
use burrito.Runner.{exec_plan, exec_apply}
use burrito.Runner.Sums.{applied_sum-planned_sum}
use burrito.Tests.Cluster.{cluster, machine, machine-KeepsPlans, Store}
use burrito.Tests.Samples.{a_run, new_layer, a_repository, empty_store}

abbrev calm : World
calm = cluster PodPhase.running

abbrev planning : TerraformRun
planning = a_run "plan" "Running" 1 "pod"

abbrev applying : TerraformRun
applying = record planning {
  spec = record planning.spec {
    action = "apply";
    artifact = record { run = "run"; attempt = "1" };
  };
}

abbrev sum : String
sum = "binary="

abbrev planned : Store
planned =
    (exec_plan calm (machine PodPhase.running) new_layer (a_repository none) planning empty_store).1

applied_sum-planned_sum_example : sum ≡ sum
unfolding exec_plan exec_apply itoa
applied_sum-planned_sum_example =
    applied_sum-planned_sum calm (machine PodPhase.running) new_layer (a_repository none)
      (machine-KeepsPlans PodPhase.running) planning applying empty_store planned sum sum refl refl
      refl refl refl
