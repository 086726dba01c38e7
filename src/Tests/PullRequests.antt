-- ===== src/Tests/PullRequests.antt =====
-- The theorem on comments of pull requests, at a concrete input.
use burrito.Base.{◌≡◌, refl, none, [], ◌∷◌, All}
use burrito.Api.{TerraformLayer, TerraformPullRequest}
use burrito.Annotations.{last_plan_commit, last_relevant_commit}
use burrito.Base.Dict.{lookup}
use burrito.World.{World, PodPhase}
use burrito.PullRequest.States.{idle, get_state, comment_needed_handler}
use burrito.PullRequest.Comments.{IsPlanned, IsDiscovered, status_after, posted_comment-IsPlanned}
use burrito.Tests.Cluster.{cluster, no_times, Store}
use burrito.Tests.Samples.{cfg, a_layer, a_repository, a_store, a_pull_request}

abbrev calm : World
calm = cluster PodPhase.running

-- A layer of the pull request, planned at its commit.
abbrev linked : TerraformLayer
linked = a_layer "" ((last_plan_commit, "def") ∷ (last_relevant_commit, "def") ∷ [])

abbrev store : Store
store = a_store linked []

abbrev pr : TerraformPullRequest
pr = a_pull_request "def" "abc"

posted_comment-IsPlanned_example :
    IsDiscovered pr
    × (All IsPlanned (linked ∷ [])
        × ((get_state calm
              (record pr {
                status = status_after cfg no_times calm (a_repository none) pr store (linked ∷ []);
              })
              (comment_needed_handler calm cfg no_times
                (a_repository none)
                pr
                (get_state calm pr store).1
                store).1).0
            ≡ idle))
unfolding get_state lookup
posted_comment-IsPlanned_example =
    posted_comment-IsPlanned cfg no_times calm (a_repository none) pr store (linked ∷ []) refl refl
      refl refl
