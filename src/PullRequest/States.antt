-- ===== src/PullRequest/States.antt =====
-- internal/controllers/terraformpullrequest/states.go and `Reconcile` of controller.go.
use burrito.Base.{String, Bool, true, false, not, ◌&&◌, List, [], ◌∷◌, if◌then◌else◌}
use burrito.Base.Int.{pos}
use burrito.Base.Effect.{ok, err, ApiError, not_found, already_exists, other, Effect}
use burrito.Api.{
  Duration, NamespacedName, TerraformLayer, TerraformRepository, TerraformPullRequest,
  TerraformPullRequestStatus,
}
use burrito.World.{World, Runtime, Config}
use burrito.Run.Reconcile.{Outcome, outcome}
use burrito.PullRequest.Conditions.{
  get_linked_layers, is_last_commit_discovered, are_layers_still_planning, is_comment_up_to_date,
}
use burrito.PullRequest.Layers.{
  commit_of, generate_temp_layers, get_affected_layers, delete_temp_layers,
}

pub data State : Type 0 where
  discovery_needed planning comment_needed idle : State

unfoldable pub get_state_string : State → String
get_state_string discovery_needed = "DiscoveryNeeded"
get_state_string planning = "Planning"
get_state_string comment_needed = "CommentNeeded"
get_state_string idle = "Idle"

-- The `switch` of `GetState`.
unfoldable pub choose_state : (discovered planned_yet up_to_date : Bool) → State
choose_state discovered planned_yet up_to_date =
    if not discovered
    then discovery_needed
    else if discovered && up_to_date
    then idle
    else if discovered && planned_yet
    then planning
    else if discovered && (not planned_yet && not up_to_date)
    then comment_needed
    else idle

module _ (w : World) where
  unfoldable pub get_state : TerraformPullRequest → w.State → State × TerraformPullRequestStatus
  unfolding get_state_string choose_state is_last_commit_discovered are_layers_still_planning
      is_comment_up_to_date
  get_state pr s =
      let (c1, discovered) = is_last_commit_discovered pr in
      let (c2, still_planning) = are_layers_still_planning w s pr in
      let (c3, up_to_date) = is_comment_up_to_date pr in
      let state = choose_state discovered still_planning up_to_date in
      (
        state,
        record {
          conditions = c1 ∷ c2 ∷ c3 ∷ [];
          state = get_state_string state;
          last_discovered_commit = pr.status.last_discovered_commit;
          last_commented_commit = pr.status.last_commented_commit;
        },
      )

  -- Whether all the layers were created; the first failure ends the loop.
  unfoldable pub create_layers : List TerraformLayer → Effect w.State Bool
  create_layers [] s = (true, s)
  create_layers (layer ∷ layers) s =
      let (created, s') = w.create_layer layer s in
      let rest = create_layers layers s' in elim created [ err e ↦ (false, s') | ok stored ↦ rest ]

  module _ (cfg : Config) (rt : Runtime) (repo : TerraformRepository)
      (pr : TerraformPullRequest) where
    unfoldable pub discovery_needed_handler :
        TerraformPullRequestStatus → Effect w.State (Duration × TerraformPullRequestStatus)
    unfolding get_affected_layers delete_temp_layers generate_temp_layers create_layers
    discovery_needed_handler status s =
        let (_, s1) = delete_temp_layers rt w pr s in
        elim (get_affected_layers rt w repo pr s1) [
          | err e ↦ ((cfg.timers.on_error, status), s1)
          | ok layers ↦
              let (created, s2) = create_layers (generate_temp_layers pr layers) s1 in
              if created
              then (
                (cfg.timers.wait_action, record status { last_discovered_commit = commit_of pr }),
                s2,
              )
              else ((cfg.timers.on_error, status), s2)
        ]

    unfoldable pub comment_needed_handler :
        TerraformPullRequestStatus → Effect w.State (Duration × TerraformPullRequestStatus)
    unfolding get_linked_layers
    comment_needed_handler status s = elim (get_linked_layers w s pr) [
      | err e ↦ ((cfg.timers.on_error, status), s)
      | ok layers ↦ elim (w.get_api_provider s repo) [
        | err e ↦ ((cfg.timers.wait_action, status), s)
        | ok u ↦
            let (sent, s') = w.comment repo pr layers s in
            elim sent [
              | err e ↦ ((cfg.timers.on_error, status), s')
              | ok u' ↦ (
                (cfg.timers.wait_action, record status { last_commented_commit = commit_of pr }),
                s',
              )
            ]
      ]
    ]

    unfoldable pub handle :
        State → TerraformPullRequestStatus → Effect w.State (Duration × TerraformPullRequestStatus)
    unfolding discovery_needed_handler comment_needed_handler
    handle discovery_needed status s = discovery_needed_handler status s
    handle comment_needed status s = comment_needed_handler status s
    handle planning status s = ((cfg.timers.wait_action, status), s)
    handle idle status s = ((cfg.timers.wait_action, status), s)

    -- The state, its handler and the update of the status, whose error is only logged.
    unfoldable pub reconcile_found : Effect w.State Outcome
    unfolding get_state handle
    reconcile_found s =
        let (state, status) = get_state pr s in
        let ((after, updated), s1) = handle state status s in
        let (_, s2) = w.update_pull_request_status (record pr { status = updated }) s1 in
        (outcome after false, s2)

  abbrev ended : ApiError → Outcome
  ended not_found = outcome (pos 0) false
  ended already_exists = outcome (pos 0) true
  ended other = outcome (pos 0) true

  unfoldable pub reconcile : Config → Runtime → NamespacedName → Effect w.State Outcome
  unfolding reconcile_found
  reconcile cfg rt key s = elim (w.get_pull_request s key) [
    | err e ↦ (ended e, s)
    | ok pr ↦ elim (w.get_repository s pr.spec.repository) [
      | err e ↦ (ended e, s)
      | ok repo ↦ reconcile_found cfg rt repo pr s
    ]
  ]
