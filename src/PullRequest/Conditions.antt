-- ===== src/PullRequest/Conditions.antt =====
-- internal/controllers/terraformpullrequest/conditions.go. Each condition is the reported one with the
-- Boolean that goes with it.
use burrito.Base.{String, Bool, true, false, Option, none, some, List, [], ◌∷◌, ◌==◌, if◌then◌else◌}
use burrito.Base.Dict.{lookup}
use burrito.Base.Effect.{Result, ok, err}
use burrito.Api.{
  Condition, ConditionStatus, is_true, is_false, unknown, TerraformLayer, TerraformPullRequest,
}
use burrito.Annotations.{last_branch_commit, last_relevant_commit, last_plan_commit}
use burrito.World.{World}
use burrito.Run.Conditions.{report}

-- `GetLinkedLayers`
unfoldable pub get_linked_layers :
    (w : World) → w.State → TerraformPullRequest → Result (List TerraformLayer)
get_linked_layers w s pr = w.list_labelled_layers s "burrito/managed-by" pr.metadata.name

module _ (pr : TerraformPullRequest) where
  abbrev says : (type : String) → ConditionStatus → (reason : String) → Bool → Condition × Bool
  says type status reason value = (report pr.metadata type status reason, value)

  abbrev pub branch_commit : Option String
  branch_commit = lookup last_branch_commit pr.metadata.annotations

  unfoldable pub is_last_commit_discovered : Condition × Bool
  is_last_commit_discovered =
      let discovered = says "IsLastCommitDiscovered" in
      if pr.status.last_discovered_commit == ""
      then discovered is_false "NoCommitDiscovered" false
      else elim branch_commit [
        | none ↦ discovered is_false "UnknownLastBranchCommit" false
        | some commit ↦
            if pr.status.last_discovered_commit == commit
            then discovered is_true "LastCommitDiscovered" true
            else discovered is_false "LastCommitNotDiscovered" false
      ]

  abbrev planning : ConditionStatus → (reason : String) → Bool → Condition × Bool
  planning = says "AreLayersStillPlanning"

  -- The loop over the linked layers.
  unfoldable pub first_planning : List TerraformLayer → Condition × Bool
  first_planning [] = planning is_false "LayersNotPlanning" false
  first_planning (layer ∷ layers) =
      let rest = first_planning layers in
      elim (lookup last_plan_commit layer.metadata.annotations) [
        | none ↦ planning is_true "LayersStillPlanning" true
        | some plan ↦ elim (lookup last_relevant_commit layer.metadata.annotations) [
          | none ↦ planning unknown "NoRelevantCommitOnLayer" true
          | some relevant ↦
              if plan == relevant then rest else planning is_true "LayersStillPlanning" true
        ]
      ]

  unfoldable pub planning_among : Result (List TerraformLayer) → Condition × Bool
  unfolding first_planning
  planning_among layers = elim branch_commit [
    | none ↦ planning unknown "NoBranchCommitOnPR" true
    | some commit ↦
        if pr.status.last_discovered_commit == ""
        then planning is_true "NoCommitDiscovered" true
        else if pr.status.last_discovered_commit == commit
        then elim layers [
          | err e ↦ planning is_true "ErrorListingLayers" true
          | ok linked ↦ first_planning linked
        ]
        else planning is_true "StillNeedsDiscovery" true
  ]

  unfoldable pub is_comment_up_to_date : Condition × Bool
  is_comment_up_to_date =
      let up_to_date = says "IsCommentUpToDate" in
      if pr.status.last_discovered_commit == ""
      then up_to_date unknown "UnDiscovered" true
      else if pr.status.last_commented_commit == ""
      then up_to_date is_false "NoCommentSent" false
      else if pr.status.last_commented_commit == pr.status.last_discovered_commit
      then up_to_date is_true "CommentUpToDate" true
      else up_to_date is_false "CommentOutdated" false

unfoldable pub are_layers_still_planning :
    (w : World) → w.State → TerraformPullRequest → Condition × Bool
unfolding planning_among get_linked_layers
are_layers_still_planning w s pr = planning_among pr (get_linked_layers w s pr)
