-- ===== src/Layer/Conditions.antt =====
-- internal/controllers/terraformlayer/conditions.go, but for `LayerFilesHaveChanged`. Each condition
-- is the reported one with the Boolean that goes with it.
use burrito.Base.{
  String, Bool, true, false, not, ◌&&◌, ◌||◌, Option, none, some, ◌==◌, if◌then◌else◌,
}
use burrito.Base.Int.{pos, ◌+ℤ◌, ltb_ℤ}
use burrito.Base.Dict.{lookup, lookup_or_empty}
use burrito.Base.Effect.{Result, ok, err, ApiError}
use burrito.Api.{
  Time, NamespacedName, Condition, is_true, is_false, TerraformLayer, TerraformRepository,
  TerraformRun,
}
use burrito.Annotations.{
  last_apply_sum, last_apply_date, last_plan_commit, last_plan_date, last_plan_sum,
  last_branch_commit, last_branch_commit_date, last_relevant_commit, sync_now, apply_now,
}
use burrito.World.{World, Runtime, Config}
use burrito.Run.Conditions.{report, get_max_retries}

-- A condition that holds, and one that does not.
abbrev pub holds : TerraformLayer → String → String → Condition × Bool
holds t type reason = (report t.metadata type is_true reason, true)

abbrev pub fails : TerraformLayer → String → String → Condition × Bool
fails t type reason = (report t.metadata type is_false reason, false)

abbrev annotation : TerraformLayer → String → Option String
annotation t key = lookup key t.metadata.annotations

abbrev pub last_run_key : TerraformLayer → NamespacedName
last_run_key t = record { namespace = t.metadata.namespace; name = t.status.last_run.name }

has_ended : String → Bool
has_ended state = state == "Succeeded" || state == "Failed"

running_of : TerraformLayer → Result TerraformRun → Condition × Bool
unfolding has_ended
running_of t (err ApiError.not_found) = fails t "IsRunning" "RunNotFound"
running_of t (err _) = holds t "IsRunning" "RunRetrievalError"
running_of t (ok run) =
    if has_ended run.status.state
    then fails t "IsRunning" "RunFinished"
    else holds t "IsRunning" "RunStillRunning"

unfoldable pub is_running : (w : World) → w.State → TerraformLayer → Condition × Bool
unfolding running_of
is_running w s t =
    if t.status.last_run.name == ""
    then fails t "IsRunning" "NoRunHasRunYet"
    else running_of t (w.get_run s (last_run_key t))

module _ (rt : Runtime) (cfg : Config) (now : Time) (t : TerraformLayer) where
  too_old : Option Time → Condition × Bool
  too_old none = fails t "IsLastPlanTooOld" "ParseError"
  too_old (some last_plan_date) =
      if ltb_ℤ now (last_plan_date +ℤ cfg.timers.drift_detection)
      then fails t "IsLastPlanTooOld" "PlanIsRecent"
      else holds t "IsLastPlanTooOld" "PlanIsTooOld"

  too_old_at : Option String → Condition × Bool
  unfolding too_old
  too_old_at none = holds t "IsLastPlanTooOld" "NoPlanHasRunYet"
  too_old_at (some value) = too_old (rt.parse_time value)

  unfoldable pub is_last_plan_too_old : Condition × Bool
  unfolding too_old_at
  is_last_plan_too_old = too_old_at (annotation t last_plan_date)

unfoldable pub has_last_plan_failed : TerraformLayer → Condition × Bool
has_last_plan_failed t = elim (annotation t last_plan_sum) [
  | none ↦ holds t "HasLastPlanFailed" "NoPlanHasRunYet"
  | some value ↦
      if value == ""
      then holds t "HasLastPlanFailed" "NoPlanSum"
      else fails t "HasLastPlanFailed" "LastPlanHasSucceeded"
]

module _ (rt : Runtime) (t : TerraformLayer) where
  abbrev planned : String → Condition × Bool
  planned reason = holds t "IsLastRelevantCommitPlanned" reason

  -- The dates are parsed in turn; a missing plan date reads as the empty string.
  newer_plan : Option Time → Option Time → Condition × Bool
  newer_plan none branch = planned "ParseError"
  newer_plan (some plan) none = planned "ParseError"
  newer_plan (some plan) (some branch) =
      if ltb_ℤ branch plan
      then planned "LastPlanIsMoreRecentThanLastBranchCommit"
      else fails t "IsLastRelevantCommitPlanned" "LastRelevantCommitNotPlanned"

  by_date : Option String → Condition × Bool
  unfolding newer_plan
  by_date none = fails t "IsLastRelevantCommitPlanned" "NoDatePresent"
  by_date (some branch_date) =
      newer_plan (rt.parse_time (lookup_or_empty last_plan_date t.metadata.annotations))
        (rt.parse_time branch_date)

  by_commits : Option String → Option String → Option String → Condition × Bool
  unfolding by_date
  by_commits none branch relevant = planned "NoPlanHasRunYet"
  by_commits (some plan) none relevant = planned "NoCommitReceived"
  by_commits (some plan) (some branch) none = planned "NoRelevantCommitReceived"
  by_commits (some plan) (some branch) (some relevant) =
      if plan == branch || plan == relevant
      then planned "LastRelevantCommitPlanned"
      else by_date (annotation t last_branch_commit_date)

  unfoldable pub is_last_relevant_commit_planned : Condition × Bool
  unfolding by_commits
  is_last_relevant_commit_planned =
      by_commits (annotation t last_plan_commit) (annotation t last_branch_commit)
        (annotation t last_relevant_commit)

  abbrev up_to_date : String → Condition × Bool
  up_to_date reason = holds t "IsApplyUpToDate" reason

  -- After an apply that failed: a plan that is newer than it is applied.
  failed_apply : Option Time → Option Time → Condition × Bool
  failed_apply none plan = up_to_date "ParseError"
  failed_apply (some apply) none = up_to_date "ParseError"
  failed_apply (some apply) (some plan) =
      if ltb_ℤ apply plan
      then fails t "IsApplyUpToDate" "NewPlanAvailable"
      else up_to_date "ApplyUpToDate"

  applied : String → Option String → Condition × Bool
  unfolding failed_apply lookup_or_empty
  applied plan_hash none = fails t "IsApplyUpToDate" "NoApplyHasRun"
  applied plan_hash (some apply_hash) =
      if apply_hash == ""
      then failed_apply (rt.parse_time (lookup_or_empty last_apply_date t.metadata.annotations))
          (rt.parse_time (lookup_or_empty last_plan_date t.metadata.annotations))
      else if apply_hash == plan_hash
      then up_to_date "ApplyUpToDate"
      else fails t "IsApplyUpToDate" "NewPlanAvailable"

  unfoldable pub is_apply_up_to_date : Condition × Bool
  unfolding applied
  is_apply_up_to_date = elim (annotation t last_plan_sum) [
    | none ↦ up_to_date "NoPlanHasRunYet"
    | some plan_hash ↦
        if plan_hash == ""
        then up_to_date "NoPlanHasRunYet"
        else applied plan_hash (annotation t last_apply_sum)
  ]

unfoldable pub is_sync_scheduled : TerraformLayer → Condition × Bool
is_sync_scheduled t = elim (annotation t sync_now) [
  | some _ ↦ holds t "IsSyncScheduled" "SyncScheduled"
  | none ↦ fails t "IsSyncScheduled" "NoSyncScheduled"
]

unfoldable pub is_apply_scheduled : TerraformLayer → Condition × Bool
is_apply_scheduled t = elim (annotation t apply_now) [
  | some _ ↦ holds t "IsApplyScheduled" "ApplyScheduled"
  | none ↦ fails t "IsApplyScheduled" "NoApplyScheduled"
]

-- `lastRunRetryInfo`
pub record RetryInfo : Type 0 where
  pub reached_limit : Bool
  pub action : String

abbrev retry_info : Bool → String → RetryInfo
retry_info reached action = record { reached_limit = reached; action = action }

module _ (cfg : Config) (layer : TerraformLayer) (repo : TerraformRepository) where
  abbrev unreached : String → String → Condition × RetryInfo
  unreached reason action =
      (report layer.metadata "HasLastRunReachedRetryLimit" is_false reason, retry_info false action)

  unfoldable pub limit_of_run : Result TerraformRun → Condition × RetryInfo
  limit_of_run (err e) = unreached "RunRetrievalError" ""
  limit_of_run (ok run) =
      let max_retries = get_max_retries cfg.terraform_max_retries repo layer in
      let current = lookup_or_empty last_relevant_commit layer.metadata.annotations in
      if not (run.status.state == "Failed")
      then unreached "LastRunNotFailed" run.spec.action
      else if ltb_ℤ (pos run.status.retries) max_retries
      then unreached "RetryLimitNotReached" run.spec.action
      else if not (current == "") && not (run.spec.layer.revision == current)
      then unreached "NewRevisionAvailable" run.spec.action
      else (
        report layer.metadata "HasLastRunReachedRetryLimit" is_true "HasReachedRetryLimit",
        retry_info true run.spec.action,
      )

  unfoldable pub has_last_run_reached_retry_limit : (w : World) → w.State → Condition × RetryInfo
  unfolding limit_of_run
  has_last_run_reached_retry_limit w s =
      if layer.status.last_run.name == ""
      then unreached "NoRunYet" ""
      else limit_of_run (w.get_run s (last_run_key layer))
