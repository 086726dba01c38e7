-- ===== src/Server.antt =====
-- The requests of users: internal/server/api/sync.go and internal/server/utils/manual_sync.go. An
-- answer is its HTTP status.
pub mod Requests
pub mod Views
pub mod Shown
pub mod Auth
pub mod Runs
use burrito.Base.{
  ℕ, String, Bool, true, false, not, ◌&&◌, ◌||◌, Option, none, some, List, [], ◌∷◌, ◌==◌,
  if◌then◌else◌, any,
}
use burrito.Base.Dict.{lookup, lookup_or_empty}
use burrito.Base.Effect.{Result, ok, err, Effect}
use burrito.Api.{NamespacedName, Condition, ConditionStatus, is_true, TerraformLayer}
use burrito.Annotations.{sync_now, apply_now, add}
use burrito.World.{World}

pub data ManualSyncStatus : Type 0 where
  no_sync annotated pending : ManualSyncStatus

abbrev is_status_true : ConditionStatus → Bool
is_status_true is_true = true
is_status_true _ = false

-- `GetManualSyncStatus` and `GetManualApplyStatus`, by their annotation and their condition.
unfoldable pub manual_status : String → String → TerraformLayer → ManualSyncStatus
manual_status key type layer =
    if lookup_or_empty key layer.metadata.annotations == "true"
    then annotated
    else if any (λ c. c.type == type && is_status_true c.status) layer.status.conditions
    then pending
    else no_sync

unfoldable pub get_manual_sync_status : TerraformLayer → ManualSyncStatus
unfolding manual_status
get_manual_sync_status layer = manual_status sync_now "IsSyncScheduled" layer

unfoldable pub get_manual_apply_status : TerraformLayer → ManualSyncStatus
unfolding manual_status
get_manual_apply_status layer = manual_status apply_now "IsApplyScheduled" layer

-- The layer was made by the pull request controller.
unfoldable pub is_managed : TerraformLayer → Bool
is_managed layer = not (lookup_or_empty "burrito/managed-by" layer.metadata.labels == "")

module _ (w : World) where
  added : Result TerraformLayer → ℕ
  added (ok layer) = 200
  added (err e) = 500

  -- Both handlers end with the annotation.
  unfoldable pub annotate : String → TerraformLayer → Effect w.State ℕ
  unfolding added
  annotate key layer s = let (answer, s') = add w layer ((key, "true") ∷ []) s in (added answer, s')

  unless_triggered : TerraformLayer → ManualSyncStatus → Effect w.State ℕ
  unless_triggered layer no_sync s = annotate sync_now layer s
  unless_triggered layer _ s = (409, s)

  sync_found : Result TerraformLayer → Effect w.State ℕ
  unfolding unless_triggered
  sync_found (err e) s = (500, s)
  sync_found (ok layer) s = unless_triggered layer (get_manual_sync_status layer) s

  unfoldable pub sync_layer_handler : NamespacedName → Effect w.State ℕ
  unfolding sync_found
  sync_layer_handler key s = sync_found (w.get_layer s key) s

  apply_found : Result TerraformLayer → Effect w.State ℕ
  apply_found (err e) s = (500, s)
  apply_found (ok layer) s = if is_managed layer then (409, s) else annotate apply_now layer s

  unfoldable pub apply_layer_handler : NamespacedName → Effect w.State ℕ
  unfolding apply_found
  apply_layer_handler key s = apply_found (w.get_layer s key) s
