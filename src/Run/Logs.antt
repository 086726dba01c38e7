-- ===== src/Run/Logs.antt =====
-- `uploadLogs` of internal/controllers/terraformrun/controller.go.
use burrito.Base.{String, Bool, true, false, ◌||◌, List, [], ◌∷◌, if◌then◌else◌}
use burrito.Base.Text.{itoa}
use burrito.Base.Effect.{Result, ok, err, Effect}
use burrito.Api.{NamespacedName, Attempt, TerraformRun}
use burrito.World.{World, Pod, PodPhase}
use burrito.Run.Conditions.{is_succeeded, is_failed}

-- What the body of the loop does with an attempt: leave it, mark it, or return the error.
pub data Upload : Type 0 where
  skip mark stop : Upload

-- The logs are read only once the pod has ended.
abbrev has_ended : PodPhase → Bool
has_ended phase = is_succeeded phase || is_failed phase

module _ (w : World) (run : TerraformRun) where
  stored : Result (Unit {0}) → Upload
  stored (ok _) = mark
  stored (err e) = stop

  store : Attempt → Result String → Effect w.State Upload
  unfolding stored
  store attempt (err e) s = (skip, s)
  store attempt (ok logs) s =
      let layer : NamespacedName = record {
        namespace = run.metadata.namespace;
        name = run.spec.layer.name;
      } in
      let (r, s') = w.put_logs layer run.metadata.name (itoa attempt.number) logs s in
      (stored r, s')

  abbrev pod_key : Pod → NamespacedName
  pod_key pod = record { namespace = run.metadata.namespace; name = pod.metadata.name }

  upload_from : Attempt → Result Pod → Effect w.State Upload
  unfolding store
  upload_from attempt (err e) s = (skip, s)
  upload_from attempt (ok pod) s =
      if has_ended pod.phase then store attempt (w.pod_logs s (pod_key pod)) s else (skip, s)

  unfoldable pub upload_attempt : Attempt → Effect w.State Upload
  unfolding upload_from
  upload_attempt attempt s =
      if attempt.logs_uploaded
      then (skip, s)
      else upload_from attempt
          (w.get_pod s (record { namespace = run.metadata.namespace; name = attempt.pod_name })) s

  -- The attempts after the loop, and whether it ended with no error.
  unfoldable pub upload_logs : List Attempt → Effect w.State (List Attempt × Bool)
  upload_logs [] s = (([], true), s)
  upload_logs (a ∷ attempts) s =
      let (upload, s') = upload_attempt a s in
      let ((rest, fine), s'') = upload_logs attempts s' in
      elim upload [
        | skip ↦ ((a ∷ rest, fine), s'')
        | mark ↦ ((record a { logs_uploaded = true } ∷ rest, fine), s'')
        | stop ↦ ((a ∷ attempts, false), s')
      ]
