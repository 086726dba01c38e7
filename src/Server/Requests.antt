-- ===== src/Server/Requests.antt =====
-- What becomes of an accepted request.
use burrito.Base.{String, ◌≡◌, refl, true, false, some, arith, eq_refl, Bool-cases, inl, inr, ◌⊎◌}
use burrito.Base.Dict.{lookup, insert, insert_all, lookup-insert}
use burrito.Base.Effect.{ok, Result-cases}
use burrito.Api.{NamespacedName, TerraformLayer, TerraformRepository}
use burrito.Annotations.{sync_now, apply_now, set_annotations, add}
use burrito.World.{World, Runtime, Config}
use burrito.Layer.Conditions.{is_sync_scheduled, is_apply_scheduled}
use burrito.Layer.Runs.{plan_action, apply_action}
use burrito.Layer.States.{plan_needed, apply_needed}
use burrito.Layer.Taken.{Waits, Taken, sync_is_handled, apply_is_handled}
use burrito.Server.{
  ManualSyncStatus, no_sync, pending, get_manual_sync_status, is_managed, annotate,
  sync_layer_handler, apply_layer_handler,
}

abbrev pub key_of_layer : TerraformLayer → NamespacedName
key_of_layer layer = record { namespace = layer.metadata.namespace; name = layer.metadata.name }

-- What the server relies on the API server for: a patch that succeeds is stored, and it sets the
-- annotations that were sent.
pub record KeepsPatches (w : World) : Type 0 where
  pub stored :
      (s : w.State) (sent answer : TerraformLayer)
      → (w.patch_layer sent s).0 ≡ ok answer
      → w.get_layer (w.patch_layer sent s).1 (key_of_layer sent) ≡ ok answer
  pub annotated :
      (s : w.State) (sent answer : TerraformLayer) (k v : String)
      → (w.patch_layer sent s).0 ≡ ok answer
      → lookup k sent.metadata.annotations ≡ some v
      → lookup k answer.metadata.annotations ≡ some v

ManualSyncStatus-cases :
    (status : ManualSyncStatus)
    → (status ≡ no_sync) ⊎ ((status ≡ ManualSyncStatus.annotated) ⊎ (status ≡ pending))
ManualSyncStatus-cases no_sync = inl refl
ManualSyncStatus-cases ManualSyncStatus.annotated = inr (inl refl)
ManualSyncStatus-cases pending = inr (inr refl)

module _ (w : World) (laws : KeepsPatches w) where
  -- The layer that a handler leaves behind.
  pub record Annotated (key : String) (layer : TerraformLayer) (s : w.State) : Type 0 where
    pub layer_after : TerraformLayer
    pub is_stored : w.get_layer s (key_of_layer layer) ≡ ok layer_after
    pub is_annotated : lookup key layer_after.metadata.annotations ≡ some "true"

  annotate-Annotated :
      (key : String) (layer : TerraformLayer) (s : w.State)
      → (annotate w key layer s).0 ≡ 200
      → Annotated key layer (annotate w key layer s).1
  unfolding annotate add insert_all
  annotate-Annotated key layer s h =
      let sent = set_annotations (insert key "true" layer.metadata.annotations) layer in
      elim (Result-cases (w.patch_layer sent s).0) [
        | inr (e, failed) ↦ absurd (omega (arith, rw failed at h))
        | inl (answer, e) ↦ record {
          layer_after = answer;
          is_stored = laws.stored s sent answer e;
          is_annotated =
              laws.annotated s sent answer key "true" e
                (rw lookup-insert (ground (arith, eq_refl key)));
        }
      ]

  sync_handler-annotate :
      (layer : TerraformLayer) (s : w.State)
      → w.get_layer s (key_of_layer layer) ≡ ok layer
      → (sync_layer_handler w (key_of_layer layer) s).0 ≡ 200
      → sync_layer_handler w (key_of_layer layer) s ≡ annotate w sync_now layer s
  unfolding sync_layer_handler
  sync_handler-annotate layer s found h =
      elim (ManualSyncStatus-cases (get_manual_sync_status layer)) [
        | inl free ↦ rw (found, free) refl
        | inr (inl e) ↦ absurd (omega (arith, rw (found, e) at h))
        | inr (inr e) ↦ absurd (omega (arith, rw (found, e) at h))
      ]

  apply_handler-annotate :
      (layer : TerraformLayer) (s : w.State)
      → w.get_layer s (key_of_layer layer) ≡ ok layer
      → (apply_layer_handler w (key_of_layer layer) s).0 ≡ 200
      → (is_managed layer ≡ false)
        × (apply_layer_handler w (key_of_layer layer) s ≡ annotate w apply_now layer s)
  unfolding apply_layer_handler
  apply_handler-annotate layer s found h = elim (Bool-cases (is_managed layer)) [
    | inl managed ↦ absurd (omega (arith, rw (found, managed) at h))
    | inr free ↦ (free, rw (found, free) refl)
  ]

sync_requested :
    (layer : TerraformLayer)
    → lookup sync_now layer.metadata.annotations ≡ some "true"
    → (is_sync_scheduled layer).1 ≡ true
unfolding is_sync_scheduled
sync_requested layer h = ground (arith, h)

apply_requested :
    (layer : TerraformLayer)
    → lookup apply_now layer.metadata.annotations ≡ some "true"
    → (is_apply_scheduled layer).1 ≡ true
unfolding is_apply_scheduled
apply_requested layer h = ground (arith, h)

module _ (cfg : Config) (rt : Runtime) (w : World) (laws : KeepsPatches w)
    (repo : TerraformRepository) where
  -- A sync that the server accepts is stored on the layer. In the state that the server leaves,
  -- `GetState` of the layer controller and the handler of its answer then leave the request and do
  -- nothing, if the last run has not ended or cannot be read; or `GetState` answers PlanNeeded and sends
  -- the layer without the request to the API server, and then a sync window blocks plans, or no
  -- relevant commit is known, and the handler creates nothing, or it sends a plan for that commit.
  pub accepted_sync_is_handled :
      (layer : TerraformLayer) (s : w.State)
      → w.get_layer s (key_of_layer layer) ≡ ok layer
      → (sync_layer_handler w (key_of_layer layer) s).0 ≡ 200
      → let s' = (sync_layer_handler w (key_of_layer layer) s).1 in
        (a : Annotated w laws sync_now layer s') × (Waits cfg rt w a.layer_after repo s'
          ⊎ Taken cfg rt w a.layer_after repo s' sync_now plan_needed plan_action)
  accepted_sync_is_handled layer s found h =
      let same = sync_handler-annotate w laws layer s found h in
      let a : Annotated w laws sync_now layer (sync_layer_handler w (key_of_layer layer) s).1 =
        rw same (annotate-Annotated w laws sync_now layer s (rw same at h)) in
      (
        a,
        sync_is_handled cfg rt w a.layer_after repo (sync_layer_handler w (key_of_layer layer) s).1
            (sync_requested a.layer_after a.is_annotated),
      )

  -- An apply that the server accepts is for a layer that the pull request controller did not make, and
  -- it is stored on the layer. In the state that the server leaves, `GetState` and the handler of its
  -- answer then leave the request and do nothing, if the last run has not ended or cannot be read; or
  -- they take a request for a sync first; or `GetState` answers ApplyNeeded, as asked by a user, and
  -- sends the layer without the request to the API server, and then a sync window blocks applies, or
  -- no relevant commit is known, or the handler panics, since the layer names no last plan, or it sends
  -- an apply of that plan for the last relevant commit.
  pub accepted_apply_is_handled :
      (layer : TerraformLayer) (s : w.State)
      → w.get_layer s (key_of_layer layer) ≡ ok layer
      → (apply_layer_handler w (key_of_layer layer) s).0 ≡ 200
      → let s' = (apply_layer_handler w (key_of_layer layer) s).1 in
        (is_managed layer ≡ false)
        × ((a : Annotated w laws apply_now layer s') × (Waits cfg rt w a.layer_after repo s'
              ⊎ (Taken cfg rt w a.layer_after repo s' sync_now plan_needed plan_action
                  ⊎ Taken cfg rt w a.layer_after repo s' apply_now
                      (apply_needed true)
                      apply_action)))
  accepted_apply_is_handled layer s found h =
      let (free, same) = apply_handler-annotate w laws layer s found h in
      let a : Annotated w laws apply_now layer (apply_layer_handler w (key_of_layer layer) s).1 =
        rw same (annotate-Annotated w laws apply_now layer s (rw same at h)) in
      (
        free,
        (
          a,
          apply_is_handled cfg rt w a.layer_after repo
              (apply_layer_handler w (key_of_layer layer) s).1
              (apply_requested a.layer_after a.is_annotated),
        ),
      )
