-- ===== src/Tests/Requests.antt =====
-- The theorems on requests, at concrete inputs.
use burrito.Base.{◌≡◌, ◌⊎◌, refl, true, false, none}
use burrito.Base.Dict.{lookup, lookup_or_empty}
use burrito.Annotations.{sync_now, apply_now, add}
use burrito.World.{World, PodPhase}
use burrito.Layer.Runs.{plan_action, apply_action}
use burrito.Layer.States.{plan_needed, apply_needed}
use burrito.Layer.Taken.{Waits, Taken}
use burrito.Server.{
  sync_layer_handler, apply_layer_handler, get_manual_sync_status, is_managed, annotate,
}
use burrito.Server.Requests.{
  Annotated, key_of_layer, accepted_sync_is_handled, accepted_apply_is_handled,
}
use burrito.Tests.Cluster.{cluster, no_times, cluster-KeepsPatches}
use burrito.Tests.Samples.{cfg, new_layer, a_repository, empty_store}

abbrev calm : World
calm = cluster PodPhase.running

accepted_sync_is_handled_example :
    let s' = (sync_layer_handler calm (key_of_layer new_layer) empty_store).1 in
    (a : Annotated calm (cluster-KeepsPatches PodPhase.running) sync_now new_layer s') × (Waits cfg
        no_times calm a.layer_after
        (a_repository none)
        s'
      ⊎ Taken cfg no_times calm a.layer_after
          (a_repository none)
          s'
          sync_now
          plan_needed
          plan_action)
unfolding sync_layer_handler get_manual_sync_status annotate lookup_or_empty lookup add
accepted_sync_is_handled_example =
    accepted_sync_is_handled cfg no_times calm (cluster-KeepsPatches PodPhase.running)
      (a_repository none) new_layer empty_store refl refl

accepted_apply_is_handled_example :
    let s' = (apply_layer_handler calm (key_of_layer new_layer) empty_store).1 in
    (is_managed new_layer ≡ false)
    × ((a : Annotated calm (cluster-KeepsPatches PodPhase.running) apply_now new_layer s') × (Waits
            cfg no_times calm a.layer_after
            (a_repository none)
            s'
          ⊎ (Taken cfg no_times calm a.layer_after
                (a_repository none)
                s'
                sync_now
                plan_needed
                plan_action
              ⊎ Taken cfg no_times calm a.layer_after
                  (a_repository none)
                  s'
                  apply_now
                  (apply_needed true)
                  apply_action)))
unfolding apply_layer_handler is_managed annotate lookup_or_empty lookup add
accepted_apply_is_handled_example =
    accepted_apply_is_handled cfg no_times calm (cluster-KeepsPatches PodPhase.running)
      (a_repository none) new_layer empty_store refl refl
