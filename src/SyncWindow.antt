-- ===== src/SyncWindow.antt =====
-- internal/utils/syncwindow/syncwindow.go: when plans and applies are blocked.
pub mod Rules
pub mod Activity
use burrito.Base.{
  String, Bool, true, false, ◌&&◌, ◌||◌, Option, none, some, List, [], ◌∷◌, ◌==◌, if◌then◌else◌,
  any, contains,
}
use burrito.Base.Int.{◌+ℤ◌, ◌-ℤ◌, ltb_ℤ, pos}
use burrito.Api.{Time, Duration, SyncWindow, SyncWindowKind, allow, deny, other_kind}
use burrito.World.{Runtime}

pub data SyncBlockReason : Type 0 where
  inside_deny_window outside_allow_window : SyncBlockReason

abbrev pub is_allow : SyncWindowKind → Bool
is_allow allow = true
is_allow _ = false

abbrev pub is_deny : SyncWindowKind → Bool
is_deny deny = true
is_deny _ = false

module _ (rt : Runtime) where
  active_in : Option (Time → Time) → Option Duration → Time → Bool
  active_in none dur now = false
  active_in (some next) none now = false
  active_in (some next) (some dur) now =
      let start = next (now +ℤ (pos 0 -ℤ dur)) in ltb_ℤ start now && ltb_ℤ now (start +ℤ dur)

  unfoldable pub is_window_active : SyncWindow → Time → Bool
  unfolding active_in
  is_window_active window now =
      active_in (rt.cron_next window.schedule) (rt.parse_duration window.duration) now

  abbrev matches : String → String → Bool
  matches layer_name pattern =
      pattern == "*" || elim (rt.glob_match pattern layer_name) [ none ↦ false | some m ↦ m ]

  unfoldable pub is_layer_in_sync_window : SyncWindow → String → Bool
  is_layer_in_sync_window window layer_name = any (matches layer_name) window.layers

  -- The two `continue`s of the loop.
  unfoldable pub applies : String → String → SyncWindow → Bool
  unfolding is_layer_in_sync_window
  applies action layer_name window =
      contains window.actions action && is_layer_in_sync_window window layer_name

  -- The loop, with `hasAllow` and `allowWindowActive`.
  check : List SyncWindow → Time → String → String → Bool → Bool → Option SyncBlockReason
  check [] now action layer_name has_allow allow_active =
      if has_allow then if allow_active then none else some outside_allow_window else none
  check (window ∷ windows) now action layer_name has_allow allow_active =
      let here = applies action layer_name window in
      let active = here && is_window_active window now in
      let rest =
        check windows now action layer_name (has_allow || (here && is_allow window.kind))
          (allow_active || (active && is_allow window.kind)) in
      if active && is_deny window.kind then some inside_deny_window else rest

  -- `none` is `(false, "")`.
  unfoldable pub is_sync_blocked : List SyncWindow → Time → String → String → Option SyncBlockReason
  unfolding check
  is_sync_blocked windows now action layer_name = check windows now action layer_name false false
