-- ===== src/SyncWindow/Rules.antt =====
-- The rules at the head of syncwindow.go, and that the order of the windows is of no account.
use burrito.Base.{
  String, ◌≡◌, refl, Bool, false, not, ◌&&◌, ◌||◌, Option, none, some, List, [], ◌∷◌, ◌++◌, arith,
  if◌then◌else◌, any,
}
use burrito.Api.{Time, SyncWindow}
use burrito.World.{Runtime}
use burrito.SyncWindow.{
  SyncBlockReason, inside_deny_window, outside_allow_window, is_allow, is_deny, is_window_active,
  applies, check, is_sync_blocked,
}

module _ (rt : Runtime) (now : Time) (action layer_name : String) where
  -- Windows of the action and the layer.
  abbrev pub active_deny : SyncWindow → Bool
  active_deny w = applies rt action layer_name w && is_window_active rt w now && is_deny w.kind

  abbrev pub active_allow : SyncWindow → Bool
  active_allow w = applies rt action layer_name w && is_window_active rt w now && is_allow w.kind

  abbrev pub any_allow : SyncWindow → Bool
  any_allow w = applies rt action layer_name w && is_allow w.kind

  -- The documented behaviour.
  unfoldable pub rules : List SyncWindow → Option SyncBlockReason
  rules windows =
      if any active_deny windows
      then some inside_deny_window
      else if any any_allow windows && not (any active_allow windows)
      then some outside_allow_window
      else none

  check-any :
      (windows : List SyncWindow) (has_allow allow_active : Bool)
      → check rt windows now action layer_name has_allow allow_active ≡ (
          if any active_deny windows
          then some inside_deny_window
          else if (has_allow || any any_allow windows)
              && not (allow_active || any active_allow windows)
          then some outside_allow_window
          else none)
  unfolding check
  check-any [] has_allow allow_active = ground arith
  check-any (w ∷ windows) has_allow allow_active =
      let here = applies rt action layer_name w in
      let active = here && is_window_active rt w now in
      ground (
        arith,
        check-any windows (has_allow || (here && is_allow w.kind))
            (allow_active || (active && is_allow w.kind)),
      )

  -- Blocked inside a deny window if one of the action and the layer is active; otherwise outside the
  -- allow windows if there are any for them and none is active; otherwise not blocked.
  pub is_sync_blocked-rules :
      (windows : List SyncWindow) → is_sync_blocked rt windows now action layer_name ≡ rules windows
  unfolding is_sync_blocked rules
  is_sync_blocked-rules windows = check-any windows false false

any-append {ℓ} :
    {A : Type ℓ} (p : A → Bool) (xs ys : List A) → any p (xs ++ ys) ≡ any p xs || any p ys
any-append p [] ys = refl
any-append p (x ∷ xs) ys = ground (arith, any-append p xs ys)

-- The windows of the repository and the default ones may be listed in any order: what blocks an
-- action is the same.
pub is_sync_blocked-append_comm :
    (rt : Runtime) (now : Time) (action layer_name : String) (a b : List SyncWindow)
    → is_sync_blocked rt (a ++ b) now action layer_name
      ≡ is_sync_blocked rt (b ++ a) now action layer_name
unfolding rules
is_sync_blocked-append_comm rt now action layer_name a b =
    simp (is_sync_blocked-rules, any-append) (ground arith)
