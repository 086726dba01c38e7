-- ===== src/Tests/Settings.antt =====
-- The theorems on settings and sync windows, at concrete inputs.
use burrito.Base.{◌≡◌, ◌↔◌, refl, true, some, List, [], ◌∷◌, arith}
use burrito.Base.Int.{ℤ, pos, ◌+ℤ◌, ◌-ℤ◌, ◌<ℤ◌, int_laws}
use burrito.Api.{SyncWindow, allow, deny}
use burrito.SyncWindow.{inside_deny_window, is_window_active, applies, is_sync_blocked}
use burrito.SyncWindow.Rules.{rules, is_sync_blocked-rules}
use burrito.SyncWindow.Activity.{IsNext, is_window_active_iff}
use burrito.Tests.Cluster.{all_at_zero}
use burrito.Tests.Samples.{a_window}

abbrev windows : List SyncWindow
windows = a_window allow ∷ a_window deny ∷ []

-- Inside both windows the deny window wins.
denied : is_sync_blocked all_at_zero windows (pos 100) "apply" "network" ≡ some inside_deny_window
unfolding is_sync_blocked is_window_active applies ◌+ℤ◌ ◌-ℤ◌
denied = refl

is_sync_blocked-rules_example :
    is_sync_blocked all_at_zero windows (pos 100) "apply" "network"
    ≡ rules all_at_zero (pos 100) "apply" "network" windows
is_sync_blocked-rules_example =
    is_sync_blocked-rules all_at_zero (pos 100) "apply" "network" windows

-- A schedule that fires at every instant.
always : IsNext (λ t. Unit {0}) (λ t. t +ℤ pos 1)
always = record {
  fires_next = λ t. tt;
  later = λ t. omega (int_laws, arith);
  earliest = λ t f u h. omega (int_laws, h);
}

is_window_active_iff_example :
    (is_window_active all_at_zero (a_window deny) (pos 100) ≡ true)
    ↔ ((f : ℤ) × Unit {0} × (pos 100 +ℤ (pos 0 -ℤ pos 10) <ℤ f) × (f <ℤ pos 100))
is_window_active_iff_example =
    is_window_active_iff all_at_zero (a_window deny) (λ t. Unit {0}) (λ t. t +ℤ pos 1) (pos 10)
      (pos 100) always refl refl
