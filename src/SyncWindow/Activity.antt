-- ===== src/SyncWindow/Activity.antt =====
-- When a window is active, from what a cron schedule means.
use burrito.Base.{◌≡◌, ◌↔◌, Bool, true, ◌&&◌, some, arith}
use burrito.Base.Int.{ℤ, pos, ◌+ℤ◌, ◌-ℤ◌, ◌<ℤ◌, ◌≤ℤ◌, ltb_ℤ, int_laws}
use burrito.Api.{Time, Duration, SyncWindow}
use burrito.World.{Runtime}
use burrito.SyncWindow.{is_window_active}

-- What `Schedule.Next` documents: the earliest time at which the schedule fires after a given time.
pub record IsNext (fires : Time → Type 0) (next : Time → Time) : Type 0 where
  pub fires_next : (t : Time) → fires (next t)
  pub later : (t : Time) → t <ℤ next t
  pub earliest : (t f : Time) → fires f → t <ℤ f → next t ≤ℤ f

active_test : (start dur now : ℤ) → Bool
active_test start dur now = ltb_ℤ start now && ltb_ℤ now (start +ℤ dur)

active_test-lt : (start dur now : ℤ) → active_test start dur now ≡ true → start <ℤ now
unfolding active_test
active_test-lt start dur now h = ground arith

active_test_of :
    (start dur now : ℤ)
    → now +ℤ (pos 0 -ℤ dur) <ℤ start
    → start <ℤ now
    → active_test start dur now ≡ true
unfolding active_test
active_test_of start dur now p q =
    let ends : now <ℤ start +ℤ dur = omega (int_laws, p) in ground (arith, ends)

module _ (rt : Runtime) (window : SyncWindow) (fires : Time → Type 0) (next : Time → Time)
    (dur : Duration) where
  -- A window whose schedule and duration can be parsed is active exactly when its schedule has fired
  -- less than the duration ago, the very instant of the firing excluded.
  pub is_window_active_iff :
      (now : Time)
      → IsNext fires next
      → rt.cron_next window.schedule ≡ some next
      → rt.parse_duration window.duration ≡ some dur
      → (is_window_active rt window now ≡ true)
        ↔ ((f : Time) × fires f × (now +ℤ (pos 0 -ℤ dur) <ℤ f) × (f <ℤ now))
  unfolding is_window_active active_test
  is_window_active_iff now h schedule duration =
      let from = now +ℤ (pos 0 -ℤ dur) in
      let start = next from in
      rw (schedule, duration)
        (
          λ e. (start, h.fires_next from, h.later from, active_test-lt start dur now e),
          λ p.
              active_test_of start dur now (h.later from)
                (omega (int_laws, h.earliest from p.0 p.1 p.2, p.3)),
        )
