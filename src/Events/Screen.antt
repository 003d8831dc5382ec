-- ===== src/Events/Screen.antt =====
-- src/events.rs, `on_screen_toggled`.
use mini_lmk.Base.{ℕ, ◌-◌, ◌/◌, Bool, true, false, Option, none, some, if◌then◌else◌, map_or, not}
use mini_lmk.State.{DaemonState, screen_off, screen_on, emit, perform}
use mini_lmk.Events.Summary.{emit_bg_summary}

-- How long the screen has been on, or off, in seconds.
abbrev pub since : Option ℕ → ℕ → ℕ
since start now = map_or start 0 (λ s. (now - s) / 1000)

unfoldable pub screen_step : Bool → ℕ → DaemonState → DaemonState
unfolding emit_bg_summary
screen_step false now d =
    let active_sec = since d.screen_on_start now in
    record (emit_bg_summary now active_sec (perform (emit (screen_off now active_sec)) d)) {
      screen_on = false;
      screen_on_start = none;
      screen_off_start = some now;
    }
screen_step true now d =
    let duration_sec = since d.screen_off_start now in
    record (emit_bg_summary now duration_sec (perform (emit (screen_on now duration_sec)) d)) {
      screen_on = true;
      screen_on_start = some now;
      screen_off_start = none;
    }

abbrev pub same_bool : Bool → Bool → Bool
same_bool true b = b
same_bool false b = not b

unfoldable pub on_screen_toggled : Bool → ℕ → DaemonState → DaemonState
unfolding screen_step
on_screen_toggled state now d = if same_bool d.screen_on state then d else screen_step state now d
