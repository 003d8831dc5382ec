-- ===== src/Events/Clock.antt =====
-- src/events.rs, `clock_jump_ms` and `apply_clock_jump`.
use mini_lmk.Base.{
  ℕ, ◌-◌, ◌&&◌, ltb, leb, ◌==◌, if◌then◌else◌, ℤ, pos, as_i64, neg_i64, saturating_add_signed,
  eqb_ℤ,
}
use mini_lmk.Base.Map.{map_values, map_option}
use mini_lmk.State.{DaemonState}

abbrev pub rtc_sync_floor_ms : ℕ
rtc_sync_floor_ms = 1600000000000

unfoldable pub clock_jump_ms : ℕ → ℕ → ℤ
clock_jump_ms prev now =
    if prev == 0
    then pos 0
    else if ltb now prev
    then neg_i64 (as_i64 (prev - now))
    else if ltb prev rtc_sync_floor_ms && leb rtc_sync_floor_ms now
    then as_i64 (now - prev)
    else pos 0

abbrev pub shift : ℤ → ℕ → ℕ
shift jump t = saturating_add_signed t jump

unfoldable pub shift_anchors : ℤ → DaemonState → DaemonState
shift_anchors jump d = record d {
  alive_apps = map_values (shift jump) d.alive_apps;
  recent_deaths = map_values (shift jump) d.recent_deaths;
  screen_on_start = map_option (shift jump) d.screen_on_start;
  screen_off_start = map_option (shift jump) d.screen_off_start;
  game_session_start = map_option (shift jump) d.game_session_start;
  session_start = shift jump d.session_start;
}

unfoldable pub apply_clock_jump : ℤ → DaemonState → DaemonState
unfolding shift_anchors
apply_clock_jump jump d = if eqb_ℤ jump (pos 0) then d else shift_anchors jump d
