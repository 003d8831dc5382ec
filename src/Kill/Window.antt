-- ===== src/Kill/Window.antt =====
-- src/kill.rs, `scan_candidates`: how many packages of the LRU are protected, and how long a
-- package must have been idle.
use mini_lmk.Base.{
  ℕ, ◌-◌, ◌/◌, min, Bool, not, ◌&&◌, ◌||◌, Option, ltb, if◌then◌else◌, map_or, ◌>>=◌, text_eq,
}
use mini_lmk.Base.Map.{lookup}
use mini_lmk.State.{DaemonState}

-- `now_epoch.saturating_sub(s) / 1000`
abbrev pub seconds_since : ℕ → ℕ → ℕ
seconds_since now s = (now - s) / 1000

-- Whether the screen is off and harvesting is configured.
abbrev pub harvesting : DaemonState → Bool
harvesting d = not d.screen_on && d.config.screen_off_harvest

unfoldable pub effective_lru_depth : DaemonState → ℕ
effective_lru_depth d =
    if harvesting d then min d.config.lru_protect_depth 1 else d.config.lru_protect_depth

abbrev pub off_dur_sec : DaemonState → ℕ → ℕ
off_dur_sec d now = map_or d.screen_off_start 0 (seconds_since now)

abbrev pub fg_anchor : DaemonState → Option ℕ
fg_anchor d = d.current_fg >>= (λ p. lookup p d.alive_apps)

abbrev pub fg_dur_sec : DaemonState → ℕ → ℕ
fg_dur_sec d now = map_or (fg_anchor d) 0 (seconds_since now)

unfoldable pub t_idle_effective_sec : DaemonState → ℕ → Bool → Bool → ℕ
t_idle_effective_sec d now is_game is_low_mem =
    if is_game || is_low_mem
    then min d.config.t_idle_sec 10
    else if harvesting d
    then (if ltb 60 (off_dur_sec d now)
        then min d.config.t_idle_sec 30
        else min d.config.t_idle_sec 60)
    else if ltb 300 (fg_dur_sec d now)
    then min d.config.t_idle_sec 60
    else d.config.t_idle_sec
