-- ===== src/Render/Columns.antt =====
-- src/telemetry.rs, `format_time_hms_ms` and `tabular_row`, and the closures of src/events.rs,
-- src/kill.rs and src/daemon.rs that make the row of a record. `localtime_r`, and the `{:.1}` of a
-- quotient as `f64`, are arguments.
use mini_lmk.Base.{
  ℕ, zero, suc, ◌+◌, ◌-◌, ◌/◌, ◌%◌, Bool, Option, none, some, [], ◌∷◌, ◌++◌, if◌then◌else◌, Text,
  length, ℤ, pos, negsuc, add_u64,
}
use mini_lmk.Text.{codes}
use mini_lmk.Config.{RuntimeConfig}
use mini_lmk.State.{
  LogRecord, bg_summary, fg_switch, game_session_start, game_session_end, game_intrusion, respawn,
  screen_off, screen_on, kill_decision, config_reload, KillRecord, KillEvent, kill, kill_skipped,
  simulated_kill, Method, sigkill, ams,
}
use mini_lmk.Render.{reason_name, record_time}
use mini_lmk.Render.Json.{show_ℕ, show_ℤ, show_bool}

-- The fields of `tm` that are read.
pub record ClockTime : Type 0 where
  pub tm_hour : ℕ
  pub tm_min : ℕ
  pub tm_sec : ℕ

-- `b'0' + d as u8`, which wraps around.
abbrev pub digit_byte : ℕ → ℕ
digit_byte d = (b'0' + d % 256) % 256

unfoldable pub format_time_hms_ms : (ℕ → ClockTime) → ℕ → Text
format_time_hms_ms local epoch_ms =
    let tm = local (epoch_ms / 1000) in
    let millis = epoch_ms % 1000 in
    digit_byte (tm.tm_hour / 10)
    ∷ digit_byte (tm.tm_hour % 10)
    ∷ b':'
    ∷ digit_byte (tm.tm_min / 10)
    ∷ digit_byte (tm.tm_min % 10)
    ∷ b':'
    ∷ digit_byte (tm.tm_sec / 10)
    ∷ digit_byte (tm.tm_sec % 10)
    ∷ b'.'
    ∷ digit_byte (millis / 100 % 10)
    ∷ digit_byte (millis / 10 % 10)
    ∷ digit_byte (millis % 10)
    ∷ []

abbrev pub blanks : ℕ → Text
blanks zero = []
blanks (suc n) = b' ' ∷ blanks n

-- `{:<w}`
unfoldable pub pad : ℕ → Text → Text
pad w s = s ++ blanks (w - length s)

unfoldable pub tabular_row : (ℕ → ClockTime) → ℕ → Text → Text → Text → Text
unfolding format_time_hms_ms pad
tabular_row local now tag target detail =
    pad 12 (format_time_hms_ms local now)
    ++ (codes "   " ++ (pad 12 tag ++ (b' ' ∷ (pad 26 target ++ (b' ' ∷ detail)))))

abbrev pub unsigned_abs : ℤ → ℕ
unsigned_abs (pos n) = n
unsigned_abs (negsuc n) = suc n

abbrev pub game_mark : Bool → Text
game_mark is_game = if is_game then codes " [GAME]" else []

abbrev pub sigkill_mark : Method → Text
sigkill_mark sigkill = codes "  [sigkill]"
sigkill_mark ams = []

-- The two other parts of `kill_telemetry_parts`.
unfoldable pub kill_tag : KillEvent → Text
kill_tag kill = codes "KILL"
kill_tag kill_skipped = codes "KILL_SKIP"
kill_tag simulated_kill = codes "SIM_KILL"

unfoldable pub sim_suffix : KillEvent → Bool → Text
sim_suffix kill ams_protected = []
sim_suffix kill_skipped ams_protected = codes " (ams_protected: spawn skipped)"
sim_suffix simulated_kill ams_protected =
    if ams_protected
    then codes " (simulated, ams_protected: spawn skipped)"
    else codes " (simulated)"

unfoldable pub kill_detail : KillRecord → Text
unfolding sim_suffix show_ℕ show_ℤ
kill_detail r =
    codes "rss="
    ++ (show_ℕ (r.rss_freed_est_kb / 1024)
        ++ (codes "MB  idle="
            ++ (show_ℕ r.idle_sec
                ++ (codes "s  adj="
                    ++ (show_ℤ r.oom_score_adj
                        ++ (codes "  lru="
                            ++ (show_ℕ r.lru_pos
                                ++ (codes " ["
                                    ++ (reason_name r.reason
                                        ++ (codes "] "
                                            ++ (sim_suffix r.event r.ams_protected
                                                ++ sigkill_mark r.method)))))))))))

unfoldable pub reload_detail : RuntimeConfig → Bool → Text
unfolding show_ℕ show_ℤ
reload_detail cfg want_log =
    codes "t_idle="
    ++ (show_ℕ cfg.t_idle_sec
        ++ (codes "s  lru_depth="
            ++ (show_ℕ cfg.lru_protect_depth
                ++ (codes "  mem_crit="
                    ++ (show_ℕ cfg.mem_critical_percent
                        ++ (codes "%  fg_lru_max="
                            ++ (show_ℕ cfg.fg_lru_max_depth
                                ++ (codes "  harvest="
                                    ++ (show_bool cfg.screen_off_harvest
                                        ++ (codes "  max_kills="
                                            ++ (show_ℕ cfg.max_kills_per_pass
                                                ++ (codes "  min_adj="
                                                    ++ (show_ℤ cfg.min_oom_score_adj
                                                        ++ (codes "  log="
                                                            ++ show_bool want_log))))))))))))))

unfoldable pub tag_of : LogRecord → Text
unfolding kill_tag
tag_of (bg_summary now sec stats) = codes "BG_SUMMARY"
tag_of (fg_switch now pkg component prev dur is_game) = codes "FG_SWITCH"
tag_of (game_session_start now pkg) = codes "GAME_START"
tag_of (game_session_end now duration intrusions) = codes "GAME_END"
tag_of (game_intrusion now pid uid pkg proc kind rss excluded) = codes "GAME_INTRUDE"
tag_of (respawn now pkg gap pid uid kind) = codes "RESPAWN"
tag_of (screen_off now active) = codes "SCREEN_OFF"
tag_of (screen_on now off) = codes "SCREEN_ON"
tag_of (kill_decision r) = kill_tag r.event
tag_of (config_reload cfg want_log now) = codes "CONFIG_RELOAD"

unfoldable pub target_of : LogRecord → Text
target_of (bg_summary now sec stats) = codes "--"
target_of (fg_switch now pkg component prev dur is_game) = pkg
target_of (game_session_start now pkg) = pkg
target_of (game_session_end now duration intrusions) = codes "--"
target_of (game_intrusion now pid uid pkg proc kind rss excluded) = pkg
target_of (respawn now pkg gap pid uid kind) = pkg
target_of (screen_off now active) = codes "--"
target_of (screen_on now off) = codes "--"
target_of (kill_decision r) = r.pkg
target_of (config_reload cfg want_log now) = codes "--"

module _ (decimal : ℕ → ℕ → Text) where
  unfoldable pub switch_detail : Option Text → ℕ → Bool → Text
  switch_detail none dur is_game = codes "cold_boot" ++ game_mark is_game
  switch_detail (some prev) dur is_game =
      codes "prev="
      ++ (prev ++ (codes " (" ++ (decimal dur 1000 ++ (codes "s)" ++ game_mark is_game))))

  unfoldable pub detail_of : LogRecord → Text
  unfolding switch_detail kill_detail reload_detail show_ℕ
  detail_of (bg_summary now sec stats) =
      codes "interval="
      ++ (show_ℕ sec
          ++ (codes "s  spawns="
              ++ (show_ℕ stats.bg_spawns
                  ++ (codes "  deaths="
                      ++ (show_ℕ stats.bg_deaths
                          ++ (codes "  spawn_rss="
                              ++ (show_ℕ ((unsigned_abs stats.spawn_rss_kb + 512) / 1024)
                                  ++ codes "MB")))))))
  detail_of (fg_switch now pkg component prev dur is_game) = switch_detail prev dur is_game
  detail_of (game_session_start now pkg) = codes "game_mode=active"
  detail_of (game_session_end now duration intrusions) =
      codes "duration=" ++ (show_ℕ duration ++ (codes "s  intrusions=" ++ show_ℕ intrusions))
  detail_of (game_intrusion now pid uid pkg proc kind rss excluded) =
      codes "type="
      ++ (kind
          ++ (codes "  rss="
              ++ (show_ℕ (add_u64 rss 512 / 1024)
                  ++ (codes "MB  excluded=" ++ show_bool excluded))))
  detail_of (respawn now pkg gap pid uid kind) =
      codes "gap="
      ++ (show_ℕ gap ++ (codes "ms  pid=" ++ (show_ℕ pid ++ (codes "  type=" ++ kind))))
  detail_of (screen_off now active) = codes "active_session=" ++ (decimal active 1 ++ codes "s")
  detail_of (screen_on now off) = codes "sleep=" ++ (show_ℕ off ++ codes "s")
  detail_of (kill_decision r) = kill_detail r
  detail_of (config_reload cfg want_log now) = reload_detail cfg want_log

  -- The row of a record.
  unfoldable pub to_row : (ℕ → ClockTime) → LogRecord → Text
  unfolding tabular_row tag_of target_of detail_of record_time
  to_row local r = tabular_row local (record_time r) (tag_of r) (target_of r) (detail_of r)
