-- ===== src/Render.antt =====
-- src/kill.rs, `KillRecord::to_json`, src/daemon.rs, `config_reload_json`, and the JSON closures that
-- src/events.rs hands to `emit_with`: the line that each record becomes.
pub mod Json
pub mod Numbers
pub mod Values
pub mod Reads
pub mod Lines
pub mod Columns
pub mod Rows
use mini_lmk.Base.{ℕ, Bool, true, false, Option, none, some, List, [], ◌∷◌, Text, ℤ, pos}
use mini_lmk.Text.{codes}
use mini_lmk.Config.{RuntimeConfig}
use mini_lmk.State.{
  LogRecord, bg_summary, fg_switch, game_session_start, game_session_end, game_intrusion, respawn,
  screen_off, screen_on, kill_decision, config_reload, KillRecord, KillEvent, kill, kill_skipped,
  simulated_kill, Reason, game_mode_escalation, low_memory_escalation, idle_expired, Method,
  sigkill, ams, SessionStats,
}
use mini_lmk.Kill.Dispatch.{spawn_skipped}
use mini_lmk.Render.Json.{Value, null, bool, num, text, nums, Field, show_object}

abbrev pub number : ℕ → Value
number n = num (pos n)

abbrev pub event_name : KillEvent → Text
event_name kill = codes "kill"
event_name kill_skipped = codes "kill_skipped"
event_name simulated_kill = codes "simulated_kill"

abbrev pub reason_name : Reason → Text
reason_name game_mode_escalation = codes "game_mode_escalation"
reason_name low_memory_escalation = codes "low_memory_escalation"
reason_name idle_expired = codes "idle_expired"

abbrev pub method_name : Method → Text
method_name sigkill = codes "sigkill"
method_name ams = codes "ams"

abbrev pub errno_value : Option ℤ → Value
errno_value none = null
errno_value (some n) = num n

abbrev pub kill_fields : KillRecord → List Field
kill_fields r =
    (codes "event", text (event_name r.event))
    ∷ (codes "pkg", text r.pkg)
    ∷ (codes "pids", nums r.pids)
    ∷ (codes "rss_freed_est_kb", number r.rss_freed_est_kb)
    ∷ (codes "reason", text (reason_name r.reason))
    ∷ (codes "idle_sec", number r.idle_sec)
    ∷ (codes "lru_pos", number r.lru_pos)
    ∷ (codes "spawn_errno", errno_value r.spawn_errno)
    ∷ (codes "oom_score_adj", num r.oom_score_adj)
    ∷ (codes "ams_protected", bool r.ams_protected)
    ∷ (codes "spawn_skipped", bool (spawn_skipped r))
    ∷ (codes "method", text (method_name r.method))
    ∷ []

abbrev pub reload_fields : RuntimeConfig → Bool → List Field
reload_fields cfg want_log =
    (codes "event", text (codes "config_reload"))
    ∷ (codes "t_idle_sec", number cfg.t_idle_sec)
    ∷ (codes "lru_protect_depth", number cfg.lru_protect_depth)
    ∷ (codes "mem_critical_percent", number cfg.mem_critical_percent)
    ∷ (codes "fg_lru_max_depth", number cfg.fg_lru_max_depth)
    ∷ (codes "screen_off_harvest", bool cfg.screen_off_harvest)
    ∷ (codes "max_kills_per_pass", number cfg.max_kills_per_pass)
    ∷ (codes "min_oom_score_adj", num cfg.min_oom_score_adj)
    ∷ (codes "log_enabled", bool want_log)
    ∷ []

-- The time of a record, and the fields behind it.
unfoldable pub record_time : LogRecord → ℕ
record_time (bg_summary now sec stats) = now
record_time (fg_switch now pkg component prev dur is_game) = now
record_time (game_session_start now pkg) = now
record_time (game_session_end now duration intrusions) = now
record_time (game_intrusion now pid uid pkg proc kind rss excluded) = now
record_time (respawn now pkg gap pid uid kind) = now
record_time (screen_off now active) = now
record_time (screen_on now off) = now
record_time (kill_decision r) = r.ts
record_time (config_reload cfg want_log now) = now

unfoldable pub record_fields : LogRecord → List Field
unfolding spawn_skipped
record_fields (bg_summary now sec stats) =
    (codes "event", text (codes "bg_summary"))
    ∷ (codes "interval_sec", number sec)
    ∷ (codes "spawns", number stats.bg_spawns)
    ∷ (codes "deaths", number stats.bg_deaths)
    ∷ (codes "spawn_rss_kb", num stats.spawn_rss_kb)
    ∷ []
record_fields (fg_switch now pkg component prev dur is_game) =
    (codes "event", text (codes "fg_switch"))
    ∷ (codes "pkg", text pkg)
    ∷ (codes "component", text component)
    ∷ (codes "prev_dur_ms", number dur)
    ∷ (codes "is_game", bool is_game)
    ∷ []
record_fields (game_session_start now pkg) =
    (codes "event", text (codes "game_session_start")) ∷ (codes "pkg", text pkg) ∷ []
record_fields (game_session_end now duration intrusions) =
    (codes "event", text (codes "game_session_end"))
    ∷ (codes "duration_sec", number duration)
    ∷ (codes "intrusions", number intrusions)
    ∷ []
record_fields (game_intrusion now pid uid pkg proc kind rss excluded) =
    (codes "event", text (codes "game_intrusion"))
    ∷ (codes "pid", number pid)
    ∷ (codes "uid", number uid)
    ∷ (codes "pkg", text pkg)
    ∷ (codes "proc", text proc)
    ∷ (codes "type", text kind)
    ∷ (codes "rss_kb", number rss)
    ∷ (codes "excluded", bool excluded)
    ∷ []
record_fields (respawn now pkg gap pid uid kind) =
    (codes "event", text (codes "respawn"))
    ∷ (codes "pkg", text pkg)
    ∷ (codes "gap_ms", number gap)
    ∷ (codes "pid", number pid)
    ∷ (codes "uid", number uid)
    ∷ (codes "type", text kind)
    ∷ []
record_fields (screen_off now active) =
    (codes "event", text (codes "screen_state"))
    ∷ (codes "state", text (codes "OFF"))
    ∷ (codes "active_duration_sec", number active)
    ∷ []
record_fields (screen_on now off) =
    (codes "event", text (codes "screen_state"))
    ∷ (codes "state", text (codes "ON"))
    ∷ (codes "off_duration_sec", number off)
    ∷ []
record_fields (kill_decision r) = kill_fields r
record_fields (config_reload cfg want_log now) = reload_fields cfg want_log

unfoldable pub to_json : LogRecord → Text
unfolding record_time record_fields show_object
to_json r = show_object (codes "ts", number (record_time r)) (record_fields r)
