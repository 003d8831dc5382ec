-- ===== src/State.antt =====
-- src/daemon.rs, src/kill.rs, src/main.rs: the state of the daemon, the records that it logs, the
-- candidates of the scan, and what the daemon sees of the system while it handles one event.
use mini_lmk.Base.{
  ℕ, Bool, ◌||◌, Option, List, ◌∷◌, ◌-◌, Text, ℤ, pos, text_beq, text_eq, is_some_and, two_64,
}
use mini_lmk.Base.Map.{Map, contains}
use mini_lmk.Config.{RuntimeConfig}
use mini_lmk.Spawn.{Spawner, Launch, Launched}

pub record SessionStats : Type 0 where
  pub bg_spawns : ℕ
  pub bg_deaths : ℕ
  pub spawn_rss_kb : ℤ

abbrev pub no_stats : SessionStats
no_stats = record { bg_spawns = 0; bg_deaths = 0; spawn_rss_kb = pos 0 }

pub record Candidate : Type 0 where
  pub pkg : Text
  pub live_pids : List ℕ
  pub total_rss_kb : ℕ
  pub idle_sec : ℕ
  pub lru_pos : ℕ

-- The two names of a dispatch method, and the three of a reason, as data.
pub data Method : Type 0 where
  sigkill ams : Method

pub data Reason : Type 0 where
  game_mode_escalation low_memory_escalation idle_expired : Reason

pub data KillEvent : Type 0 where
  kill kill_skipped simulated_kill : KillEvent

pub record KillRecord : Type 0 where
  pub ts : ℕ
  pub event : KillEvent
  pub pkg : Text
  pub pids : List ℕ
  pub rss_freed_est_kb : ℕ
  pub reason : Reason
  pub idle_sec : ℕ
  pub lru_pos : ℕ
  pub spawn_errno : Option ℤ
  pub oom_score_adj : ℤ
  pub ams_protected : Bool
  pub method : Method

-- What a call of `emit_with` is handed: the data that both renderings are made of.
pub data LogRecord : Type 0 where
  bg_summary : ℕ → ℕ → SessionStats → LogRecord
  fg_switch : ℕ → Text → Text → Option Text → ℕ → Bool → LogRecord
  game_session_start : ℕ → Text → LogRecord
  game_session_end : ℕ → ℕ → ℕ → LogRecord
  game_intrusion : ℕ → ℕ → ℕ → Text → Text → Text → ℕ → Bool → LogRecord
  respawn : ℕ → Text → ℕ → ℕ → ℕ → Text → LogRecord
  screen_off : ℕ → ℕ → LogRecord
  screen_on : ℕ → ℕ → LogRecord
  kill_decision : KillRecord → LogRecord
  config_reload : RuntimeConfig → Bool → ℕ → LogRecord

-- What the kernel answers to `kill(pid, SIGKILL)`: done, ESRCH, or another error.
pub data KillReply : Type 0 where
  done esrch denied : KillReply

-- What the daemon does to the outside: a record handed to the sink, a flush, the log of the sink
-- switched on or off, a signal, a child asked for, or the `Child::kill` and `wait` with which a
-- shutdown stops the child with the given number, whose results it drops.
pub data Action : Type 0 where
  emit : LogRecord → Action
  flush : Action
  log_switch : Bool → Action
  signal : ℕ → KillReply → Action
  launch : Launched → Action
  kill_child : ℕ → Action

pub record DaemonState : Type 0 where
  pub config : RuntimeConfig
  pub json_stdout : Bool
  pub no_log_cli : Bool
  pub config_announced : Bool
  pub startup_record : Option (RuntimeConfig × Bool × ℕ)
  pub alive_apps : Map Text ℕ
  pub pid_to_pkg : Map ℕ Text
  pub pkg_to_pids : Map Text (List ℕ)
  pub pkg_to_uid : Map Text ℕ
  pub recent_deaths : Map Text ℕ
  pub user_exclusions : List Text
  pub games : List Text
  pub dynamic_exclusions : List Text
  pub fg_lru : List Text
  pub current_fg : Option Text
  pub screen_on_start : Option ℕ
  pub screen_off_start : Option ℕ
  pub game_session_start : Option ℕ
  pub session_start : ℕ
  pub last_event_epoch : ℕ
  pub session_stats : SessionStats
  pub page_size_kb : ℕ
  pub game_intrusion_count : ℕ
  pub screen_on : Bool
  pub is_gaming : Bool
  pub act_mode : Bool
  pub is_root : Bool
  pub spawner : Spawner
  -- What was done to the outside, the latest first. The telemetry sink is behind it.
  pub trace : List Action

abbrev pub perform : Action → DaemonState → DaemonState
perform a d = record d { trace = a ∷ d.trace }

-- The moments of one handler call at which files of `/proc` are read: at the start, while a package
-- is scanned, at the gate of a candidate, and right before its processes are signalled.
pub data Moment : Type 0 where
  on_arrival : Moment
  in_scan : Text → Moment
  at_gate : ℕ → Moment
  at_signal : ℕ → Moment

-- The texts of `statm` and `oom_score_adj` and the owner of each process, at one moment.
pub record ProcFs : Type 0 where
  pub statm : ℕ → Option Text
  pub oom_score_adj : ℕ → Option Text
  pub uid : ℕ → Option ℕ

-- What the system answers in the course of one handler call. `kill_reply` and `launch_reply` take
-- the position of the candidate in its pass.
pub record World : Type 0 where
  pub proc : Moment → ProcFs
  pub pressure : Option Text
  pub meminfo : Option Text
  pub f32_at_least : Text → ℕ → Option Bool
  pub kill_reply : ℕ → ℕ → KillReply
  pub launch_reply : ℕ → Launch

abbrev pub sigkill_min_adj : ℤ
sigkill_min_adj = pos 900

-- `usize::MAX`, on a 64-bit target.
abbrev pub usize_max : ℕ
usize_max = two_64 - 1

-- `Option<String>::as_deref() == Some(pkg)`
abbrev pub is_pkg : Option Text → Text → Bool
is_pkg o pkg = is_some_and o (λ p. text_beq p pkg)

unfoldable pub is_excluded : DaemonState → Text → Bool
is_excluded d pkg =
    contains pkg d.user_exclusions || contains pkg d.dynamic_exclusions || is_pkg d.current_fg pkg
