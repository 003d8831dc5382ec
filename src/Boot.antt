-- ===== src/Boot.antt =====
-- src/main.rs, `main`, and src/daemon.rs, `DaemonState::new` and `spawn_logcat_stream`: from the command
-- line to the reactor. What the system answers while the daemon starts is an argument.
pub mod Kept
pub mod Child
pub mod Settled
pub mod Observing
pub mod Whole
pub mod Exit
pub mod Tables
use mini_lmk.Base.{
  ℕ, ◌/◌, Bool, true, false, Option, none, some, List, [], ◌∷◌, leb, ltb_ℤ, if◌then◌else◌, Text,
  text_beq, ℤ, pos, pos_part,
}
use mini_lmk.Text.{codes}
use mini_lmk.Config.{RuntimeConfig, default_config}
use mini_lmk.Procfs.{read_total_ram_mb}
use mini_lmk.Spawn.{Launch, parse_backend, new_spawner}
use mini_lmk.State.{DaemonState, World, no_stats}
use mini_lmk.Startup.Reload.{ConfigFiles, reload_configs_from}
use mini_lmk.Startup.Seed.{ProcEntry, SystemOutputs, seed_initial_state, detect_system_components}
use mini_lmk.Startup.Probe.{ChildStatus, detect_initial_screen_on, probe_logcat_stream}
use mini_lmk.Reactor.{
  Turn, Reactor, Progress, going, left, leave_fatal, logcat_not_started, logcat_probe_failed,
  logcat_not_polled, ◌>>=◌, run,
}

-- The options of the command line, as far as they have been read.
pub record Options : Type 0 where
  pub mode : Option Bool
  pub json_stdout : Bool
  pub no_log : Bool

abbrev pub no_options : Options
no_options = record { mode = none; json_stdout = false; no_log = false }

-- What one argument says; one that is not known is passed over.
unfoldable pub read_arg : Text → Options → Options
read_arg arg o =
    if text_beq arg (codes "--act")
    then record o { mode = some true }
    else if text_beq arg (codes "--observe")
    then record o { mode = some false }
    else if text_beq arg (codes "--json")
    then record o { json_stdout = true }
    else if text_beq arg (codes "--no-log")
    then record o { no_log = true }
    else o

abbrev pub asks_help : Text → Bool
asks_help arg = if text_beq arg (codes "-h") then true else text_beq arg (codes "--help")

-- `none` where the help is printed at once.
unfoldable pub read_args : List Text → Options → Option Options
unfolding read_arg
read_args [] o = some o
read_args (arg ∷ args) o =
    let rest = read_args args (read_arg arg o) in if asks_help arg then none else rest

-- How the start of logcat went: the child, its probe and the registration of its pipe.
pub record LogcatStart : Type 0 where
  -- The process id of the child, if it could be spawned.
  pub spawned : Option ℕ
  pub status : ChildStatus
  pub fd : ℤ
  pub ready : ℤ
  pub revents : ℕ
  pub registered : Bool

-- What the system answers to the calls of `DaemonState::new`.
pub record Environment : Type 0 where
  pub page_size : ℤ
  pub now : ℕ
  -- What `cmd deviceidle get screen` and `dumpsys power` print.
  pub screen_state : Option Text
  pub power_dump : Option Text
  pub meminfo : Option Text
  pub is_root : Bool
  -- `MINI_LMK_SPAWN`
  pub backend : Option Text
  pub devnull : Launch
  pub files : ConfigFiles
  pub outputs : SystemOutputs
  pub entries : List ProcEntry
  pub logcat : LogcatStart

unfoldable pub default_max_kills : ℕ → ℕ
default_max_kills total_ram_mb =
    if leb total_ram_mb 4608 then 4 else if leb total_ram_mb 8704 then 2 else 1

abbrev pub page_size_kb : ℤ → ℕ
page_size_kb n = if ltb_ℤ (pos 0) n then pos_part n / 1024 else 4

-- The state that is put together before the files are read.
unfoldable pub initial_state : Bool → Bool → Bool → Environment → DaemonState
unfolding default_max_kills read_total_ram_mb detect_initial_screen_on new_spawner parse_backend
initial_state act_mode json_stdout no_log_cli env =
    let on = detect_initial_screen_on env.screen_state env.power_dump in
    record {
      config = record default_config {
        max_kills_per_pass = default_max_kills (read_total_ram_mb env.meminfo);
      };
      json_stdout = json_stdout;
      no_log_cli = no_log_cli;
      config_announced = false;
      startup_record = none;
      alive_apps = [];
      pid_to_pkg = [];
      pkg_to_pids = [];
      pkg_to_uid = [];
      recent_deaths = [];
      user_exclusions = [];
      games = [];
      dynamic_exclusions = [];
      fg_lru = [];
      current_fg = none;
      screen_on_start = if on then some env.now else none;
      screen_off_start = if on then none else some env.now;
      game_session_start = none;
      session_start = env.now;
      last_event_epoch = env.now;
      session_stats = no_stats;
      page_size_kb = page_size_kb env.page_size;
      game_intrusion_count = 0;
      screen_on = on;
      is_gaming = false;
      act_mode = act_mode;
      is_root = env.is_root;
      spawner = new_spawner (parse_backend env.backend) env.devnull;
      trace = [];
    }

abbrev pub with_stream : Option ℕ → DaemonState → Reactor
with_stream pid d = record {
  reader = record { buf = []; handed = 0; daemon = d };
  running = true;
  logcat_pid = pid;
  waits = [];
}

unfoldable pub spawn_logcat_stream : LogcatStart → DaemonState → Progress
unfolding probe_logcat_stream leave_fatal
spawn_logcat_stream s d = elim s.spawned [
  | none ↦ leave_fatal logcat_not_started (with_stream none d)
  | some pid ↦ elim (probe_logcat_stream s.status s.fd s.ready s.revents) [
    | some e ↦ leave_fatal (logcat_probe_failed e) (with_stream none d)
    | none ↦
        if s.registered
        then going (with_stream (some pid) d)
        else leave_fatal logcat_not_polled (with_stream none d)
  ]
]

-- The state behind the discovery of what is configured, installed and running.
unfoldable pub discovered : Bool → Bool → Bool → Environment → DaemonState
unfolding initial_state reload_configs_from detect_system_components seed_initial_state
discovered act_mode json_stdout no_log_cli env = seed_initial_state env.entries (
    detect_system_components env.outputs
      (reload_configs_from env.files (initial_state act_mode json_stdout no_log_cli env)))

-- `DaemonState::new`
unfoldable pub new_daemon : Bool → Bool → Bool → Environment → Progress
unfolding discovered spawn_logcat_stream
new_daemon act_mode json_stdout no_log_cli env =
    spawn_logcat_stream env.logcat (discovered act_mode json_stdout no_log_cli env)

-- `main`: the daemon, up to the wait behind the given rounds, or `none` where it only prints its help.
unfoldable pub main :
    (ℕ → Bool) → (ℕ → World) → List Text → Environment → List Turn → Option Progress
unfolding read_args new_daemon run
main alphabetic worlds args env ts = elim (read_args args no_options) [
  | none ↦ none
  | some o ↦ elim o.mode [
    | none ↦ none
    | some act_mode ↦
        some (new_daemon act_mode o.json_stdout o.no_log env >>= λ r. run alphabetic worlds ts r)
  ]
]
