-- ===== src/Tests/Fixtures.antt =====
-- A small phone: one app in the foreground, two in the background, and a system that answers.
use mini_lmk.Base.{ℕ, true, false, none, some, [], ◌∷◌, Text, pos}
use mini_lmk.Text.{codes}
use mini_lmk.Config.{default_config}
use mini_lmk.Spawn.{Spawner, fork, child}
use mini_lmk.State.{DaemonState, World, ProcFs, done, no_stats}

abbrev pub app_fg : Text
app_fg = codes "com.fg"

abbrev pub app_one : Text
app_one = codes "com.one"

abbrev pub app_two : Text
app_two = codes "com.two"

abbrev pub system_app : Text
system_app = codes "com.android.systemui"

abbrev pub spawner : Spawner
spawner = record {
  backend = fork;
  note = false;
  devnull = pos 3;
  devnull_errno = pos 0;
  name_buf = [];
  reaps_pending = pos 0;
}

abbrev pub procfs : ProcFs
procfs = record {
  statm = λ pid. some (codes "900 50 10");
  oom_score_adj = λ pid. some (codes "905");
  uid = λ pid. some 10100;
}

abbrev pub world : World
world = record {
  proc = λ m. procfs;
  pressure = none;
  meminfo = none;
  f32_at_least = λ v percent. none;
  kill_reply = λ k pid. done;
  launch_reply = λ k. child (pos 4242);
}

abbrev pub phone : DaemonState
phone = record {
  config = default_config;
  json_stdout = false;
  no_log_cli = false;
  config_announced = false;
  startup_record = none;
  alive_apps = (app_one, 1700000000000) ∷ (app_two, 1700000100000) ∷ [];
  pid_to_pkg = (11, app_one) ∷ (12, app_two) ∷ [];
  pkg_to_pids = (app_one, 11 ∷ []) ∷ (app_two, 12 ∷ []) ∷ [];
  pkg_to_uid = (app_one, 10100) ∷ (app_two, 10101) ∷ [];
  recent_deaths = [];
  user_exclusions = [];
  games = [];
  dynamic_exclusions = [];
  fg_lru = app_fg ∷ [];
  current_fg = some app_fg;
  screen_on_start = some 1700000000000;
  screen_off_start = none;
  game_session_start = none;
  session_start = 1700000000000;
  last_event_epoch = 1700001000000;
  session_stats = no_stats;
  page_size_kb = 4;
  game_intrusion_count = 0;
  screen_on = true;
  is_gaming = false;
  act_mode = true;
  is_root = true;
  spawner = spawner;
  trace = [];
}

abbrev pub noon : ℕ
noon = 1700001000000
