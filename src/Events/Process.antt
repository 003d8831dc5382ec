-- ===== src/Events/Process.antt =====
-- src/events.rs, `on_proc_start` and `on_proc_died`.
use mini_lmk.Base.{
  ℕ, ◌-◌, Bool, not, ◌&&◌, ◌||◌, Option, none, some, List, [], ltb, leb, if◌then◌else◌, Text,
  text_beq, text_eq, number_eq, length, is_some, is_empty, add_u32, add_i64, as_i64,
}
use mini_lmk.Base.Map.{lookup, insert, remove, modify, add, discard, retain_values}
use mini_lmk.Text.{codes}
use mini_lmk.Procfs.{read_statm_rss_kb}
use mini_lmk.State.{
  DaemonState, game_intrusion, respawn, emit, perform, is_pkg, is_excluded, World, on_arrival,
}
use mini_lmk.Kill.Pass.{evaluate_reaping_pipeline}

pub record ProcStartEvent : Type 0 where
  pub proc_name : Text
  pub pkg : Text
  pub spawn_type : Text
  pub pid : ℕ
  pub uid : ℕ

pub record ProcDiedEvent : Type 0 where
  pub pid : ℕ

abbrev pub top_activity : Text
top_activity = codes "top-activity"

abbrev pub next_top_activity : Text
next_top_activity = codes "next-top-activity"

abbrev pub is_top : Text → Bool
is_top spawn_type = text_beq spawn_type top_activity || text_beq spawn_type next_top_activity

unfoldable pub count_spawn : ℕ → DaemonState → DaemonState
count_spawn rss d = record d {
  session_stats = record d.session_stats {
    bg_spawns = add_u32 d.session_stats.bg_spawns 1;
    spawn_rss_kb = add_i64 d.session_stats.spawn_rss_kb (as_i64 rss);
  };
}

unfoldable pub note_intrusion : ProcStartEvent → ℕ → ℕ → DaemonState → DaemonState
unfolding is_excluded
note_intrusion ev rss now d =
    perform
      (emit (
        game_intrusion now ev.pid ev.uid ev.pkg ev.proc_name ev.spawn_type rss
          (is_excluded d ev.pkg)))
      (record d { game_intrusion_count = add_u32 d.game_intrusion_count 1 })

abbrev pub pids_or_none : Option (List ℕ) → List ℕ
pids_or_none none = []
pids_or_none (some pids) = pids

-- The three process tables; the first uid of a package is kept.
unfoldable pub index_process : ProcStartEvent → DaemonState → DaemonState
index_process ev d = record d {
  pid_to_pkg = insert ev.pid ev.pkg d.pid_to_pkg;
  pkg_to_pids =
      insert ev.pkg (add ev.pid (pids_or_none (lookup ev.pkg d.pkg_to_pids))) d.pkg_to_pids;
  pkg_to_uid =
      if is_some (lookup ev.pkg d.pkg_to_uid)
      then d.pkg_to_uid
      else insert ev.pkg ev.uid d.pkg_to_uid;
}

-- A death within the last two minutes makes this start a respawn.
unfoldable pub note_respawn : Option ℕ → ProcStartEvent → ℕ → DaemonState → DaemonState
note_respawn none ev now d = d
note_respawn (some death_time) ev now d =
    if leb (now - death_time) 120000
    then perform (emit (respawn now ev.pkg (now - death_time) ev.pid ev.uid ev.spawn_type)) d
    else d

unfoldable pub track_respawn : ProcStartEvent → ℕ → DaemonState → DaemonState
unfolding note_respawn
track_respawn ev now d =
    note_respawn (lookup ev.pkg d.recent_deaths) ev now
      (record d { recent_deaths = remove ev.pkg d.recent_deaths })

-- `entry(..).or_insert(now_epoch)`
unfoldable pub enter_alive : Text → ℕ → DaemonState → DaemonState
enter_alive pkg now d =
    if is_some (lookup pkg d.alive_apps)
    then d
    else record d { alive_apps = insert pkg now d.alive_apps }

-- The counters, the intrusion, the tables and the respawn: what precedes the test on the uid.
unfoldable pub register_process : World → ProcStartEvent → ℕ → DaemonState → DaemonState
unfolding read_statm_rss_kb count_spawn note_intrusion index_process track_respawn
register_process w ev now d =
    let rss = read_statm_rss_kb ((w.proc on_arrival).statm ev.pid) d.page_size_kb in
    let d1 = if is_pkg d.current_fg ev.pkg then d else count_spawn rss d in
    let intrudes = d1.is_gaming && not (is_top ev.spawn_type) in
    let d2 = if intrudes then note_intrusion ev rss now d1 else d1 in
    track_respawn ev now (index_process ev d2)

unfoldable pub on_proc_start : World → ProcStartEvent → ℕ → DaemonState → DaemonState
unfolding register_process enter_alive evaluate_reaping_pipeline
on_proc_start w ev now d =
    let d1 = register_process w ev now d in
    let d2 = enter_alive ev.pkg now d1 in
    if leb 10000 ev.uid
    then (if is_pkg d.current_fg ev.pkg || is_top ev.spawn_type
        then d2
        else evaluate_reaping_pipeline w now d2)
    else d1

-- `recent_deaths` is swept once it holds more than 64 packages.
unfoldable pub record_death : Text → ℕ → DaemonState → DaemonState
record_death pkg now d =
    let deaths = insert pkg now d.recent_deaths in
    record d {
      recent_deaths =
          if ltb 64 (length deaths)
          then retain_values (λ t. leb (now - t) 120000) deaths
          else deaths;
    }

unfoldable pub unlink : ℕ → Text → Option (List ℕ) → DaemonState → DaemonState
unlink pid pkg none d = d
unlink pid pkg (some pids) d =
    let left = discard pid pids in
    let d' = record d { pkg_to_pids = modify pkg (λ _. left) d.pkg_to_pids } in
    if is_empty left then record d' { alive_apps = remove pkg d.alive_apps } else d'

unfoldable pub count_death : DaemonState → DaemonState
count_death d = record d {
  session_stats = record d.session_stats { bg_deaths = add_u32 d.session_stats.bg_deaths 1 };
}

unfoldable pub forget_process : ℕ → Text → ℕ → DaemonState → DaemonState
unfolding unlink count_death record_death
forget_process pid pkg now d =
    let d0 = record d { pid_to_pkg = remove pid d.pid_to_pkg } in
    let d1 = unlink pid pkg (lookup pkg d.pkg_to_pids) d0 in
    let d2 = if is_pkg d.current_fg pkg then d1 else count_death d1 in record_death pkg now d2

unfoldable pub on_proc_died : ProcDiedEvent → ℕ → DaemonState → DaemonState
unfolding forget_process
on_proc_died ev now d = elim (lookup ev.pid d.pid_to_pkg) [
  | none ↦ d
  | some pkg ↦ forget_process ev.pid pkg now d
]
