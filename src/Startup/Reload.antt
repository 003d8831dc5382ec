-- ===== src/Startup/Reload.antt =====
-- src/daemon.rs, `load_file_lines`, `reload_configs_from` and `emit_startup_record`.
use mini_lmk.Base.{
  ℕ, Bool, true, false, not, ◌&&◌, ◌||◌, Option, none, some, List, [], ◌∷◌, ◌==◌, eqb_ℤ,
  if◌then◌else◌, Text, text_eq, is_empty,
}
use mini_lmk.Base.Map.{add}
use mini_lmk.Text.{codes, trim, lines, starts_with}
use mini_lmk.Config.{RuntimeConfig, load_from_file}
use mini_lmk.State.{DaemonState, emit, flush, log_switch, config_reload, perform}

abbrev pub is_entry : Text → Bool
is_entry line = not (is_empty (trim line)) && not (starts_with (codes "#") (trim line))

unfoldable pub add_entries : List Text → List Text → List Text
unfolding trim starts_with add
add_entries [] set = set
add_entries (line ∷ rest) set =
    add_entries rest (if is_entry line then add (trim line) set else set)

-- The set is cleared, also where the file cannot be read.
unfoldable pub load_file_lines : Option Text → List Text
unfolding add_entries lines
load_file_lines none = []
load_file_lines (some content) = add_entries (lines content) []

abbrev pub eqb : Bool → Bool → Bool
eqb true b = b
eqb false b = not b

-- `==` of `RuntimeConfig`
abbrev pub eqb_config : RuntimeConfig → RuntimeConfig → Bool
eqb_config a b =
    a.t_idle_sec == b.t_idle_sec
    && a.lru_protect_depth == b.lru_protect_depth
    && a.mem_critical_percent == b.mem_critical_percent
    && a.fg_lru_max_depth == b.fg_lru_max_depth
    && eqb a.screen_off_harvest b.screen_off_harvest
    && a.max_kills_per_pass == b.max_kills_per_pass
    && eqb_ℤ a.min_oom_score_adj b.min_oom_score_adj
    && eqb a.log_enabled b.log_enabled

-- The three files, and the time of the reload.
pub record ConfigFiles : Type 0 where
  pub config_file : Option Text
  pub exclude_file : Option Text
  pub games_file : Option Text
  pub now : ℕ

unfoldable pub apply_files : ConfigFiles → DaemonState → DaemonState
unfolding load_from_file load_file_lines
apply_files f d = record d {
  config = load_from_file f.config_file d.config;
  user_exclusions = load_file_lines f.exclude_file;
  games = load_file_lines f.games_file;
}

-- The effective switch.
abbrev pub want_log : DaemonState → Bool
want_log d = d.config.log_enabled && not d.no_log_cli

unfoldable pub announce : Bool → ℕ → DaemonState → DaemonState
announce first_load now d =
    let d1 = if want_log d then perform (log_switch true) d else d in
    let d2 =
      if first_load
      then record d1 { startup_record = some (d.config, want_log d, now) }
      else perform (emit (config_reload d.config (want_log d) now)) d1 in
    if not (want_log d) then perform (log_switch false) d2 else perform flush d2

abbrev pub must_announce : ConfigFiles → DaemonState → Bool
must_announce f d = not (eqb_config (apply_files f d).config d.config) || not d.config_announced

unfoldable pub reload_configs_from : ConfigFiles → DaemonState → DaemonState
unfolding apply_files announce
reload_configs_from f d =
    let d1 = apply_files f d in
    if must_announce f d
    then announce (not d.config_announced) f.now (record d1 { config_announced = true })
    else d1

unfoldable pub emit_startup_record : DaemonState → DaemonState
emit_startup_record d = elim d.startup_record [
  | none ↦ d
  | some (cfg, want, ts) ↦
      perform flush
        (perform (emit (config_reload cfg want ts)) (record d { startup_record = none }))
]
