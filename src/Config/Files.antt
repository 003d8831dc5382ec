-- ===== src/Config/Files.antt =====
-- src/config.rs, `ConfigPaths`, `DEFAULT_DAEMON_CONF` and the files that are made at the start. The
-- file system is the map from the paths of its files to their contents; whether a write succeeds is an
-- argument.
use mini_lmk.Base.{
  Bool, false, ◌==◌, Option, none, some, List, [], ◌∷◌, ◌++◌, if◌then◌else◌, Text, text_eq,
  is_empty, is_some,
}
use mini_lmk.Base.Map.{Map, lookup, insert}
use mini_lmk.Text.{codes, trim, trim_end_matches}

pub record ConfigPaths : Type 0 where
  pub base_dir : Text
  pub config_dir : Text
  pub logs_dir : Text
  pub config_file : Text
  pub exclude_file : Text
  pub games_file : Text
  pub operations_log : Text

-- `trim_end_matches('/')`
abbrev pub trim_slashes : Text → Text
trim_slashes s = trim_end_matches (λ c. c == b'/') s

unfoldable pub from_base : Text → ConfigPaths
unfolding trim_end_matches
from_base base =
    let base_dir = trim_slashes base in
    let config_dir = base_dir ++ codes "/config" in
    let logs_dir = base_dir ++ codes "/logs" in
    record {
      base_dir = base_dir;
      config_dir = config_dir;
      logs_dir = logs_dir;
      config_file = config_dir ++ codes "/daemon.conf";
      exclude_file = config_dir ++ codes "/exclude.list";
      games_file = config_dir ++ codes "/games.list";
      operations_log = logs_dir ++ codes "/operations.log";
    }

-- The base, from `$MODPATH`.
unfoldable pub base_of : Option Text → Text
unfolding trim trim_end_matches
base_of none = codes "/data/local/tmp/mlmk"
base_of (some p) =
    if is_empty (trim p)
    then codes "/data/local/tmp/mlmk"
    else trim_slashes (trim p) ++ codes "/mlmk"

-- `ConfigPaths::get`
unfoldable pub get_paths : Option Text → ConfigPaths
unfolding from_base base_of
get_paths modpath = from_base (base_of modpath)

abbrev pub unlines : List Text → Text
unlines [] = []
unlines (l ∷ ls) = l ++ (b'\n' ∷ unlines ls)

abbrev pub default_daemon_conf_lines : List Text
default_daemon_conf_lines =
    codes "# mini-lmk runtime configuration (daemon.conf)"
    ∷ codes "# Live-tunable parameters, reloaded automatically via inotify."
    ∷ codes ""
    ∷ codes "# Base background idle timeout before eviction eligibility (seconds)"
    ∷ codes "t_idle_sec = 180"
    ∷ codes ""
    ∷ codes "# Number of recently visited foreground packages immune from eviction"
    ∷ codes "lru_protect_depth = 3"
    ∷ codes ""
    ∷ codes "# Low-memory watermark triggering emergency T_idle=10s grace window."
    ∷ codes "# With kernel PSI (4.20+): percent of memory-stall time (some avg10). Otherwise:"
    ∷ codes "# percent of MemTotal (MemAvailable watermark). One knob, whichever backend answers."
    ∷ codes "# 0 disables the low-memory escalation entirely."
    ∷ codes "mem_critical_percent = 10"
    ∷ codes ""
    ∷ codes "# Maximum depth of the foreground history ring buffer"
    ∷ codes "fg_lru_max_depth = 10"
    ∷ codes ""
    ∷ codes "# Deep screen-off harvesting (F15/F16: ceilings t_idle at 30/60s and lru depth at 1 —"
    ∷ codes "# can only tighten the configured baseline, never loosen it)"
    ∷ codes "screen_off_harvest = true"
    ∷ codes ""
    ∷ codes "# Eviction burst cap: maximum background apps evicted per reap pass."
    ∷ codes "# Uncomment to override auto-scaling (<=4.5GB RAM -> 4, 4.5-8.5GB -> 2, >8.5GB -> 1)."
    ∷ codes "# max_kills_per_pass = 2"
    ∷ codes ""
    ∷ codes "# Minimum oom_score_adj threshold required for eviction (range: 500-900, default: 900)"
    ∷ codes "# 900: Conservative (cached & idle processes only; protects all background services)"
    ∷ codes
        "# 500: Aggressive (matches AOSP SERVICE_ADJ; reclaims background services for games/heavy loads)"
    ∷ codes "min_oom_score_adj = 900"
    ∷ codes ""
    ∷ codes "# Append NDJSON records to logs/operations.log. Telemetry only: kill decisions,"
    ∷ codes "# the terminal table, and the --json stream are unaffected."
    ∷ codes "log_enabled = true"
    ∷ []

abbrev pub default_daemon_conf : Text
default_daemon_conf = unlines default_daemon_conf_lines

abbrev pub FileSystem : Type 0
FileSystem = Map Text Text

abbrev pub exists : Text → FileSystem → Bool
exists path fs = is_some (lookup path fs)

-- `fs::write` of a file that does not exist.
unfoldable pub write_new : Bool → Text → Text → FileSystem → FileSystem
unfolding lookup insert
write_new write_ok path content fs =
    if exists path fs then fs else if write_ok then insert path content fs else fs

-- Whether the template was written, and the files behind it.
unfoldable pub ensure_default_file : Bool → Text → FileSystem → Bool × FileSystem
unfolding write_new
ensure_default_file write_ok path fs =
    (if exists path fs then false else write_ok, write_new write_ok path default_daemon_conf fs)

unfoldable pub ensure_default_files : Bool → ConfigPaths → FileSystem → Bool × FileSystem
unfolding ensure_default_file write_new
ensure_default_files write_ok paths fs =
    let fs1 =
      write_new write_ok paths.exclude_file
        (codes "# Package names excluded from eviction (one per line)\n") fs in
    let fs2 =
      write_new write_ok paths.games_file
        (codes "# Game package names monitored for game session mode (one per line)\n") fs1 in
    ensure_default_file write_ok paths.config_file fs2
