-- ===== src/Tests/Render.antt =====
-- The lines of the records of src/kill.rs and src/daemon.rs, the files that src/config.rs makes, and
-- the child of src/spawn.rs, at small inputs.
use mini_lmk.Base.{
  ℕ, true, false, ◌≡◌, refl, some, none, [], ◌∷◌, ◌++◌, Text, text_eq, text_beq, pos, negsuc, arith,
  all, leb, ltb, if◌then◌else◌, ◌==◌, ◌+◌, ◌≤◌,
}
use mini_lmk.Base.Map.{lookup}
use mini_lmk.Text.{codes, contains_char}
use mini_lmk.Config.{default_config, load_from_file}
use mini_lmk.Config.Files.{from_base, FileSystem, ensure_default_files}
use mini_lmk.Config.Template.{
  paths, defaults_but_burst, ensure_default_files-keeps, ensure_default_files-loads,
}
use mini_lmk.Spawn.Child.{Files, refused, child_files, child_files_lem}
use mini_lmk.State.{
  LogRecord, kill_decision, config_reload, kill_skipped, low_memory_escalation, ams,
}
use mini_lmk.Render.{to_json, record_time, record_fields, number}
use mini_lmk.Render.Reads.{read_object, read_object-to_json}
use mini_lmk.Render.Lines.{to_json-Visible}

abbrev skipped : LogRecord
skipped = kill_decision (record {
  ts = 1700000000000;
  event = kill_skipped;
  pkg = codes "com.\"one\"";
  pids = 11 ∷ 1200 ∷ [];
  rss_freed_est_kb = 20480;
  reason = low_memory_escalation;
  idle_sec = 45;
  lru_pos = 3;
  spawn_errno = some (negsuc 1);
  oom_score_adj = pos 700;
  ams_protected = true;
  method = ams;
})

skipped_line :
    to_json skipped
    ≡ codes "{\"ts\":1700000000000,\"event\":\"kill_skipped\",\"pkg\":\"com.\\\"one\\\"\","
      ++ codes "\"pids\":[11, 1200],\"rss_freed_est_kb\":20480,"
      ++ codes "\"reason\":\"low_memory_escalation\",\"idle_sec\":45,\"lru_pos\":3,"
      ++ codes "\"spawn_errno\":-2,\"oom_score_adj\":700,\"ams_protected\":true,"
      ++ codes "\"spawn_skipped\":true,\"method\":\"ams\"}"
unfolding to_json
skipped_line = refl

reload_line :
    to_json (config_reload default_config false 17)
    ≡ codes "{\"ts\":17,\"event\":\"config_reload\",\"t_idle_sec\":180,\"lru_protect_depth\":3,"
      ++ codes "\"mem_critical_percent\":10,\"fg_lru_max_depth\":10,\"screen_off_harvest\":true,"
      ++ codes "\"max_kills_per_pass\":2,\"min_oom_score_adj\":900,\"log_enabled\":false}"
unfolding to_json
reload_line = refl

read_object-to_json_example :
    read_object (to_json skipped ++ codes "x")
    ≡ some ((codes "ts", number (record_time skipped)) ∷ record_fields skipped, codes "x")
read_object-to_json_example = read_object-to_json skipped (codes "x")

to_json-Visible_example :
    (all (λ c. leb 0x20 c) (to_json skipped) ≡ true)
    × (contains_char b'\n' (to_json skipped) ≡ false)
to_json-Visible_example = to_json-Visible skipped

abbrev base : Text
base = codes "/data/mlmk/"

abbrev disk : FileSystem
disk = (codes "/data/mlmk/config/games.list", codes "com.game") ∷ []

no_conf : lookup (paths base).config_file disk ≡ none
unfolding lookup text_beq from_base
no_conf = refl

ensure_default_files-keeps_example :
    (lookup (codes "/data/mlmk/config/games.list") (ensure_default_files true (paths base) disk).1
      ≡ some (codes "com.game"))
    × (ensure_default_files true (paths base) (ensure_default_files true (paths base) disk).1
        ≡ (false, (ensure_default_files true (paths base) disk).1))
unfolding lookup text_beq
ensure_default_files-keeps_example =
    ensure_default_files-keeps base disk true (codes "/data/mlmk/config/games.list")
      (codes "com.game") refl

ensure_default_files-loads_example :
    load_from_file
      (lookup (paths base).config_file (ensure_default_files true (paths base) disk).1)
      default_config
    ≡ defaults_but_burst default_config
ensure_default_files-loads_example = ensure_default_files-loads base disk default_config no_conf

-- A launcher that left the three streams and descriptor 5 open; the daemon's `/dev/null` is 4.
abbrev inherited : Files
inherited fd =
    if ltb fd 3
    then some (record { file = 70 + fd; cloexec = false })
    else if fd == 4
    then some (record { file = 1; cloexec = true })
    else if fd == 5
    then some (record { file = 99; cloexec = false })
    else none

none_beyond : (fd : ℕ) → 3 ≤ fd → 256 ≤ fd → inherited fd ≡ none
none_beyond fd h k =
    let a : ltb fd 3 ≡ false = ground arith in
    let b : (fd == 4) ≡ false = ground arith in
    let c : (fd == 5) ≡ false = ground arith in rw (a, b, c) refl

child_files_lem_example :
    child_files 4 refused none inherited ≡ some (λ fd. if ltb fd 3 then some 1 else none)
child_files_lem_example =
    child_files_lem 4 (record { file = 1; cloexec = true }) refused none inherited (omega arith)
      refl none_beyond
