-- ===== src/Tests/Telemetry.antt =====
-- The theorems on src/telemetry.rs and on the start-up of src/daemon.rs, at small inputs.
use mini_lmk.Base.{
  ℕ, true, false, ◌||◌, ◌≡◌, ◌≢◌, ◌⊎◌, refl, inl, some, none, List, [], ◌∷◌, ◌++◌, Text, text_eq,
  arith,
}
use mini_lmk.Base.Map.{contains}
use mini_lmk.Text.{codes}
use mini_lmk.State.{is_pkg, is_excluded}
use mini_lmk.Telemetry.{TelemetrySink, FileReplies}
use mini_lmk.Telemetry.Escape.{plain, read_string, escape_json, read_string-escape_json}
use mini_lmk.Telemetry.History.{Emission, emit_all}
use mini_lmk.Telemetry.Cap.{Capped, emit_all-Capped}
use mini_lmk.Config.{default_config, load_from_file}
use mini_lmk.State.{DaemonState}
use mini_lmk.Startup.Reload.{ConfigFiles, reload_configs_from, emit_startup_record}
use mini_lmk.Startup.Announce.{
  announcement, owed, HeldFor, Announces, Silent, reload_configs_from-announced,
  emit_startup_record-announced,
}
use mini_lmk.Startup.Exclusions.{lists, is_excluded-reload_configs_from}
use mini_lmk.Stream.{Reader, oversized, drain_logcat_lines, read_chunk}
use mini_lmk.Stream.Chunks.{read_chunk-append}
use mini_lmk.Tests.Fixtures.{phone, world, app_one}

abbrev quoted : Text
quoted = codes "a\"b\\c"

read_string-escape_json_example :
    read_string plain (escape_json quoted ++ b'"' ∷ codes "}") ≡ some (quoted, codes "}")
read_string-escape_json_example = read_string-escape_json quoted (codes "}")

abbrev sink : TelemetrySink
sink = record {
  writer = true;
  bytes_written = 3;
  json_stdout = false;
  stdout_tty = true;
  disk = record { current = some (codes "{}" ∷ []); old = none };
  shown = [];
}

abbrev willing : FileReplies
willing = record { open_ok = true; rename_ok = true; write_ok = true }

abbrev records : List Emission
records =
    record { tabular = codes "row"; made_json = codes "{1}"; replies = willing }
    ∷ record { tabular = codes "row"; made_json = codes "{2}"; replies = willing }
    ∷ []

emit_all-Capped_example : Capped (emit_all records sink)
emit_all-Capped_example =
    emit_all-Capped records sink ((omega arith, refl, (omega arith, refl, tt)))
      (refl, inl (omega arith))

abbrev files : ConfigFiles
files = record {
  config_file = some (codes "t_idle_sec = 60");
  exclude_file = some (codes "# spared\ncom.one");
  games_file = none;
  now = 1700000000000;
}

reload_configs_from-announced_example :
    ((phone.config_announced ≡ false)
      × HeldFor
          (announcement files phone.no_log_cli phone.config)
          phone
          (reload_configs_from files phone))
    ⊎ (((phone.config_announced ≡ true)
          × (load_from_file files.config_file phone.config ≢ phone.config)
          × Announces
              (announcement files phone.no_log_cli phone.config)
              phone
              (reload_configs_from files phone))
        ⊎ ((phone.config_announced ≡ true)
            × (load_from_file files.config_file phone.config ≡ phone.config)
            × Silent phone (reload_configs_from files phone)))
reload_configs_from-announced_example = reload_configs_from-announced files phone

-- The record of the first load is held.
abbrev waiting : DaemonState
waiting = record phone {
  config_announced = true;
  startup_record = some (default_config, true, 1700000000000);
}

emit_startup_record-announced_example :
    (owed (emit_startup_record waiting) ≡ owed waiting)
    × ((emit_startup_record waiting).startup_record ≡ none)
emit_startup_record-announced_example = emit_startup_record-announced waiting

is_excluded-reload_configs_from_example :
    is_excluded (reload_configs_from files phone) app_one
    ≡ (lists app_one files.exclude_file || contains app_one [] || is_pkg phone.current_fg app_one)
is_excluded-reload_configs_from_example = is_excluded-reload_configs_from files phone app_one

abbrev reader : Reader
reader = record { buf = []; handed = 0; daemon = phone }

abbrev half : List ℕ
half = codes "1695411709.231 1 1 I am_proc_d"

abbrev rest : List ℕ
rest = codes "ied: [0,11,com.one,900,x]\n16"

half_fits : oversized [] half ≡ false
unfolding oversized
half_fits = refl

rest_fits : oversized (drain_logcat_lines [] half).1 rest ≡ false
unfolding oversized drain_logcat_lines
rest_fits = refl

read_chunk-append_example :
    read_chunk (λ _. false) (λ _. world) (half ++ rest) reader
    ≡ read_chunk (λ _. false) (λ _. world) rest (read_chunk (λ _. false) (λ _. world) half reader)
read_chunk-append_example =
    read_chunk-append (λ _. false) (λ _. world) half rest reader half_fits rest_fits
