-- ===== src/Tests/Log.antt =====
-- The theorems on the log and on the rows of a terminal, at a pass over two candidates.
use mini_lmk.Base.{
  ℕ, false, ◌*◌, ◌/◌, ◌%◌, true, ◌≡◌, refl, some, none, List, [], ◌∷◌, ◌++◌, Text, arith, take,
  drop,
}
use mini_lmk.Text.{codes}
use mini_lmk.Config.{default_config}
use mini_lmk.State.{LogRecord, respawn, config_reload, fg_switch, emit, flush, log_switch, Action}
use mini_lmk.Telemetry.{TelemetrySink, FileReplies}
use mini_lmk.Render.{record_time}
use mini_lmk.Render.Json.{show_ℕ}
use mini_lmk.Render.Columns.{ClockTime, pad, to_row, target_of, detail_of}
use mini_lmk.Render.Rows.{column, value, target_column, to_row-time, to_row-Columns}
use mini_lmk.Log.{replay}
use mini_lmk.Log.Lines.{Told, replay-Told}
use mini_lmk.Tests.Fixtures.{app_one, app_fg}

-- Greenwich.
abbrev local : ℕ → ClockTime
local s = record { tm_hour = s / 3600 % 24; tm_min = s / 60 % 60; tm_sec = s % 60 }

abbrev decimal : ℕ → ℕ → Text
decimal a b = show_ℕ (a / b) ++ codes "." ++ show_ℕ (a * 10 / b % 10)

abbrev started : LogRecord
started = respawn 1700000000123 app_one 5000 4321 10100 (codes "service")

started_row :
    to_row decimal local started
    ≡ codes
        "22:13:20.123   RESPAWN      com.one                    gap=5000ms  pid=4321  type=service"
unfolding to_row
started_row = refl

switched_row :
    to_row decimal local (fg_switch 1700000000123 app_fg app_fg (some app_one) 2500 true)
    ≡ codes "22:13:20.123   FG_SWITCH    com.fg                     prev=com.one (2.5s) [GAME]"
unfolding to_row
switched_row = refl

-- The name is one character longer than its column.
reload_row :
    take 60 (to_row decimal local (config_reload default_config true 1700000000123))
    ≡ codes "22:13:20.123   CONFIG_RELOAD --                         t_id"
unfolding to_row
reload_row = refl

to_row-time_example :
    (value (column 0 2 (to_row decimal local started)) ≡ 22)
    × (value (column 3 2 (to_row decimal local started)) ≡ 13)
    × (value (column 6 2 (to_row decimal local started)) ≡ 20)
    × (value (column 9 3 (to_row decimal local started)) ≡ 123)
unfolding record_time
to_row-time_example = to_row-time decimal local started (omega arith, omega arith, omega arith)

to_row-Columns_example :
    (take 26 (drop (target_column started) (to_row decimal local started)) ≡ pad 26 app_one)
    × (drop 27 (drop (target_column started) (to_row decimal local started))
        ≡ detail_of decimal started)
unfolding target_of
to_row-Columns_example = to_row-Columns decimal local started (omega arith)

abbrev willing : FileReplies
willing = record { open_ok = true; rename_ok = true; write_ok = true }

abbrev sink : TelemetrySink
sink = record {
  writer = true;
  bytes_written = 3;
  json_stdout = false;
  stdout_tty = false;
  disk = record { current = some (codes "{}" ∷ []); old = none };
  shown = [];
}

abbrev deeds : List Action
deeds = flush ∷ emit started ∷ log_switch true ∷ emit started ∷ []

replay-Told_example : Told deeds sink (replay (to_row decimal local) (λ n. willing) deeds sink)
replay-Told_example =
    replay-Told (to_row decimal local) (λ n. willing) (λ n. (refl, refl, refl)) deeds sink refl
      (refl, (codes "{}" ∷ [], refl))
