-- ===== src/Log.antt =====
-- src/daemon.rs, `DaemonState.telemetry`: what the handlers do to the sink of src/telemetry.rs.
pub mod Lines
pub mod Rotation
pub mod Kills
use mini_lmk.Base.{ℕ, List, [], ◌∷◌, Text, length}
use mini_lmk.Text.Utf8.{to_utf8}
use mini_lmk.State.{LogRecord, Action, emit, flush, log_switch, signal, launch, kill_child}
use mini_lmk.Telemetry.{TelemetrySink, FileReplies, set_log_enabled, emit_with}
use mini_lmk.Render.{to_json}

-- The bytes of the line of a record.
unfoldable pub line_of : LogRecord → Text
unfolding to_utf8 to_json
line_of r = to_utf8 (to_json r)

module _ (to_row : LogRecord → Text) where
  -- A flush writes out what the model counts as written. A signal or a child is none of the sink.
  unfoldable pub act_on_sink : FileReplies → Action → TelemetrySink → TelemetrySink
  unfolding emit_with line_of set_log_enabled
  act_on_sink replies (emit r) s = emit_with replies (to_utf8 (to_row r)) (line_of r) s
  act_on_sink replies flush s = s
  act_on_sink replies (log_switch on) s = set_log_enabled replies on s
  act_on_sink replies (signal pid reply) s = s
  act_on_sink replies (launch l) s = s
  act_on_sink replies (kill_child pid) s = s

  -- The sink behind the actions of a trace, whose latest is its first. What the file system answers
  -- at each action is an argument.
  unfoldable pub replay : (ℕ → FileReplies) → List Action → TelemetrySink → TelemetrySink
  unfolding act_on_sink
  replay replies [] s = s
  replay replies (a ∷ trace) s = act_on_sink (replies (length trace)) a (replay replies trace s)
