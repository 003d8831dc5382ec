-- ===== src/Telemetry.antt =====
-- src/telemetry.rs: the sink that the records go to. A line is the list of its bytes, and a file the
-- list of its lines; what is still in the buffer of the writer counts as written.
pub mod Escape
pub mod History
pub mod Cap
use mini_lmk.Base.{
  ℕ, suc, ◌+◌, ◌*◌, Bool, true, false, not, ◌&&◌, ◌||◌, Option, none, some, List, [], ◌∷◌, ◌++◌,
  leb, if◌then◌else◌, Text, length, add_u64, map_or,
}

abbrev pub rotation_threshold_bytes : ℕ
rotation_threshold_bytes = 512 * 1024

-- `operations.log` and `operations.log.old`.
pub record Disk : Type 0 where
  pub current : Option (List Text)
  pub old : Option (List Text)

-- What reaches stdout.
pub data Shown : Type 0 where
  json : Text → Shown
  row : Text → Shown

pub record TelemetrySink : Type 0 where
  -- Whether the writer is there.
  pub writer : Bool
  pub bytes_written : ℕ
  pub json_stdout : Bool
  pub stdout_tty : Bool
  pub disk : Disk
  -- The latest first.
  pub shown : List Shown

-- What the file system answers: to `open`, to `rename`, and to a write.
pub record FileReplies : Type 0 where
  pub open_ok : Bool
  pub rename_ok : Bool
  pub write_ok : Bool

abbrev pub size : List Text → ℕ
size [] = 0
size (line ∷ file) = suc (length line) + size file

-- `fs::metadata(path).len()`, or 0.
abbrev pub file_size : Option (List Text) → ℕ
file_size file = map_or file 0 size

abbrev pub lines_of : Option (List Text) → List Text
lines_of file = map_or file [] (λ ls. ls)

unfoldable pub open_file : FileReplies → TelemetrySink → TelemetrySink
open_file r s =
    if r.open_ok
    then record s {
      writer = true;
      disk = record s.disk { current = some (lines_of s.disk.current) };
    }
    else record s { writer = false }

-- The rename, which fails too if there is no file.
unfoldable pub move_log : Bool → Disk → Disk
move_log false d = d
move_log true d = elim d.current [ none ↦ d | some ls ↦ record { current = none; old = some ls } ]

unfoldable pub rotate : FileReplies → TelemetrySink → TelemetrySink
unfolding open_file move_log
rotate r s =
    let closed = record s { writer = false; disk = move_log r.rename_ok s.disk } in
    record (open_file r closed) { bytes_written = 0 }

unfoldable pub open_log : FileReplies → TelemetrySink → TelemetrySink
unfolding open_file rotate
open_log r s =
    let s' = record s { bytes_written = file_size s.disk.current } in
    if leb rotation_threshold_bytes s'.bytes_written then rotate r s' else open_file r s'

-- `TelemetrySink::with_stdout`, over the files that are there.
unfoldable pub with_stdout : FileReplies → Disk → Bool → Bool → Bool → TelemetrySink
unfolding open_log
with_stdout r d json_stdout log_enabled stdout_tty =
    let s : TelemetrySink = record {
      writer = false;
      bytes_written = file_size d.current;
      json_stdout = json_stdout;
      stdout_tty = stdout_tty;
      disk = d;
      shown = [];
    } in
    if log_enabled then open_log r s else s

abbrev pub same : Bool → Bool → Bool
same true b = b
same false b = not b

unfoldable pub set_log_enabled : FileReplies → Bool → TelemetrySink → TelemetrySink
unfolding open_log
set_log_enabled r on s =
    if same on s.writer then s else if on then open_log r s else record s { writer = false }

unfoldable pub silent : TelemetrySink → Bool
silent s = not s.writer && not s.json_stdout && not s.stdout_tty

unfoldable pub tabular_stdout : TelemetrySink → Bool
tabular_stdout s = not s.json_stdout && s.stdout_tty

unfoldable pub append_line : FileReplies → Text → TelemetrySink → TelemetrySink
append_line r line s =
    if s.writer && r.write_ok
    then record s {
      bytes_written = add_u64 s.bytes_written (suc (length line));
      disk = record s.disk { current = some (lines_of s.disk.current ++ line ∷ []) };
    }
    else s

unfoldable pub write_to_log : FileReplies → Text → TelemetrySink → TelemetrySink
unfolding rotate append_line
write_to_log r line s =
    let full = leb rotation_threshold_bytes (add_u64 s.bytes_written (suc (length line))) in
    if not s.writer then s else append_line r line (if full then rotate r s else s)

unfoldable pub show : Text → Text → TelemetrySink → TelemetrySink
unfolding tabular_stdout
show json_line tabular s =
    if s.json_stdout
    then record s { shown = json json_line ∷ s.shown }
    else if tabular_stdout s
    then record s { shown = row tabular ∷ s.shown }
    else s

-- The two renderings are made lazily in the source: a text that nothing reads is not made.
unfoldable pub emit_with : FileReplies → Text → Text → TelemetrySink → TelemetrySink
unfolding silent show write_to_log
emit_with r tabular made_json s =
    let json_line = if s.json_stdout || s.writer then made_json else [] in
    if silent s then s else write_to_log r json_line (show json_line tabular s)
