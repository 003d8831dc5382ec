-- ===== src/Stream.antt =====
-- src/daemon.rs, `drain_logcat_lines` and `dispatch_logcat_line`: the bytes of the logcat pipe become
-- lines, and each line becomes an event.
pub mod Chunks
use mini_lmk.Base.{
  ℕ, suc, Bool, true, false, not, ◌&&◌, ◌||◌, Option, none, some, List, [], ◌∷◌, ◌++◌, ltb, ◌==◌,
  if◌then◌else◌, Text, length, is_empty,
}
use mini_lmk.Text.{codes, trim, strip_cr, starts_with}
use mini_lmk.Text.Utf8.{from_utf8}
use mini_lmk.State.{DaemonState, World}
use mini_lmk.Daemon.{dispatch_event}
use mini_lmk.Parser.Line.{parse_logcat_line}

-- The bytes of the complete lines, without their line feeds, and the bytes behind the last of them.
unfoldable pub cut_lines : List ℕ → List ℕ → List (List ℕ) × List ℕ
cut_lines line [] = ([], line)
cut_lines line (b ∷ bs) =
    let (lines, rest) = cut_lines (if b == b'\n' then [] else line ++ b ∷ []) bs in
    if b == b'\n' then (line ∷ lines, rest) else (lines, rest)

-- The text of a line, if it is handed on.
unfoldable pub clean_line : List ℕ → Option Text
unfolding strip_cr starts_with from_utf8 trim
clean_line raw =
    let line = strip_cr raw in
    if is_empty line || starts_with (codes "---") line then none else elim (from_utf8 line) [
      | none ↦ none
      | some s ↦ if is_empty (trim s) then none else some (trim s)
    ]

unfoldable pub clean_lines : List (List ℕ) → List Text
unfolding clean_line
clean_lines [] = []
clean_lines (raw ∷ raws) =
    let rest = clean_lines raws in elim (clean_line raw) [ none ↦ rest | some s ↦ s ∷ rest ]

-- More than 8192 bytes have come without a line feed.
unfoldable pub oversized : List ℕ → List ℕ → Bool
unfolding cut_lines
oversized buf incoming =
    let bytes = buf ++ incoming in is_empty (cut_lines [] bytes).0 && ltb 8192 (length bytes)

-- The lines that are handed on, and the buffer behind them.
unfoldable pub drain_logcat_lines : List ℕ → List ℕ → List Text × List ℕ
unfolding cut_lines clean_lines oversized
drain_logcat_lines buf incoming =
    let (raws, rest) = cut_lines [] (buf ++ incoming) in
    (clean_lines raws, if oversized buf incoming then [] else rest)

unfoldable pub dispatch_logcat_line : (ℕ → Bool) → World → Text → DaemonState → DaemonState
unfolding parse_logcat_line dispatch_event
dispatch_logcat_line alphabetic w line d = elim (parse_logcat_line alphabetic line) [
  | none ↦ d
  | some (now, ev) ↦ dispatch_event w now ev d
]

-- The reader of the pipe: its buffer, how many lines it has handed on, and the daemon.
pub record Reader : Type 0 where
  pub buf : List ℕ
  pub handed : ℕ
  pub daemon : DaemonState

-- What the system answers depends on the line: the worlds are numbered.
unfoldable pub dispatch_lines :
    (ℕ → Bool) → (ℕ → World) → List Text → ℕ → DaemonState → ℕ × DaemonState
unfolding dispatch_logcat_line
dispatch_lines alphabetic worlds [] n d = (n, d)
dispatch_lines alphabetic worlds (line ∷ lines) n d =
    dispatch_lines alphabetic worlds lines (suc n)
      (dispatch_logcat_line alphabetic (worlds n) line d)

-- One `read` of the pipe.
unfoldable pub read_chunk : (ℕ → Bool) → (ℕ → World) → List ℕ → Reader → Reader
unfolding drain_logcat_lines dispatch_lines
read_chunk alphabetic worlds chunk r =
    let (lines, rest) = drain_logcat_lines r.buf chunk in
    let (n, d) = dispatch_lines alphabetic worlds lines r.handed r.daemon in
    record { buf = rest; handed = n; daemon = d }
