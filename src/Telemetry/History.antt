-- ===== src/Telemetry/History.antt =====
-- src/telemetry.rs, `emit_with` and `write_to_log`: what the log holds, and what stdout shows.
use mathlib.Core.List.{append_assoc, append-nil}
use mini_lmk.Base.{
  suc, true, false, not, ◌&&◌, ◌||◌, ◌≡◌, refl, sym, ◌∙◌, ap, inl, inr, some, List, [], ◌∷◌, ◌++◌,
  leb, if◌then◌else◌, Text, length, add_u64, arith, Bool-cases,
}
use mini_lmk.Telemetry.{
  rotation_threshold_bytes, json, row, TelemetrySink, FileReplies, lines_of, open_file, move_log,
  rotate, append_line, write_to_log, show, silent, tabular_stdout, emit_with,
}

-- One record handed to the sink: its two renderings, and what the file system answers meanwhile.
pub record Emission : Type 0 where
  pub tabular : Text
  pub made_json : Text
  pub replies : FileReplies

unfoldable pub emit_all : List Emission → TelemetrySink → TelemetrySink
emit_all [] s = s
emit_all (e ∷ es) s = emit_all es (emit_with e.replies e.tabular e.made_json s)

-- The lines of the two files, the oldest first.
abbrev pub history : TelemetrySink → List Text
history s = lines_of s.disk.old ++ lines_of s.disk.current

abbrev pub made : List Emission → List Text
made [] = []
made (e ∷ es) = e.made_json ∷ made es

-- The file system does what it is asked.
abbrev pub Willing : FileReplies → Type 0
Willing r = (r.open_ok ≡ true) × (r.rename_ok ≡ true) × (r.write_ok ≡ true)

abbrev pub AllWilling : List Emission → Type 0
AllWilling [] = Unit
AllWilling (e ∷ es) = Willing e.replies × AllWilling es

-- The log is open, and its file is there.
abbrev pub Logging : TelemetrySink → Type 0
Logging s = (s.writer ≡ true) × ((ls : List Text) × (s.disk.current ≡ some ls))

-- The history grew by one line at its end, and lost at most lines at its front.
pub record Grown (line : Text) (s e : TelemetrySink) : Type 0 where
  pub still : Logging e
  pub lost : List Text
  pub grown : lost ++ history e ≡ history s ++ line ∷ []

write_open :
    (r : FileReplies) (line : Text) (s : TelemetrySink)
    → Willing r
    → Logging s
    → Grown line s (write_to_log r line s)
unfolding write_to_log append_line rotate open_file move_log
write_open r line s (o, n, k) (on, (ls, c)) =
    elim (Bool-cases (leb rotation_threshold_bytes (add_u64 s.bytes_written (suc (length line))))) [
      | inl e ↦
          rw (e, o, n, k, on, c)
            (record {
              still = (refl, (line ∷ [], refl));
              lost = lines_of s.disk.old;
              grown = sym (append_assoc (lines_of s.disk.old) ls (line ∷ []));
            })
      | inr e ↦
          rw (e, k, on, c)
            (record {
              still = (refl, (ls ++ line ∷ [], refl));
              lost = [];
              grown = sym (append_assoc (lines_of s.disk.old) ls (line ∷ []));
            })
    ]

pub show-disk :
    (json_line tabular : Text) (s : TelemetrySink) → (show json_line tabular s).disk ≡ s.disk
unfolding show
show-disk json_line tabular s = ground arith

pub show-writer :
    (json_line tabular : Text) (s : TelemetrySink) → (show json_line tabular s).writer ≡ s.writer
unfolding show
show-writer json_line tabular s = ground arith

pub emit_with_open :
    (r : FileReplies) (tabular made_json : Text) (s : TelemetrySink)
    → s.writer ≡ true
    → emit_with r tabular made_json s ≡ write_to_log r made_json (show made_json tabular s)
unfolding emit_with silent
emit_with_open r tabular made_json s on =
    let a : (not s.writer && not s.json_stdout && not s.stdout_tty) ≡ false = ground (arith, on) in
    let b : (s.json_stdout || s.writer) ≡ true = ground (arith, on) in rw (a, b) refl

-- An open log gets the record.
pub emit_open :
    (e : Emission) (s : TelemetrySink)
    → Willing e.replies
    → Logging s
    → Grown e.made_json s (emit_with e.replies e.tabular e.made_json s)
emit_open e s w (on, (ls, c)) =
    let shown = show e.made_json e.tabular s in
    let d = show-disk e.made_json e.tabular s in
    let g : Grown e.made_json shown (write_to_log e.replies e.made_json shown) =
      write_open e.replies e.made_json shown w
        (show-writer e.made_json e.tabular s ∙ on, (ls, ap (λ x. x.current) d ∙ c)) in
    rw (emit_with_open e.replies e.tabular e.made_json s on) (record {
      still = g.still;
      lost = g.lost;
      grown = g.grown ∙ ap (λ x. (lines_of x.old ++ lines_of x.current) ++ e.made_json ∷ []) d;
    })

-- While the file system does what it is asked, an open log loses no record but the oldest: behind
-- any sequence of records, the lines of the rotated file and of the log are the lines that there
-- were followed by the records in their order, less some at the front.
pub history-emit_all :
    (es : List Emission) (s : TelemetrySink)
    → AllWilling es
    → Logging s
    → (lost : List Text) × (lost ++ history (emit_all es s) ≡ history s ++ made es)
unfolding emit_all
history-emit_all [] s w l = ([], sym (append-nil (history s)))
history-emit_all (e ∷ es) s w l =
    let s' = emit_with e.replies e.tabular e.made_json s in
    let g = emit_open e s w.0 l in
    let (lost, k) = history-emit_all es s' w.1 g.still in
    (
      g.lost ++ lost,
      append_assoc g.lost lost (history (emit_all es s'))
          ∙ ap (λ x. g.lost ++ x) k
          ∙ sym (append_assoc g.lost (history s') (made es))
          ∙ ap (λ x. x ++ made es) g.grown
          ∙ append_assoc (history s) (e.made_json ∷ []) (made es),
    )

-- What stdout shows of a record: its JSON line under `--json`, else its row on a terminal, else
-- nothing, whatever the state of the log.
pub emit_with-shown :
    (r : FileReplies) (tabular made_json : Text) (s : TelemetrySink)
    → (emit_with r tabular made_json s).shown ≡ (
        if s.json_stdout
        then json made_json ∷ s.shown
        else if s.stdout_tty
        then row tabular ∷ s.shown
        else s.shown)
unfolding emit_with silent show tabular_stdout write_to_log append_line rotate open_file
emit_with-shown r tabular made_json s = ground arith
