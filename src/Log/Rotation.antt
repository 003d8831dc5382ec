-- ===== src/Log/Rotation.antt =====
-- src/telemetry.rs, `write_to_log`: the log rotates at most once while less than half a mebibyte is
-- written.
use mathlib.Core.List.{append_assoc, append-nil}
use mini_lmk.Base.{
  ℕ, suc, ◌+◌, ◌<◌, ◌≤◌, true, false, ◌≡◌, ◌⊎◌, refl, sym, ◌∙◌, ap, inl, inr, some, List, [], ◌∷◌,
  ◌++◌, leb, Text, length, add_u64, ◌%◌, two_64, arith, Bool-cases,
}
use mini_lmk.Text.Utf8.{to_utf8}
use mini_lmk.State.{LogRecord, Action, emit, flush, log_switch, signal, launch, kill_child}
use mini_lmk.Telemetry.{
  rotation_threshold_bytes, TelemetrySink, FileReplies, lines_of, size, open_file, move_log, rotate,
  append_line, write_to_log, show, tabular_stdout,
}
use mini_lmk.Telemetry.History.{history, Willing, Logging, show-disk, show-writer, emit_with_open}
use mini_lmk.Telemetry.Cap.{size-append}
use mini_lmk.Log.{line_of, act_on_sink, replay}
use mini_lmk.Log.Lines.{told, stays_on, switched_on, still_on}

-- From a log with the lines `ls` on, the lines `t` were written and the log did not rotate.
record Unrotated (ls t : List Text) (s e : TelemetrySink) : Type 0 where
  on : e.writer ≡ true
  current_is : e.disk.current ≡ some (ls ++ t)
  old_is : e.disk.old ≡ s.disk.old

-- Or it rotated once, before the lines `ys`.
record Rotated (ls t : List Text) (e : TelemetrySink) : Type 0 where
  on : e.writer ≡ true
  xs : List Text
  ys : List Text
  split : t ≡ xs ++ ys
  current_is : e.disk.current ≡ some ys
  old_is : e.disk.old ≡ some (ls ++ xs)
  count_is : e.bytes_written ≡ size ys

abbrev Span : List Text → List Text → TelemetrySink → TelemetrySink → Type 0
Span ls t s e = Unrotated ls t s e ⊎ Rotated ls t e

no_wrap : (m : ℕ) → m < 524288 → m % two_64 ≡ m
no_wrap m h = omega (arith, h)

fits :
    (n : ℕ) (line : Text)
    → n + suc (length line) < 524288
    → leb rotation_threshold_bytes (add_u64 n (suc (length line))) ≡ false
fits n line h = ground (arith, h, no_wrap (n + suc (length line)) h)

module _ (r : FileReplies) (w : Willing r) (line : Text) (ls t : List Text)
    (s e : TelemetrySink) where
  write-Unrotated :
      Unrotated ls t s e
      → size (t ++ line ∷ []) < 524288
      → Span ls (t ++ line ∷ []) s (write_to_log r line e)
  unfolding write_to_log append_line rotate open_file move_log
  write-Unrotated h b =
      let (o, n, k) = w in
      let a = size-append t (line ∷ []) in
      let wrapped : ((0 + suc (length line)) % two_64) ≡ size (line ∷ []) =
        no_wrap (0 + suc (length line)) (omega (arith, b, a)) ∙ omega arith in
      elim (Bool-cases
        (leb rotation_threshold_bytes (add_u64 e.bytes_written (suc (length line))))) [
          | inl full ↦
              rw (full, o, n, k, h.on, h.current_is)
                (inr (record {
                  on = refl;
                  xs = t;
                  ys = line ∷ [];
                  split = refl;
                  current_is = refl;
                  old_is = refl;
                  count_is = wrapped;
                }))
          | inr room ↦
              rw (room, k, h.on, h.current_is)
                (inl (record {
                  on = refl;
                  current_is = ap some (append_assoc ls t (line ∷ []));
                  old_is = h.old_is;
                }))
        ]

  write-Rotated :
      Rotated ls t e
      → size (t ++ line ∷ []) < 524288
      → Rotated ls (t ++ line ∷ []) (write_to_log r line e)
  unfolding write_to_log append_line rotate open_file move_log
  write-Rotated h b =
      let (o, n, k) = w in
      let a = size-append t (line ∷ []) in
      let q = ap size h.split in
      let p = size-append h.xs h.ys in
      let y = h.count_is in
      let c : e.bytes_written + suc (length line) < 524288 = omega (arith, a, b, q, p, y) in
      let room = fits e.bytes_written line c in
      rw (room, k, h.on, h.current_is)
        (record {
          on = refl;
          xs = h.xs;
          ys = h.ys ++ line ∷ [];
          split = ap (λ x. x ++ line ∷ []) h.split ∙ append_assoc h.xs h.ys (line ∷ []);
          current_is = refl;
          old_is = h.old_is;
          count_is =
              no_wrap (e.bytes_written + suc (length line)) c
              ∙ omega (arith, y, size-append h.ys (line ∷ []));
        })

show-bytes :
    (json_line tabular : Text) (e : TelemetrySink)
    → (show json_line tabular e).bytes_written ≡ e.bytes_written
unfolding show tabular_stdout
show-bytes json_line tabular e = ground arith

-- What is shown on stdout is none of the files.
show-Span :
    (json_line tabular : Text) (ls t : List Text) (s e : TelemetrySink)
    → Span ls t s e
    → Span ls t s (show json_line tabular e)
show-Span json_line tabular ls t s e (inl h) =
    let d = show-disk json_line tabular e in
    inl (record {
      on = show-writer json_line tabular e ∙ h.on;
      current_is = ap (λ x. x.current) d ∙ h.current_is;
      old_is = ap (λ x. x.old) d ∙ h.old_is;
    })
show-Span json_line tabular ls t s e (inr h) =
    let d = show-disk json_line tabular e in
    inr (record {
      on = show-writer json_line tabular e ∙ h.on;
      xs = h.xs;
      ys = h.ys;
      split = h.split;
      current_is = ap (λ x. x.current) d ∙ h.current_is;
      old_is = ap (λ x. x.old) d ∙ h.old_is;
      count_is = show-bytes json_line tabular e ∙ h.count_is;
    })

Span-logging : (ls t : List Text) (s e : TelemetrySink) → Span ls t s e → e.writer ≡ true
Span-logging ls t s e (inl h) = h.on
Span-logging ls t s e (inr h) = h.on

Span-Logging : (ls t : List Text) (s e : TelemetrySink) → Span ls t s e → Logging e
Span-Logging ls t s e (inl h) = (h.on, (ls ++ t, h.current_is))
Span-Logging ls t s e (inr h) = (h.on, (h.ys, h.current_is))

write-Span :
    (r : FileReplies) (w : Willing r) (line : Text) (ls t : List Text) (s e : TelemetrySink)
    → size (t ++ line ∷ []) < 524288
    → Span ls t s e
    → Span ls (t ++ line ∷ []) s (write_to_log r line e)
write-Span r w line ls t s e b (inl h) = write-Unrotated r w line ls t s e h b
write-Span r w line ls t s e b (inr h) = inr (write-Rotated r w line ls t s e h b)

told-grows : (a : Action) (trace : List Action) → size (told trace) ≤ size (told (a ∷ trace))
told-grows (emit r) trace = omega (arith, size-append (told trace) (line_of r ∷ []))
told-grows flush trace = omega arith
told-grows (log_switch on) trace = omega arith
told-grows (signal pid reply) trace = omega arith
told-grows (launch l) trace = omega arith
told-grows (kill_child pid) trace = omega arith

module _ (to_row : LogRecord → Text) (replies : ℕ → FileReplies)
    (willing : (n : ℕ) → Willing (replies n)) (ls : List Text) (s : TelemetrySink) where
  Span-act :
      (a : Action) (trace : List Action) (m : TelemetrySink)
      → stays_on (a ∷ trace) ≡ true
      → size (told (a ∷ trace)) < 524288
      → Span ls (told trace) s m
      → Span ls (told (a ∷ trace)) s (act_on_sink to_row (replies (length trace)) a m)
  unfolding act_on_sink
  Span-act (emit r) trace m h b k =
      let answers = replies (length trace) in
      let row = to_utf8 (to_row r) in
      rw (emit_with_open answers row (line_of r) m (Span-logging ls (told trace) s m k)) (
        write-Span answers (willing (length trace)) (line_of r) ls (told trace) s
          (show (line_of r) row m) b (show-Span (line_of r) row ls (told trace) s m k))
  Span-act flush trace m h b k = k
  Span-act (log_switch true) trace m h b k =
      rw
        (switched_on to_row replies willing (replies (length trace)) m
          (Span-Logging ls (told trace) s m k))
        k
  Span-act (log_switch false) trace m h b k = absurd (ground (arith, h))
  Span-act (signal pid reply) trace m h b k = k
  Span-act (launch x) trace m h b k = k
  Span-act (kill_child pid) trace m h b k = k

  replay-Span :
      (trace : List Action)
      → stays_on trace ≡ true
      → size (told trace) < 524288
      → s.writer ≡ true
      → s.disk.current ≡ some ls
      → Span ls (told trace) s (replay to_row replies trace s)
  unfolding replay
  replay-Span [] h b on c =
      inl (record { on = on; current_is = c ∙ ap some (sym (append-nil ls)); old_is = refl })
  replay-Span (a ∷ trace) h b on c =
      let g = told-grows a trace in
      Span-act a trace (replay to_row replies trace s) h b
        (replay-Span trace (still_on to_row replies willing a trace h) (omega (arith, g, b)) on c)

  -- Where less than half a mebibyte is told, all of it is in the log and the rotated file, behind what
  -- there was, or, if the log rotated, behind the lines of the log alone.
  pub replay-kept :
      (trace : List Action)
      → stays_on trace ≡ true
      → size (told trace) < 524288
      → s.writer ≡ true
      → s.disk.current ≡ some ls
      → (history (replay to_row replies trace s) ≡ history s ++ told trace)
        ⊎ (history (replay to_row replies trace s) ≡ lines_of s.disk.current ++ told trace)
  replay-kept trace h b on c =
      let e = replay to_row replies trace s in
      elim (replay-Span trace h b on c) [
        | inl k ↦ inl (
            ap (λ x. lines_of x ++ lines_of e.disk.current) k.old_is
            ∙ ap (λ x. lines_of s.disk.old ++ lines_of x) k.current_is
            ∙ sym (append_assoc (lines_of s.disk.old) ls (told trace))
            ∙ ap (λ x. (lines_of s.disk.old ++ lines_of x) ++ told trace) (sym c))
        | inr k ↦ inr (
            ap (λ x. lines_of x ++ lines_of e.disk.current) k.old_is
            ∙ ap (λ x. (ls ++ k.xs) ++ lines_of x) k.current_is
            ∙ append_assoc ls k.xs k.ys
            ∙ ap (λ x. ls ++ x) (sym k.split)
            ∙ ap (λ x. lines_of x ++ told trace) (sym c))
      ]
