-- ===== src/Telemetry/Cap.antt =====
-- src/telemetry.rs, `write_to_log` and `open_log`: the size of the log.
use mini_lmk.Base.{
  ℕ, suc, ◌+◌, ◌<◌, ◌≤◌, Bool, true, false, not, ◌&&◌, ◌||◌, ◌≡◌, refl, ◌⊎◌, inl, inr, Option, none,
  some, List, [], ◌∷◌, ◌++◌, leb, if◌then◌else◌, Text, length, add_u64, two_63, arith, Bool-cases,
  Option-cases, if_keeps,
}
use mini_lmk.Telemetry.{
  rotation_threshold_bytes, TelemetrySink, FileReplies, size, lines_of, open_file, move_log, rotate,
  append_line, write_to_log, show, silent, tabular_stdout, emit_with,
}
use mini_lmk.Telemetry.History.{Emission, emit_all}

-- The count is the size of the file, which is below the limit or is that of one line.
abbrev pub Counted : Bool → Option (List Text) → ℕ → Type 0
Counted false file n = Unit
Counted true none n = ⊥
Counted true (some ls) n =
    (size ls ≡ n) × ((n < rotation_threshold_bytes) ⊎ ((n < two_63) × (length ls ≤ 1)))

abbrev pub Capped : TelemetrySink → Type 0
Capped s = Counted s.writer s.disk.current s.bytes_written

pub size-append : (xs ys : List Text) → size (xs ++ ys) ≡ size xs + size ys
size-append [] ys = omega arith
size-append (x ∷ xs) ys = omega (arith, size-append xs ys)

-- A line that fits keeps the count.
grow :
    (w : Bool) (file : Option (List Text)) (n : ℕ) (line : Text)
    → suc (length line) < two_63
    → leb rotation_threshold_bytes (add_u64 n (suc (length line))) ≡ false
    → w ≡ true
    → Counted w file n
    → Counted w (some (lines_of file ++ line ∷ [])) (add_u64 n (suc (length line)))
grow false file n line small fits on c = tt
grow true none n line small fits on c = elim c [ ]
grow true (some ls) n line small fits on (e, b) =
    (omega (arith, size-append ls (line ∷ []), e, small), inl (ground (arith, fits)))

append_fits :
    (r : FileReplies) (line : Text) (s : TelemetrySink)
    → suc (length line) < two_63
    → leb rotation_threshold_bytes (add_u64 s.bytes_written (suc (length line))) ≡ false
    → Capped s
    → Capped (append_line r line s)
unfolding append_line
append_fits r line s small fits c = elim (Bool-cases (s.writer && r.write_ok)) [
  | inl e ↦
      rw e (grow s.writer s.disk.current s.bytes_written line small fits (ground (arith, e)) c)
  | inr e ↦ rw e c
]

-- A rotation that renames leaves an empty file, or none.
append_rotated :
    (r : FileReplies) (line : Text) (s : TelemetrySink)
    → suc (length line) < two_63
    → r.rename_ok ≡ true
    → s.writer ≡ true
    → Capped s
    → Capped (append_line r line (rotate r s))
unfolding append_line rotate open_file move_log
append_rotated r line s small n on c = elim (Option-cases s.disk.current) [
  | inl f ↦ elim (rw (on, f) at c) [ ]
  | inr (ls, f) ↦ elim (Bool-cases r.open_ok) [
    | inr o ↦ rw (n, f, o) tt
    | inl o ↦ elim (Bool-cases r.write_ok) [
      | inr k ↦ rw (n, f, o, k) (refl, inl (omega arith))
      | inl k ↦ rw (n, f, o, k) (omega (arith, small), inr (omega (arith, small), omega arith))
    ]
  ]
]

not_writer : (w : Bool) → w ≡ false → not w ≡ true
not_writer w h = ground (arith, h)

writer_on : (w : Bool) → w ≡ true → not w ≡ false
writer_on w h = ground (arith, h)

write_to_log-Capped :
    (r : FileReplies) (line : Text) (s : TelemetrySink)
    → suc (length line) < two_63
    → r.rename_ok ≡ true
    → Capped s
    → Capped (write_to_log r line s)
unfolding write_to_log
write_to_log-Capped r line s small n c = elim (Bool-cases s.writer) [
  | inr off ↦ rw (not_writer s.writer off) c
  | inl on ↦
      elim (Bool-cases
        (leb rotation_threshold_bytes (add_u64 s.bytes_written (suc (length line))))) [
          | inl full ↦ rw (writer_on s.writer on, full) (append_rotated r line s small n on c)
          | inr fits ↦ rw (writer_on s.writer on, fits) (append_fits r line s small fits c)
        ]
]

show-Capped :
    (json_line tabular : Text) (s : TelemetrySink) → Capped s → Capped (show json_line tabular s)
unfolding show tabular_stdout
show-Capped json_line tabular s c =
    if_keeps Capped s.json_stdout _ _ c
      (if_keeps Capped (not s.json_stdout && s.stdout_tty) _ s c c)

emit_with-Capped :
    (e : Emission) (s : TelemetrySink)
    → suc (length e.made_json) < two_63
    → e.replies.rename_ok ≡ true
    → Capped s
    → Capped (emit_with e.replies e.tabular e.made_json s)
unfolding emit_with
emit_with-Capped e s small n c =
    let line = if s.json_stdout || s.writer then e.made_json else [] in
    let short : suc (length line) < two_63 =
      if_keeps (λ x. suc (length x) < two_63) (s.json_stdout || s.writer) e.made_json [] small
        (omega arith) in
    if_keeps Capped (silent s) s _ c (
      write_to_log-Capped e.replies line (show line e.tabular s) short n
        (show-Capped line e.tabular s c))

-- No line is of 2 ^ 63 bytes, and every rename succeeds.
abbrev pub Renaming : List Emission → Type 0
Renaming [] = Unit
Renaming (e ∷ es) = (suc (length e.made_json) < two_63) × (e.replies.rename_ok ≡ true) × Renaming es

-- Where every rename succeeds and no record has 2 ^ 63 bytes, whatever opens and writes fail: if an
-- open log is counted right and below 512 KB, or one longer line, then so is it behind any sequence
-- of records.
pub emit_all-Capped :
    (es : List Emission) (s : TelemetrySink) → Renaming es → Capped s → Capped (emit_all es s)
unfolding emit_all
emit_all-Capped [] s r c = c
emit_all-Capped (e ∷ es) s (small, n, r) c =
    emit_all-Capped es (emit_with e.replies e.tabular e.made_json s) r
      (emit_with-Capped e s small n c)
