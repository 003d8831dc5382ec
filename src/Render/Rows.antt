-- ===== src/Render/Rows.antt =====
-- src/telemetry.rs, `format_time_hms_ms` and `tabular_row`: the columns of the rows.
use mini_lmk.Base.{
  ℕ, zero, suc, ◌+◌, ◌-◌, ◌*◌, ◌/◌, ◌%◌, ◌<◌, ◌≤◌, Bool, true, false, ◌≡◌, refl, sym, subst, ◌∙◌,
  ap, [], ◌∷◌, ◌++◌, if◌then◌else◌, Text, length, length-append, take, drop, arith,
}
use mini_lmk.State.{
  LogRecord, bg_summary, fg_switch, game_session_start, game_session_end, game_intrusion, respawn,
  screen_off, screen_on, kill_decision, config_reload, KillEvent, kill, kill_skipped,
  simulated_kill,
}
use mini_lmk.Render.{record_time}
use mini_lmk.Render.Columns.{
  ClockTime, format_time_hms_ms, blanks, pad, tabular_row, kill_tag, tag_of, target_of, detail_of,
  to_row,
}

-- The characters of a row from one column on.
abbrev pub column : ℕ → ℕ → Text → Text
column from width row = take width (drop from row)

-- The number that digits stand for.
abbrev pub value_from : ℕ → Text → ℕ
value_from n [] = n
value_from n (c ∷ s) = value_from (n * 10 + (c - b'0')) s

abbrev pub value : Text → ℕ
value s = value_from 0 s

-- A clock of two digits each; a leap second is the sixtieth.
abbrev pub OnTheClock : ClockTime → Type 0
OnTheClock t = (t.tm_hour < 24) × (t.tm_min < 60) × (t.tm_sec ≤ 60)

-- The time of the row of any record, read back from its columns, is the local time of the record, to
-- the millisecond, where the local time has hours below 24, minutes below 60 and seconds up to 60.
pub to_row-time :
    (decimal : ℕ → ℕ → Text) (local : ℕ → ClockTime) (r : LogRecord)
    → OnTheClock (local (record_time r / 1000))
    → (value (column 0 2 (to_row decimal local r)) ≡ (local (record_time r / 1000)).tm_hour)
      × (value (column 3 2 (to_row decimal local r)) ≡ (local (record_time r / 1000)).tm_min)
      × (value (column 6 2 (to_row decimal local r)) ≡ (local (record_time r / 1000)).tm_sec)
      × (value (column 9 3 (to_row decimal local r)) ≡ record_time r % 1000)
unfolding to_row tabular_row format_time_hms_ms pad
to_row-time decimal local r (h, m, s) = (omega arith, omega arith, omega arith, omega arith)

length-blanks : (n : ℕ) → length (blanks n) ≡ n
length-blanks zero = refl
length-blanks (suc n) = omega (arith, length-blanks n)

length-pad : (w : ℕ) (s : Text) → length s ≤ w → length (pad w s) ≡ w
unfolding pad
length-pad w s h =
    omega (arith, length-append s (blanks (w - length s)), length-blanks (w - length s))

take-front : (xs ys : Text) → take (length xs) (xs ++ ys) ≡ xs
take-front [] ys = refl
take-front (x ∷ xs) ys = ap (λ zs. x ∷ zs) (take-front xs ys)

drop-front : (xs ys : Text) → drop (length xs) (xs ++ ys) ≡ ys
drop-front [] ys = refl
drop-front (x ∷ xs) ys = drop-front xs ys

drop-past : (c : ℕ) (xs ys : Text) → drop (suc (length xs)) (xs ++ c ∷ ys) ≡ ys
drop-past c [] ys = refl
drop-past c (x ∷ xs) ys = drop-past c xs ys

-- What stands behind the event of a row.
abbrev behind : Text → Text → Text
behind target detail = pad 26 target ++ (b' ' ∷ detail)

-- A target of at most 26 characters fills its column, and the detail follows behind a blank.
abbrev Columns : Text → Text → Text → Type 0
Columns rest target detail = (take 26 rest ≡ pad 26 target) × (drop 27 rest ≡ detail)

behind-Columns :
    (target detail : Text) → length target ≤ 26 → Columns (behind target detail) target detail
behind-Columns target detail h =
    let n = length-pad 26 target h in
    (
      ap (λ k. take k (behind target detail)) (sym n) ∙ take-front (pad 26 target) (b' ' ∷ detail),
      ap (λ k. drop (suc k) (behind target detail)) (sym n) ∙ drop-past b' ' (pad 26 target) detail,
    )

unfoldable pub is_reload : LogRecord → Bool
is_reload (bg_summary now sec stats) = false
is_reload (fg_switch now pkg component prev dur is_game) = false
is_reload (game_session_start now pkg) = false
is_reload (game_session_end now duration intrusions) = false
is_reload (game_intrusion now pid uid pkg proc kind rss excluded) = false
is_reload (respawn now pkg gap pid uid kind) = false
is_reload (screen_off now active) = false
is_reload (screen_on now off) = false
is_reload (kill_decision r) = false
is_reload (config_reload cfg want_log now) = true

-- The column at which the target of a row begins.
abbrev pub target_column : LogRecord → ℕ
target_column r = if is_reload r then 29 else 28

kill_row :
    (local : ℕ → ClockTime) (now : ℕ) (e : KillEvent) (target detail : Text)
    → drop 28 (tabular_row local now (kill_tag e) target detail) ≡ behind target detail
unfolding tabular_row format_time_hms_ms pad kill_tag
kill_row local now kill target detail = refl
kill_row local now kill_skipped target detail = refl
kill_row local now simulated_kill target detail = refl

module _ (decimal : ℕ → ℕ → Text) (local : ℕ → ClockTime) where
  row_behind :
      (r : LogRecord)
      → drop (target_column r) (to_row decimal local r) ≡ behind (target_of r) (detail_of decimal r)
  unfolding to_row tabular_row format_time_hms_ms pad tag_of is_reload
  row_behind (bg_summary now sec stats) = refl
  row_behind (fg_switch now pkg component prev dur is_game) = refl
  row_behind (game_session_start now pkg) = refl
  row_behind (game_session_end now duration intrusions) = refl
  row_behind (game_intrusion now pid uid pkg proc kind rss excluded) = refl
  row_behind (respawn now pkg gap pid uid kind) = refl
  row_behind (screen_off now active) = refl
  row_behind (screen_on now off) = refl
  row_behind (kill_decision r) =
      kill_row local r.ts r.event r.pkg (detail_of decimal (kill_decision r))
  row_behind (config_reload cfg want_log now) = refl

  -- Where the target has at most 26 characters, the row of any record holds the target, padded with
  -- blanks, in the 26 columns from 28 on, and the detail from column 55 on; but the row of a
  -- `config_reload`, whose name is longer than its column, has both one column further right.
  pub to_row-Columns :
      (r : LogRecord)
      → length (target_of r) ≤ 26
      → Columns
          (drop (target_column r) (to_row decimal local r))
          (target_of r)
          (detail_of decimal r)
  to_row-Columns r h =
      subst (λ rest. Columns rest (target_of r) (detail_of decimal r)) (sym (row_behind r))
        (behind-Columns (target_of r) (detail_of decimal r) h)
