-- ===== src/Parser/Line.antt =====
-- src/parser.rs, `parse_epoch_ms` and `parse_logcat_line`.
use mini_lmk.Base.{
  ℕ, ◌+◌, ◌-◌, ◌*◌, ◌/◌, Bool, ◌||◌, Option, none, some, List, [], ◌∷◌, ltb, if◌then◌else◌, Text,
  text_beq, is_empty, take, two_64, map_or, ◌>>=◌,
}
use mini_lmk.Base.Map.{map_option}
use mini_lmk.Text.{codes, trim, split_once, split_whitespace, starts_with, is_digit}
use mini_lmk.Text.Number.{parse_u64}
use mini_lmk.Daemon.{
  LogcatEvent, resume_activity, proc_start, proc_died, screen_toggled, device_idle_light_step,
}
use mini_lmk.Parser.Tokens.{strip_brackets}
use mini_lmk.Parser.Activity.{parse_resume_activity}
use mini_lmk.Parser.Start.{parse_proc_start}
use mini_lmk.Parser.Died.{parse_proc_died, parse_screen_toggled}

-- The milliseconds of the digits behind the point, each worth a tenth of the one before.
unfoldable pub fraction_ms : ℕ → ℕ → Text → Option ℕ
fraction_ms ms mult [] = some ms
fraction_ms ms mult (c ∷ s) =
    let rest = fraction_ms (ms + (c - b'0') * mult) (mult / 10) s in
    if is_digit c then rest else none

abbrev pub checked : ℕ → Option ℕ
checked n = if ltb n two_64 then some n else none

unfoldable pub parse_epoch_ms : Text → Option ℕ
unfolding split_once parse_u64 fraction_ms
parse_epoch_ms s = do
  let parts = map_or (split_once b'.' s) (s, []) (λ p. p)
  secs ← parse_u64 parts.0
  ms ← fraction_ms 0 100 (take 3 parts.1)
  scaled ← checked (secs * 1000)
  checked (scaled + ms)

abbrev pub last_of : Text → List Text → Text
last_of x [] = x
last_of x (y ∷ ys) = last_of y ys

-- The first word and the last of the words behind it.
unfoldable pub header_fields : List Text → Option (Text × Text)
header_fields [] = none
header_fields (first ∷ []) = none
header_fields (first ∷ x ∷ xs) = some (first, last_of x xs)

unfoldable pub parse_event : (ℕ → Bool) → Text → Text → Option LogcatEvent
unfolding parse_proc_start parse_proc_died parse_resume_activity parse_screen_toggled strip_brackets
parse_event alphabetic tag payload =
    if text_beq tag (codes "am_proc_start")
    then map_option proc_start (parse_proc_start alphabetic payload)
    else if text_beq tag (codes "am_proc_died")
    then map_option proc_died (parse_proc_died payload)
    else if text_beq tag (codes "wm_resume_activity") || text_beq tag (codes "am_resume_activity")
    then map_option resume_activity (parse_resume_activity payload)
    else if text_beq tag (codes "screen_toggled")
    then map_option screen_toggled (parse_screen_toggled payload)
    else if text_beq tag (codes "device_idle_light_step")
    then (if is_empty (strip_brackets payload) then some device_idle_light_step else none)
    else none

unfoldable pub parse_logcat_line : (ℕ → Bool) → Text → Option (ℕ × LogcatEvent)
unfolding trim starts_with split_once split_whitespace header_fields parse_epoch_ms parse_event
parse_logcat_line alphabetic line =
    let s = trim line in
    if is_empty s || starts_with (codes "---") s then none else do
      parts ← split_once b':' s
      fields ← header_fields (split_whitespace parts.0)
      epoch_ms ← parse_epoch_ms fields.0
      event ← parse_event alphabetic fields.1 parts.1
      some (epoch_ms, event)
