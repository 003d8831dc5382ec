-- ===== src/Startup/Probe.antt =====
-- src/probe.rs, `parse_dumpsys_power_screen`, `detect_initial_screen_on` and
-- `parse_resolve_activity_pkg`. The output of a command is an argument, `none` where the command could
-- not be run or, for `cmd`, failed.
use Prim.Native.Nat.{bit_and}
use mini_lmk.Base.{
  ℕ, ℤ, pos, ltb_ℤ, ◌==◌, Bool, true, false, not, ◌&&◌, ◌||◌, Option, none, some, List, [], ◌∷◌,
  if◌then◌else◌, Text, is_empty, map_or, ◌>>=◌,
}
use mini_lmk.Text.{codes, trim, lines, starts_with, contains_char, split_once, split_whitespace}
use mini_lmk.Parser.Activity.{after_text}

-- `contains(&str)`
unfoldable pub contains_text : Text → Text → Bool
unfolding after_text
contains_text pat s = elim (after_text pat s) [ none ↦ false | some rest ↦ true ]

abbrev pub holding : Text
holding = codes "mHoldingDisplaySuspendBlocker="

abbrev pub display_power : Text
display_power = codes "Display Power: state="

-- What one line says of the screen: the first of its two readings that answers.
unfoldable pub holding_state : Text → Option Bool
unfolding starts_with contains_text
holding_state s =
    if not (starts_with holding s)
    then none
    else if contains_text (codes "true") s
    then some true
    else if contains_text (codes "false") s
    then some false
    else none

unfoldable pub display_state : Text → Option Bool
unfolding starts_with contains_text
display_state s =
    if not (starts_with display_power s)
    then none
    else if contains_text (codes "ON") s
    then some true
    else if contains_text (codes "OFF") s || contains_text (codes "DOZE") s
    then some false
    else none

unfoldable pub or_else : {A : Type 0} → Option A → Option A → Option A
or_else none b = b
or_else (some a) b = some a

unfoldable pub power_lines : List Text → Option Bool
unfolding holding_state display_state or_else trim
power_lines [] = none
power_lines (line ∷ rest) =
    or_else (or_else (holding_state (trim line)) (display_state (trim line))) (power_lines rest)

unfoldable pub parse_dumpsys_power_screen : Text → Option Bool
unfolding power_lines lines
parse_dumpsys_power_screen stdout = power_lines (lines stdout)

abbrev pub screen_answer : Text → Option Bool
screen_answer stdout =
    if starts_with (codes "true") stdout
    then some true
    else if starts_with (codes "false") stdout
    then some false
    else none

unfoldable pub detect_initial_screen_on : Option Text → Option Text → Bool
unfolding parse_dumpsys_power_screen or_else starts_with
detect_initial_screen_on deviceidle dumpsys =
    map_or (or_else (deviceidle >>= screen_answer) (dumpsys >>= parse_dumpsys_power_screen)) true
      (λ b. b)

-- The part before the slash in the first word that has one.
unfoldable pub before_slash : List Text → Option Text
unfolding split_once
before_slash [] = none
before_slash (w ∷ ws) =
    let rest = before_slash ws in
    elim (split_once b'/' w) [ none ↦ rest | some (before, _) ↦ some before ]

abbrev pub is_home : Text → Bool
is_home pkg =
    not (is_empty pkg)
    && contains_char b'.' pkg
    && not (starts_with (codes "-") pkg || starts_with (codes "{") pkg)

unfoldable pub home_on_line : Text → Option Text
unfolding before_slash split_whitespace trim contains_char starts_with
home_on_line line = elim (before_slash (split_whitespace line)) [
  | none ↦ none
  | some before ↦ if is_home (trim before) then some (trim before) else none
]

unfoldable pub first_home : List Text → Option Text
unfolding home_on_line or_else
first_home [] = none
first_home (line ∷ rest) = or_else (home_on_line line) (first_home rest)

unfoldable pub parse_resolve_activity_pkg : Text → Option Text
unfolding first_home lines
parse_resolve_activity_pkg stdout = first_home (lines stdout)

-- What `try_wait` says of the logcat child, and why the stream is refused.
pub data ChildStatus : Type 0 where
  exited alive unknown : ChildStatus

pub data ProbeError : Type 0 where
  died_at_once no_status bad_descriptor descriptor_refused hung_up : ProbeError

-- `POLLNVAL`, and `POLLERR | POLLHUP`.
abbrev pub poll_nval : ℕ
poll_nval = 0x20

abbrev pub poll_err_or_hup : ℕ
poll_err_or_hup = 0x18

-- What a poll with a zero timeout found: how many descriptors have events, and which events.
unfoldable pub polled_error : ℤ → ℕ → Option ProbeError
polled_error ready revents =
    if not (ltb_ℤ (pos 0) ready)
    then none
    else if not (bit_and revents poll_nval == 0)
    then some descriptor_refused
    else if not (bit_and revents poll_err_or_hup == 0)
    then some hung_up
    else none

unfoldable pub probe_logcat_stream : ChildStatus → ℤ → ℤ → ℕ → Option ProbeError
unfolding polled_error
probe_logcat_stream exited fd ready revents = some died_at_once
probe_logcat_stream unknown fd ready revents = some no_status
probe_logcat_stream alive fd ready revents =
    if ltb_ℤ fd (pos 0) then some bad_descriptor else polled_error ready revents
