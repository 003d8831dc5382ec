-- ===== src/Parser/Died.antt =====
-- src/parser.rs, `parse_proc_died` and `parse_screen_toggled`.
use mini_lmk.Base.{
  ℕ, Bool, true, false, ◌&&◌, Option, none, some, List, [], ◌∷◌, ltb, if◌then◌else◌, Text, text_beq,
  length,
}
use mini_lmk.Text.{codes}
use mini_lmk.Text.Number.{parse_u32}
use mini_lmk.Events.Process.{ProcDiedEvent}
use mini_lmk.Parser.Tokens.{tokenize, strip_brackets, max_tokens}
use mini_lmk.Parser.Names.{is_proc_name}

-- The number of a token, if it is a pid and the next token is a process name.
unfoldable pub pid_before : Text → Text → Option ℕ
unfolding parse_u32 is_proc_name
pid_before tok next = elim (parse_u32 tok) [
  | none ↦ none
  | some pid ↦ if ltb 0 pid && is_proc_name next then some pid else none
]

-- The scan over neighbouring tokens.
unfoldable pub find_pid : List Text → Option ℕ
unfolding pid_before
find_pid [] = none
find_pid (tok ∷ []) = none
find_pid (tok ∷ next ∷ toks) =
    let later = find_pid (next ∷ toks) in
    elim (pid_before tok next) [ some pid ↦ some pid | none ↦ later ]

unfoldable pub parse_proc_died : Text → Option ProcDiedEvent
unfolding tokenize strip_brackets find_pid
parse_proc_died payload =
    let tokens = tokenize max_tokens (strip_brackets payload) in
    if ltb (length tokens) 2
    then none
    else elim (find_pid tokens) [ none ↦ none | some pid ↦ some (record { pid = pid }) ]

unfoldable pub parse_screen_toggled : Text → Option Bool
unfolding strip_brackets
parse_screen_toggled payload =
    let s = strip_brackets payload in
    if text_beq s (codes "0")
    then some false
    else if text_beq s (codes "1")
    then some true
    else none
