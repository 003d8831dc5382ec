-- ===== src/Parser/Activity.antt =====
-- src/parser.rs, `parse_resume_activity`.
use mini_lmk.Base.{
  ℕ, Bool, ◌&&◌, ◌||◌, Option, none, some, List, [], ◌∷◌, ◌==◌, leb, if◌then◌else◌, Text, is_empty,
  length, map_or,
}
use mini_lmk.Text.{
  codes, trim, trim_matches, contains_char, strip_prefix, break_at, split_whitespace, is_whitespace,
  before_char,
}
use mini_lmk.Procfs.{find}
use mini_lmk.Events.Resume.{ResumeActivityEvent}
use mini_lmk.Parser.Tokens.{tokenize, token, strip_brackets, max_tokens}
use mini_lmk.Parser.Names.{is_proc_name}

abbrev pub is_brace : ℕ → Bool
is_brace c = c == b'{' || c == b'}'

abbrev pub is_quote : ℕ → Bool
is_quote c = c == b'"' || c == 39

-- What stands behind the first occurrence of a text.
unfoldable pub after_text : Text → Text → Option Text
unfolding strip_prefix
after_text pat [] = strip_prefix pat []
after_text pat (c ∷ s) =
    let later = after_text pat s in
    elim (strip_prefix pat (c ∷ s)) [ some rest ↦ some rest | none ↦ later ]

-- The token with a slash, or the fourth.
unfoldable pub raw_component : List Text → Text
unfolding find contains_char
raw_component tokens =
    let by_slash = map_or (find (contains_char b'/') tokens) [] (λ t. t) in
    if is_empty by_slash && leb 4 (length tokens) then token tokens 3 else by_slash

abbrev pub ends_component : ℕ → Bool
ends_component c = is_whitespace c || c == b'}' || c == b']'

-- The component of an intent behind `cmp=`; else, in a text with spaces, its word with a slash.
unfoldable pub unwrap_intent : Text → Text
unfolding after_text break_at trim trim_matches contains_char split_whitespace find is_whitespace
unwrap_intent s = elim (after_text (codes "cmp=") s) [
  | some behind ↦ elim (break_at ends_component (trim behind)) [
    | some (before, _) ↦ before
    | none ↦ trim behind
  ]
  | none ↦
      if contains_char b' ' s
      then (elim (find (contains_char b'/') (split_whitespace s)) [
        | some word ↦ trim_matches (λ c. is_brace c || is_quote c) word
        | none ↦ s
      ])
      else s
]

unfoldable pub clean_component : Text → Text
unfolding unwrap_intent trim trim_matches
clean_component raw =
    let inner = trim (trim_matches is_brace (trim raw)) in
    trim_matches (λ c. is_brace c || c == b' ' || is_quote c) (unwrap_intent inner)

unfoldable pub accept_component : Text → Option ResumeActivityEvent
unfolding trim before_char is_proc_name
accept_component comp =
    let pkg = trim (before_char b'/' comp) in
    if is_empty comp
    then none
    else if is_proc_name pkg
    then some (record { pkg = pkg; component = comp })
    else none

unfoldable pub parse_resume_activity : Text → Option ResumeActivityEvent
unfolding tokenize strip_brackets raw_component clean_component accept_component
parse_resume_activity payload =
    let tokens = tokenize max_tokens (strip_brackets payload) in
    let raw = raw_component tokens in
    if length tokens == 0
    then none
    else if is_empty raw
    then none
    else accept_component (clean_component raw)
