-- ===== src/Parser/Start.antt =====
-- src/parser.rs, `parse_proc_start`. `alphabetic` is the Unicode property Alphabetic.
use mini_lmk.Base.{
  ℕ, suc, ◌+◌, Bool, not, ◌&&◌, ◌||◌, Option, none, some, List, [], ◌∷◌, ◌==◌, ltb, if◌then◌else◌,
  Text, is_empty, length, any, is_some, ◌>>=◌,
}
use mini_lmk.Text.{starts_with, contains_char, codes}
use mini_lmk.Text.Number.{parse_u32}
use mini_lmk.Events.Process.{ProcStartEvent}
use mini_lmk.Parser.Tokens.{tokenize, token, strip_brackets, max_tokens}
use mini_lmk.Parser.Names.{is_proc_name, package_of}

-- The checks behind both ways: a pid, a process name, and a package name.
unfoldable pub accept_start : Text → Text → ℕ → ℕ → Option ProcStartEvent
unfolding is_proc_name package_of
accept_start proc_name spawn_type pid uid =
    if pid == 0 || not (is_proc_name proc_name)
    then none
    else if is_proc_name (package_of proc_name)
    then some (record {
      proc_name = proc_name;
      pkg = package_of proc_name;
      spawn_type = spawn_type;
      pid = pid;
      uid = uid;
    })
    else none

-- What the loop over the tokens has found.
pub record Guess : Type 0 where
  pub pid : ℕ
  pub uid : ℕ
  pub proc_idx : Option ℕ

abbrev pub is_candidate : (ℕ → Bool) → Text → Bool
is_candidate alphabetic tok =
    not (is_empty tok)
    && not (starts_with (codes "{") tok)
    && not (starts_with (codes "-") tok)
    && (contains_char b'.' tok || contains_char b':' tok || any alphabetic tok)

unfoldable pub guess_number : ℕ → ℕ → Guess → Guess
guess_number i val g =
    if g.pid == 0 && ltb 0 i
    then record g { pid = val }
    else if ltb 0 g.pid && g.uid == 0
    then record g { uid = val }
    else g

unfoldable pub guess_token : (ℕ → Bool) → ℕ → Text → Guess → Guess
unfolding parse_u32 guess_number starts_with contains_char
guess_token alphabetic i tok g = elim (parse_u32 tok) [
  | some val ↦ guess_number i val g
  | none ↦
      if is_candidate alphabetic tok && not (is_some g.proc_idx)
      then record g { proc_idx = some i }
      else g
]

unfoldable pub guess_from : (ℕ → Bool) → ℕ → List Text → Guess → Guess
unfolding guess_token
guess_from alphabetic i [] g = g
guess_from alphabetic i (tok ∷ toks) g =
    guess_from alphabetic (suc i) toks (guess_token alphabetic i tok g)

abbrev pub no_guess : Guess
no_guess = record { pid = 0; uid = 0; proc_idx = none }

-- The token behind the name is the spawn type, unless it is a component or missing.
unfoldable pub spawn_type_at : List Text → ℕ → Text
unfolding starts_with
spawn_type_at tokens p_idx =
    if ltb (p_idx + 1) (length tokens) && not (starts_with (codes "{") (token tokens (p_idx + 1)))
    then token tokens (p_idx + 1)
    else []

unfoldable pub fallback_start : (ℕ → Bool) → List Text → Option ProcStartEvent
unfolding guess_from spawn_type_at accept_start
fallback_start alphabetic tokens = do
  let g = guess_from alphabetic 0 tokens no_guess
  p_idx ← g.proc_idx
  accept_start (token tokens p_idx) (spawn_type_at tokens p_idx) g.pid g.uid

unfoldable pub standard_numbers : List Text → Option (ℕ × ℕ)
unfolding parse_u32
standard_numbers tokens = do
  pid ← parse_u32 (token tokens 1)
  uid ← parse_u32 (token tokens 2)
  some (pid, uid)

abbrev pub standard_type : List Text → Text
standard_type tokens = if ltb 4 (length tokens) then token tokens 4 else []

unfoldable pub parse_proc_start : (ℕ → Bool) → Text → Option ProcStartEvent
unfolding tokenize strip_brackets standard_numbers accept_start fallback_start
parse_proc_start alphabetic payload =
    let tokens = tokenize max_tokens (strip_brackets payload) in
    if ltb (length tokens) 4 then none else elim (standard_numbers tokens) [
      | some (pid, uid) ↦ accept_start (token tokens 3) (standard_type tokens) pid uid
      | none ↦ fallback_start alphabetic tokens
    ]
