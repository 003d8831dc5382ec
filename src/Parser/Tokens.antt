-- ===== src/Parser/Tokens.antt =====
-- src/parser.rs, `tokenize`: the payload is cut at the commas that stand outside of braces. The
-- table of `N` slots is the list of the tokens stored; the slots behind them are empty.
use mini_lmk.Base.{
  ℕ, zero, suc, ◌+◌, ◌-◌, Bool, ◌&&◌, ◌||◌, List, [], ◌∷◌, ◌++◌, ◌==◌, ltb, leb, if◌then◌else◌,
  Text, length,
}
use mini_lmk.Text.{trim, trim_matches}

abbrev pub next_depth : ℕ → ℕ → ℕ
next_depth b depth = if b == b'{' then depth + 1 else if b == b'}' then depth - 1 else depth

abbrev pub is_cut : ℕ → ℕ → Bool
is_cut b depth = b == b',' && depth == 0

unfoldable pub store : ℕ → List Text → Text → List Text
unfolding trim
store n out tok = if ltb (length out) n then out ++ trim tok ∷ [] else out

unfoldable pub tokenize_from : ℕ → ℕ → Text → List Text → Text → List Text
unfolding store
tokenize_from n depth tok out [] = store n out tok
tokenize_from n depth tok out (b ∷ bs) =
    let out' = if is_cut b depth then store n out tok else out in
    let tok' = if is_cut b depth then [] else tok ++ b ∷ [] in
    let rest = tokenize_from n (next_depth b depth) tok' out' bs in
    if is_cut b depth && leb n (length out') then out' else rest

unfoldable pub tokenize : ℕ → Text → List Text
unfolding tokenize_from
tokenize n inner = tokenize_from n 0 [] [] inner

-- A slot of the table.
abbrev pub token : List Text → ℕ → Text
token [] i = []
token (t ∷ ts) zero = t
token (t ∷ ts) (suc i) = token ts i

abbrev pub is_bracket : ℕ → Bool
is_bracket c = c == b'[' || c == b']'

-- `payload.trim().trim_matches(['[', ']']).trim()`
unfoldable pub strip_brackets : Text → Text
unfolding trim trim_matches
strip_brackets payload = trim (trim_matches is_bracket (trim payload))

abbrev pub max_tokens : ℕ
max_tokens = 8
