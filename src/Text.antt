-- ===== src/Text.antt =====
-- The operations of `str` that the program uses, on texts as lists of code points. A delimiter is
-- ASCII wherever the source looks at bytes, so cutting between bytes is cutting between code points.
pub mod Number
pub mod Utf8
use Prim.Native.Char.{code}
use Prim.Native.String.{String}
use mini_lmk.Base.{
  ℕ, zero, suc, ◌+◌, Bool, true, false, not, ◌&&◌, ◌||◌, Option, none, some, List, [], ◌∷◌, ◌++◌,
  ◌==◌, leb, if◌then◌else◌, Text, is_empty, any, all,
}

-- The code points of a literal.
abbrev pub codes : String → Text
codes String.[] = []
codes (String.◌∷◌ c s) = code c ∷ codes s

abbrev pub within : ℕ → ℕ → ℕ → Bool
within lo hi c = leb lo c && leb c hi

abbrev pub is_digit : ℕ → Bool
is_digit c = within b'0' b'9' c

-- `char::is_ascii_alphabetic`
abbrev pub is_ascii_alphabetic : ℕ → Bool
is_ascii_alphabetic c = within b'a' b'z' c || within b'A' b'Z' c

-- `char::is_whitespace`: the code points with the Unicode property White_Space.
unfoldable pub is_whitespace : ℕ → Bool
is_whitespace c =
    within 9 13 c
    || c == 32
    || c == 0x85
    || c == 0xA0
    || c == 0x1680
    || within 0x2000 0x200A c
    || c == 0x2028
    || c == 0x2029
    || c == 0x202F
    || c == 0x205F
    || c == 0x3000

-- `char::is_ascii_whitespace`: space, tab, line feed, form feed, carriage return.
unfoldable pub is_ascii_whitespace : ℕ → Bool
is_ascii_whitespace c = c == 32 || c == 9 || c == 10 || c == 12 || c == 13

-- `trim_start_matches`, `trim_end_matches` and `trim_matches` of a test on code points.
unfoldable pub trim_start_matches : (ℕ → Bool) → Text → Text
trim_start_matches p [] = []
trim_start_matches p (c ∷ s) = let rest = trim_start_matches p s in if p c then rest else c ∷ s

unfoldable pub trim_end_matches : (ℕ → Bool) → Text → Text
trim_end_matches p [] = []
trim_end_matches p (c ∷ s) =
    let rest = trim_end_matches p s in if p c && is_empty rest then [] else c ∷ rest

unfoldable pub trim_matches : (ℕ → Bool) → Text → Text
unfolding trim_start_matches trim_end_matches
trim_matches p s = trim_end_matches p (trim_start_matches p s)

-- `str::trim`
unfoldable pub trim : Text → Text
unfolding trim_matches is_whitespace
trim s = trim_matches is_whitespace s

unfoldable pub starts_with : Text → Text → Bool
starts_with [] s = true
starts_with (p ∷ ps) [] = false
starts_with (p ∷ ps) (c ∷ s) = p == c && starts_with ps s

-- `strip_prefix`
unfoldable pub strip_prefix : Text → Text → Option Text
strip_prefix [] s = some s
strip_prefix (p ∷ ps) [] = none
strip_prefix (p ∷ ps) (c ∷ s) = if p == c then strip_prefix ps s else none

-- `contains(char)`
unfoldable pub contains_char : ℕ → Text → Bool
contains_char c s = any (λ d. d == c) s

-- What stands before the first code point that passes the test, and what stands behind it.
unfoldable pub break_at : (ℕ → Bool) → Text → Option (Text × Text)
break_at p [] = none
break_at p (c ∷ s) =
    let rest = break_at p s in
    if p c
    then some ([], s)
    else elim rest [ none ↦ none | some (before, after) ↦ some (c ∷ before, after) ]

-- `split_once(char)`
unfoldable pub split_once : ℕ → Text → Option (Text × Text)
unfolding break_at
split_once c s = break_at (λ d. d == c) s

-- `split(char).next().unwrap_or(..)`: the part before the first delimiter, or all.
unfoldable pub before_char : ℕ → Text → Text
before_char c [] = []
before_char c (d ∷ s) = if d == c then [] else d ∷ before_char c s

-- The words between separators; `word` holds the word being read, in reverse order of nothing:
-- it grows at its end.
unfoldable pub words_from : (ℕ → Bool) → Text → Text → List Text
words_from sep word [] = if is_empty word then [] else word ∷ []
words_from sep word (c ∷ s) =
    let next = words_from sep (if sep c then [] else word ++ c ∷ []) s in
    if sep c && not (is_empty word) then word ∷ next else next

-- `split_whitespace`
unfoldable pub split_whitespace : Text → List Text
unfolding words_from is_whitespace
split_whitespace s = words_from is_whitespace [] s

-- `split_ascii_whitespace`
unfoldable pub split_ascii_whitespace : Text → List Text
unfolding words_from is_ascii_whitespace
split_ascii_whitespace s = words_from is_ascii_whitespace [] s

-- Cut off one trailing carriage return.
unfoldable pub strip_cr : Text → Text
strip_cr [] = []
strip_cr (c ∷ []) = if c == b'\r' then [] else c ∷ []
strip_cr (c ∷ d ∷ s) = c ∷ strip_cr (d ∷ s)

-- `str::lines`: a line ends at a line feed, which may follow a carriage return; the text behind the
-- last line feed is a line, unless it is empty.
unfoldable pub lines_from : Text → Text → List Text
unfolding strip_cr
lines_from line [] = if is_empty line then [] else line ∷ []
lines_from line (c ∷ s) =
    let next = lines_from (if c == b'\n' then [] else line ++ c ∷ []) s in
    if c == b'\n' then strip_cr line ∷ next else next

unfoldable pub lines : Text → List Text
unfolding lines_from
lines s = lines_from [] s
