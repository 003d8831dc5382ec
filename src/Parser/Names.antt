-- ===== src/Parser/Names.antt =====
-- src/parser.rs, `is_proc_name`: the one test that every package name passes. On code points: a
-- code point beyond ASCII is refused as each of its bytes is.
use mini_lmk.Base.{ℕ, Bool, false, ◌||◌, [], ◌∷◌, ◌==◌, if◌then◌else◌, Text, is_empty}
use mini_lmk.Text.{trim, is_digit, is_ascii_alphabetic, before_char}

abbrev pub is_name_mark : ℕ → Bool
is_name_mark c = is_digit c || c == b'.' || c == b'_' || c == b':'

unfoldable pub scan_name : Bool → Text → Bool
scan_name has_alpha [] = has_alpha
scan_name has_alpha (c ∷ s) =
    let rest = scan_name (has_alpha || is_ascii_alphabetic c) s in
    if is_ascii_alphabetic c || is_name_mark c then rest else false

unfoldable pub is_proc_name : Text → Bool
unfolding trim scan_name
is_proc_name s = let t = trim s in if is_empty t then false else scan_name false t

-- `proc_name.split(':').next().unwrap_or(proc_name).trim()`
unfoldable pub package_of : Text → Text
unfolding trim before_char
package_of proc_name = trim (before_char b':' proc_name)
