-- ===== src/Text/Utf8.antt =====
-- `std::str::from_utf8`: the code points of a list of bytes, if they are well-formed; and the bytes of
-- a `str`.
use mini_lmk.Base.{
  ℕ, zero, suc, ◌+◌, ◌-◌, ◌*◌, ◌/◌, ◌%◌, ◌++◌, ◌&&◌, ◌||◌, Option, none, some, List, [], ◌∷◌, ltb,
  leb, if◌then◌else◌, Text,
}
use mini_lmk.Base.Map.{map_option}
use mini_lmk.Text.{within}

-- A scalar value that its encoding does not make longer than needed.
abbrev pub is_scalar : ℕ → ℕ → Text → Option Text
is_scalar least c rest =
    if leb least c && (ltb c 0xD800 || within 0xE000 0x10FFFF c) then some (c ∷ rest) else none

-- How many bytes are still to come, their value so far, and the least value that needs so many.
unfoldable pub decode : ℕ → ℕ → ℕ → List ℕ → Option Text
decode zero acc least [] = some []
decode (suc need) acc least [] = none
decode zero acc least (b ∷ bs) =
    let next = decode 0 0 0 bs in
    let two = decode 1 (b - 0xC0) 0x80 bs in
    let three = decode 2 (b - 0xE0) 0x800 bs in
    let four = decode 3 (b - 0xF0) 0x10000 bs in
    if ltb b 0x80
    then map_option (λ s. b ∷ s) next
    else if within 0xC0 0xDF b
    then two
    else if within 0xE0 0xEF b
    then three
    else if within 0xF0 0xF7 b
    then four
    else none
decode (suc zero) acc least (b ∷ bs) =
    let c = acc * 64 + (b - 0x80) in
    let rest = decode 0 0 0 bs in
    if within 0x80 0xBF b then elim rest [ none ↦ none | some s ↦ is_scalar least c s ] else none
decode (suc (suc need)) acc least (b ∷ bs) =
    let more = decode (suc need) (acc * 64 + (b - 0x80)) least bs in
    if within 0x80 0xBF b then more else none

unfoldable pub from_utf8 : List ℕ → Option Text
unfolding decode
from_utf8 bytes = decode 0 0 0 bytes

unfoldable pub encode : ℕ → List ℕ
encode c =
    if ltb c 0x80
    then c ∷ []
    else if ltb c 0x800
    then (0xC0 + c / 64) ∷ (0x80 + c % 64) ∷ []
    else if ltb c 0x10000
    then (0xE0 + c / 4096) ∷ (0x80 + c / 64 % 64) ∷ (0x80 + c % 64) ∷ []
    else (0xF0 + c / 262144) ∷ (0x80 + c / 4096 % 64) ∷ (0x80 + c / 64 % 64) ∷ (0x80 + c % 64) ∷ []

-- `str::as_bytes`
unfoldable pub to_utf8 : Text → List ℕ
unfolding encode
to_utf8 [] = []
to_utf8 (c ∷ s) = encode c ++ to_utf8 s
