-- ===== src/Telemetry/Escape.antt =====
-- src/telemetry.rs, `escape_json`, against a reader of JSON strings.
use mathlib.Core.List.{append_assoc}
use mini_lmk.Base.{
  ℕ, suc, ◌+◌, ◌-◌, ◌*◌, ◌/◌, ◌%◌, ◌<◌, Bool, true, false, ◌||◌, ◌≡◌, refl, sym, subst, ◌∙◌, ap,
  Option, none, some, [], ◌∷◌, ◌++◌, ltb, ◌==◌, if◌then◌else◌, Text, any, arith, Bool-cases, inl,
  inr,
}

abbrev pub is_special : ℕ → Bool
is_special b = b == b'"' || b == b'\\' || ltb b 0x20

abbrev pub hex_digit : ℕ → ℕ
hex_digit n = if ltb n 10 then b'0' + n else b'a' + (n - 10)

-- The match on one character.
unfoldable pub escape_char : ℕ → Text
escape_char c =
    if c == b'"'
    then b'\\' ∷ b'"' ∷ []
    else if c == b'\\'
    then b'\\' ∷ b'\\' ∷ []
    else if c == b'\n'
    then b'\\' ∷ b'n' ∷ []
    else if c == b'\r'
    then b'\\' ∷ b'r' ∷ []
    else if c == b'\t'
    then b'\\' ∷ b't' ∷ []
    else if ltb c 0x20
    then b'\\' ∷ b'u' ∷ b'0' ∷ b'0' ∷ hex_digit (c / 16) ∷ hex_digit (c % 16) ∷ []
    else c ∷ []

unfoldable pub escape_all : Text → Text
unfolding escape_char
escape_all [] = []
escape_all (c ∷ s) = escape_char c ++ escape_all s

unfoldable pub escape_json : Text → Text
unfolding escape_all
escape_json s = if any is_special s then escape_all s else s

-- A reader of JSON strings, behind the opening quote: plain text, behind a backslash, or in the four
-- digits of a code.
pub data Mode : Type 0 where
  plain escaped : Mode
  hex : ℕ → ℕ → Mode

abbrev pub hex_value : ℕ → ℕ
hex_value c = if ltb c b'a' then c - b'0' else c - b'a' + 10

abbrev pub put : ℕ → Option (Text × Text) → Option (Text × Text)
put c none = none
put c (some (s, rest)) = some (c ∷ s, rest)

abbrev pub short_escape : ℕ → ℕ
short_escape c =
    if c == b'n' then b'\n' else if c == b'r' then b'\r' else if c == b't' then b'\t' else c

-- The string up to the closing quote, and what stands behind it. A control character is refused.
unfoldable pub read_string : Mode → Text → Option (Text × Text)
read_string m [] = none
read_string plain (c ∷ s) =
    let more = read_string plain s in
    let behind = read_string escaped s in
    if c == b'"'
    then some ([], s)
    else if c == b'\\'
    then behind
    else if ltb c 0x20
    then none
    else put c more
read_string escaped (c ∷ s) =
    let more = read_string plain s in
    let code = read_string (hex 0 0) s in if c == b'u' then code else put (short_escape c) more
read_string (hex n acc) (c ∷ s) =
    let code = acc * 16 + hex_value c in
    let more = read_string plain s in
    let next = read_string (hex (suc n) code) s in if n == 3 then put code more else next

hex_value-hex_digit : (n : ℕ) → n < 16 → hex_value (hex_digit n) ≡ n
hex_value-hex_digit n h = ground arith

-- One character is read back as it was.
abbrev ReadsBack : Text → ℕ → Text → Type 0
ReadsBack s c e = read_string plain (e ++ s) ≡ put c (read_string plain s)

read_code :
    (c : ℕ) (s : Text)
    → c < 32
    → ReadsBack s c (b'\\' ∷ b'u' ∷ b'0' ∷ b'0' ∷ hex_digit (c / 16) ∷ hex_digit (c % 16) ∷ [])
unfolding read_string
read_code c s h =
    let hi = hex_value-hex_digit (c / 16) (omega arith) in
    let lo = hex_value-hex_digit (c % 16) (omega arith) in
    let e : ((0 * 16 + 0) * 16 + hex_value (hex_digit (c / 16))) * 16
          + hex_value (hex_digit (c % 16))
        ≡ c =
      omega (arith, hi, lo) in
    ap (λ x. put x (read_string plain s)) e

read_plain :
    (c : ℕ) (s : Text)
    → c == b'"' ≡ false
    → c == b'\\' ≡ false
    → ltb c 32 ≡ false
    → ReadsBack s c (c ∷ [])
unfolding read_string
read_plain c s q b h = rw (q, b, h) refl

at_literal :
    (k c : ℕ) (s : Text)
    → c == k ≡ true
    → ReadsBack s k (escape_char k)
    → ReadsBack s c (escape_char c)
at_literal k c s h r =
    let e : k ≡ c = ground (arith, h) in subst (λ x. ReadsBack s x (escape_char x)) e r

read_string-escape_char : (c : ℕ) (s : Text) → ReadsBack s c (escape_char c)
unfolding read_string escape_char
read_string-escape_char c s = elim (Bool-cases (c == b'"')) [
  | inl e ↦ at_literal b'"' c s e refl
  | inr q ↦ elim (Bool-cases (c == b'\\')) [
    | inl e ↦ at_literal b'\\' c s e refl
    | inr b ↦ elim (Bool-cases (c == b'\n')) [
      | inl e ↦ at_literal b'\n' c s e refl
      | inr n ↦ elim (Bool-cases (c == b'\r')) [
        | inl e ↦ at_literal b'\r' c s e refl
        | inr r ↦ elim (Bool-cases (c == b'\t')) [
          | inl e ↦ at_literal b'\t' c s e refl
          | inr t ↦ elim (Bool-cases (ltb c 0x20)) [
            | inl l ↦ rw (q, b, n, r, t, l) (read_code c s (ground (arith, l)))
            | inr l ↦ rw (q, b, n, r, t, l) (read_plain c s q b l)
          ]
        ]
      ]
    ]
  ]
]

escape_char_id : (c : ℕ) → is_special c ≡ false → escape_char c ≡ c ∷ []
unfolding escape_char
escape_char_id c h = ground (arith, h)

escape_all_id : (s : Text) → any is_special s ≡ false → escape_all s ≡ s
unfolding escape_all
escape_all_id [] h = refl
escape_all_id (c ∷ s) h =
    ap (λ x. x ++ escape_all s) (escape_char_id c (ground (arith, h)))
    ∙ ap (λ x. c ∷ x) (escape_all_id s (ground (arith, h)))

-- The shortcut for a text without special characters changes nothing.
pub escape_json-escape_all : (s : Text) → escape_json s ≡ escape_all s
unfolding escape_json
escape_json-escape_all s = elim (Bool-cases (any is_special s)) [
  | inl e ↦ rw e refl
  | inr e ↦ rw e (sym (escape_all_id s e))
]

read_string-escape_all :
    (s rest : Text) → read_string plain (escape_all s ++ b'"' ∷ rest) ≡ some (s, rest)
unfolding escape_all read_string
read_string-escape_all [] rest = refl
read_string-escape_all (c ∷ s) rest =
    ap (read_string plain) (append_assoc (escape_char c) (escape_all s) (b'"' ∷ rest))
    ∙ read_string-escape_char c (escape_all s ++ b'"' ∷ rest)
    ∙ ap (put c) (read_string-escape_all s rest)

-- Whatever the text, a reader of JSON strings reads its escaped form, up to the closing quote, as
-- the text itself, and stops there: no text breaks out of the string that it is put in.
pub read_string-escape_json :
    (s rest : Text) → read_string plain (escape_json s ++ b'"' ∷ rest) ≡ some (s, rest)
read_string-escape_json s rest =
    ap (λ x. read_string plain (x ++ b'"' ∷ rest)) (escape_json-escape_all s)
    ∙ read_string-escape_all s rest
