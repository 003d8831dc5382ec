-- ===== src/Render/Lines.antt =====
-- src/kill.rs, src/daemon.rs and src/events.rs, the JSON lines: one record is one line.
use mini_lmk.Base.{
  ℕ, zero, suc, ◌+◌, ◌/◌, ◌%◌, true, false, ◌≡◌, refl, List, [], ◌∷◌, ◌++◌, ltb, leb, ◌==◌,
  if◌then◌else◌, Text, arith, Bool-cases, inl, inr, pos, negsuc, all, if_keeps,
}
use mini_lmk.Text.{codes, contains_char}
use mini_lmk.Telemetry.Escape.{
  hex_digit, escape_char, escape_all, escape_json, escape_json-escape_all,
}
use mini_lmk.State.{LogRecord}
use mini_lmk.Render.Json.{
  digits, show_ℕ, show_more, show_list, Value, null, bool, num, text, nums, show_value, Field,
  show_field, show_fields, show_object,
}
use mini_lmk.Render.{to_json, record_time, record_fields, number}

-- No control character is in the text.
abbrev Visible : Text → Type 0
Visible s = all (λ c. leb 0x20 c) s ≡ true

Visible-append : (xs ys : Text) → Visible xs → Visible ys → Visible (xs ++ ys)
Visible-append [] ys h k = k
Visible-append (x ∷ xs) ys h k =
    let rest = Visible-append xs ys (ground (arith, h)) k in ground (arith, h, rest)

Visible-cons : (c : ℕ) (xs : Text) → leb 0x20 c ≡ true → Visible xs → Visible (c ∷ xs)
Visible-cons c xs h k = ground (arith, h, k)

digits-Visible : (f n : ℕ) → Visible (digits f n)
unfolding digits
digits-Visible zero n = refl
digits-Visible (suc f) n =
    if_keeps Visible (ltb n 10) ((b'0' + n) ∷ []) (digits f (n / 10) ++ (b'0' + n % 10) ∷ [])
      (ground arith)
      (Visible-append (digits f (n / 10)) ((b'0' + n % 10) ∷ []) (digits-Visible f (n / 10))
        (ground arith))

show_ℕ-Visible : (n : ℕ) → Visible (show_ℕ n)
unfolding show_ℕ
show_ℕ-Visible n = digits-Visible (suc n) n

show_more-Visible : (ns : List ℕ) → Visible (show_more ns)
unfolding show_more
show_more-Visible [] = refl
show_more-Visible (n ∷ ns) =
    Visible-append (show_ℕ n) (show_more ns) (show_ℕ-Visible n) (show_more-Visible ns)

hex_digit-visible : (n : ℕ) → leb 0x20 (hex_digit n) ≡ true
hex_digit-visible n = ground arith

-- A control character becomes its code; any other stays.
code_or_self-Visible :
    (c : ℕ)
    → Visible (
        if ltb c 0x20
        then b'\\' ∷ b'u' ∷ b'0' ∷ b'0' ∷ hex_digit (c / 16) ∷ hex_digit (c % 16) ∷ []
        else c ∷ [])
code_or_self-Visible c = elim (Bool-cases (ltb c 0x20)) [
  | inl e ↦ ground (arith, hex_digit-visible (c / 16), hex_digit-visible (c % 16))
  | inr e ↦ ground arith
]

escape_char-Visible : (c : ℕ) → Visible (escape_char c)
unfolding escape_char
escape_char-Visible c = if_keeps Visible (c == b'"') _ _ refl (
    if_keeps Visible (c == b'\\') _ _ refl (
      if_keeps Visible (c == b'\n') _ _ refl (
        if_keeps Visible (c == b'\r') _ _ refl
          (if_keeps Visible (c == b'\t') _ _ refl (code_or_self-Visible c)))))

escape_all-Visible : (s : Text) → Visible (escape_all s)
unfolding escape_all
escape_all-Visible [] = refl
escape_all-Visible (c ∷ s) =
    Visible-append (escape_char c) (escape_all s) (escape_char-Visible c) (escape_all-Visible s)

quoted-Visible : (s rest : Text) → Visible rest → Visible (escape_json s ++ rest)
quoted-Visible s rest h =
    rw (escape_json-escape_all s) (Visible-append (escape_all s) rest (escape_all-Visible s) h)

show_value-Visible : (v : Value) → Visible (show_value v)
unfolding show_value show_list
show_value-Visible null = refl
show_value-Visible (bool true) = refl
show_value-Visible (bool false) = refl
show_value-Visible (num (pos n)) = show_ℕ-Visible n
show_value-Visible (num (negsuc n)) = show_ℕ-Visible (suc n)
show_value-Visible (text s) = quoted-Visible s (b'"' ∷ []) refl
show_value-Visible (nums []) = refl
show_value-Visible (nums (n ∷ ns)) =
    Visible-append (show_ℕ n) (show_more ns) (show_ℕ-Visible n) (show_more-Visible ns)

show_field-Visible : (f : Field) → Visible (show_field f)
unfolding show_field
show_field-Visible (k, v) = quoted-Visible k (b'"' ∷ b':' ∷ show_value v) (show_value-Visible v)

show_fields-Visible : (fs : List Field) → Visible (show_fields fs)
unfolding show_fields
show_fields-Visible [] = refl
show_fields-Visible (f ∷ fs) =
    Visible-append (show_field f) (show_fields fs) (show_field-Visible f) (show_fields-Visible fs)

no_newline : (s : Text) → Visible s → contains_char b'\n' s ≡ false
unfolding contains_char
no_newline [] h = refl
no_newline (c ∷ s) h = ground (arith, h, no_newline s (ground (arith, h)))

-- Whatever a record holds, its line holds no line feed, and no other control character: one record
-- is one line of the log, and no name can forge a second one.
pub to_json-Visible :
    (r : LogRecord)
    → (all (λ c. leb 0x20 c) (to_json r) ≡ true) × (contains_char b'\n' (to_json r) ≡ false)
unfolding to_json show_object
to_json-Visible r =
    let f : Field = (codes "ts", number (record_time r)) in
    let fs = record_fields r in
    let v =
      Visible-append (show_field f) (show_fields fs) (show_field-Visible f)
        (show_fields-Visible fs) in
    (v, no_newline (to_json r) v)
