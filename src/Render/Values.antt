-- ===== src/Render/Values.antt =====
-- The values of the JSON lines, against a reader of JSON values.
use mathlib.Core.List.{append_assoc}
use mini_lmk.Base.{
  ℕ, zero, suc, ◌+◌, ◌<◌, ◌≤◌, true, false, ◌&&◌, ◌≡◌, refl, sym, ◌∙◌, ap, Option, none, some, List,
  [], ◌∷◌, ◌++◌, ◌==◌, if◌then◌else◌, Text, arith, pos, negsuc, length, length-append,
}
use mini_lmk.Text.{codes, is_digit, strip_prefix}
use mini_lmk.Telemetry.Escape.{plain, read_string, escape_json, read_string-escape_json}
use mini_lmk.Render.Json.{show_ℕ, show_more, Value, null, bool, num, text, nums, show_value}
use mini_lmk.Render.Numbers.{Ends, read_digits, read_digits-show_ℕ, digits-StartsDigit}

abbrev cons_item : ℕ → Option (List ℕ × Text) → Option (List ℕ × Text)
cons_item n none = none
cons_item n (some (ns, rest)) = some (n ∷ ns, rest)

-- The tail of a list, behind a number: it ends, or a reader of more items goes on.
unfoldable read_tail : (Text → Option (List ℕ × Text)) → ℕ × Text → Option (List ℕ × Text)
read_tail more (n, []) = none
read_tail more (n, c ∷ []) = if c == b']' then some (n ∷ [], []) else none
read_tail more (n, c ∷ d ∷ s) =
    if c == b']'
    then some (n ∷ [], d ∷ s)
    else if c == b',' && d == b' '
    then cons_item n (more s)
    else none

unfoldable read_items : ℕ → Text → Option (List ℕ × Text)
unfolding read_tail read_digits
read_items zero s = none
read_items (suc f) s = read_tail (λ x. read_items f x) (read_digits 0 s)

read_tail-done :
    (more : Text → Option (List ℕ × Text)) (n : ℕ) (s : Text)
    → read_tail more (n, b']' ∷ s) ≡ some (n ∷ [], s)
unfolding read_tail
read_tail-done more n [] = refl
read_tail-done more n (d ∷ s) = refl

read_items-show_more :
    (f n : ℕ) (ns : List ℕ) (s : Text)
    → length ns < f
    → read_items f (show_ℕ n ++ (show_more ns ++ s)) ≡ some (n ∷ ns, s)
unfolding read_items show_more
read_items-show_more zero n ns s h = elim h [ ]
read_items-show_more (suc f) n [] s h =
    ap (read_tail (λ x. read_items f x)) (read_digits-show_ℕ n (b']' ∷ s) refl)
    ∙ read_tail-done (λ x. read_items f x) n s
read_items-show_more (suc f) n (m ∷ ns) s h =
    let tail = b',' ∷ b' ' ∷ ((show_ℕ m ++ show_more ns) ++ s) in
    ap (read_tail (λ x. read_items f x)) (read_digits-show_ℕ n tail refl)
    ∙ ap (λ x. cons_item n (read_items f x)) (append_assoc (show_ℕ m) (show_more ns) s)
    ∙ ap (cons_item n) (read_items-show_more f m ns s (omega arith))

length-show_more : (ns : List ℕ) (s : Text) → length ns ≤ length (show_more ns ++ s)
unfolding show_more
length-show_more [] s = omega arith
length-show_more (n ∷ ns) s =
    let e : length ((show_ℕ n ++ show_more ns) ++ s)
        ≡ length (show_ℕ n) + length (show_more ns ++ s) =
      ap length (append_assoc (show_ℕ n) (show_more ns) s)
      ∙ length-append (show_ℕ n) (show_more ns ++ s) in
    omega (arith, e, length-show_more ns s)

abbrev as_nums : Option (List ℕ × Text) → Option (Value × Text)
as_nums none = none
as_nums (some (ns, rest)) = some (nums ns, rest)

abbrev as_text : Option (Text × Text) → Option (Value × Text)
as_text none = none
as_text (some (s, rest)) = some (text s, rest)

abbrev as_number : ℕ × Text → Option (Value × Text)
as_number (n, rest) = some (num (pos n), rest)

abbrev as_negative : ℕ × Text → Option (Value × Text)
as_negative (zero, rest) = some (num (pos 0), rest)
as_negative (suc n, rest) = some (num (negsuc n), rest)

abbrev as_word : Value → Option Text → Option (Value × Text)
as_word v none = none
as_word v (some rest) = some (v, rest)

unfoldable read_list : Text → Option (List ℕ × Text)
unfolding read_items
read_list [] = none
read_list (c ∷ s) = if c == b']' then some ([], s) else read_items (suc (length s)) (c ∷ s)

-- A value, by its first character.
unfoldable pub read_value : Text → Option (Value × Text)
unfolding read_list read_digits strip_prefix
read_value [] = none
read_value (c ∷ s) =
    if is_digit c
    then as_number (read_digits 0 (c ∷ s))
    else if c == b'"'
    then as_text (read_string plain s)
    else if c == b'['
    then as_nums (read_list s)
    else if c == b'-'
    then as_negative (read_digits 0 s)
    else if c == b'n'
    then as_word null (strip_prefix (codes "ull") s)
    else if c == b't'
    then as_word (bool true) (strip_prefix (codes "rue") s)
    else as_word (bool false) (strip_prefix (codes "alse") s)

read_digit_first :
    (c : ℕ) (s : Text) → is_digit c ≡ true → read_value (c ∷ s) ≡ as_number (read_digits 0 (c ∷ s))
unfolding read_value
read_digit_first c s h = rw h refl

read_value-show_ℕ : (n : ℕ) (s : Text) → Ends s → read_value (show_ℕ n ++ s) ≡ some (num (pos n), s)
unfolding show_ℕ
read_value-show_ℕ n s h =
    let i = digits-StartsDigit (suc n) n (omega arith) in
    let e : show_ℕ n ++ s ≡ i.first ∷ (i.rest ++ s) = ap (λ x. x ++ s) i.is_first in
    ap read_value e
    ∙ read_digit_first i.first (i.rest ++ s) i.digit
    ∙ ap (λ x. as_number (read_digits 0 x)) (sym e)
    ∙ ap as_number (read_digits-show_ℕ n s h)

read_list-show :
    (n : ℕ) (ns : List ℕ) (s : Text)
    → read_list (show_ℕ n ++ (show_more ns ++ s)) ≡ some (n ∷ ns, s)
unfolding read_list show_ℕ
read_list-show n ns s =
    let i = digits-StartsDigit (suc n) n (omega arith) in
    let tail = show_more ns ++ s in
    let e : show_ℕ n ++ tail ≡ i.first ∷ (i.rest ++ tail) = ap (λ x. x ++ tail) i.is_first in
    let no : i.first == b']' ≡ false = ground (arith, i.digit) in
    let long = length-append i.rest tail in
    ap read_list e
    ∙ rw no (
        ap (read_items (suc (length (i.rest ++ tail)))) (sym e)
        ∙ read_items-show_more (suc (length (i.rest ++ tail))) n ns s
            (omega (arith, length-show_more ns s, long)))

at_minus : (s : Text) → read_value (b'-' ∷ s) ≡ as_negative (read_digits 0 s)
unfolding read_value
at_minus s = refl

at_quote : (s : Text) → read_value (b'"' ∷ s) ≡ as_text (read_string plain s)
unfolding read_value
at_quote s = refl

at_bracket : (s : Text) → read_value (b'[' ∷ s) ≡ as_nums (read_list s)
unfolding read_value
at_bracket s = refl

-- A quoted text, in front of more.
read_string-quoted :
    (t s : Text) → read_string plain ((escape_json t ++ b'"' ∷ []) ++ s) ≡ some (t, s)
read_string-quoted t s =
    ap (read_string plain) (append_assoc (escape_json t) (b'"' ∷ []) s)
    ∙ read_string-escape_json t s

-- A printed value is read as the value, if what follows is no digit.
pub read_value-show : (v : Value) (s : Text) → Ends s → read_value (show_value v ++ s) ≡ some (v, s)
unfolding show_value
read_value-show null s h = unfold read_value strip_prefix in refl
read_value-show (bool true) s h = unfold read_value strip_prefix in refl
read_value-show (bool false) s h = unfold read_value strip_prefix in refl
read_value-show (num (pos n)) s h = read_value-show_ℕ n s h
read_value-show (num (negsuc n)) s h =
    at_minus (show_ℕ (suc n) ++ s) ∙ ap as_negative (read_digits-show_ℕ (suc n) s h)
read_value-show (text t) s h =
    at_quote ((escape_json t ++ b'"' ∷ []) ++ s) ∙ ap as_text (read_string-quoted t s)
read_value-show (nums []) s h = unfold read_value read_list in refl
read_value-show (nums (n ∷ ns)) s h =
    at_bracket ((show_ℕ n ++ show_more ns) ++ s)
    ∙ ap (λ x. as_nums (read_list x)) (append_assoc (show_ℕ n) (show_more ns) s)
    ∙ ap as_nums (read_list-show n ns s)
