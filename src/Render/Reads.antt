-- ===== src/Render/Reads.antt =====
-- src/kill.rs, src/daemon.rs and src/events.rs, the JSON lines, against a reader of JSON objects.
use mathlib.Core.List.{append_assoc}
use mini_lmk.Base.{
  ℕ, zero, suc, ◌+◌, ◌<◌, ◌≡◌, refl, ◌∙◌, ap, Option, none, some, List, [], ◌∷◌, ◌++◌, ◌==◌,
  if◌then◌else◌, Text, arith, length, length-append,
}
use mini_lmk.Text.{codes}
use mini_lmk.Telemetry.Escape.{plain, read_string, escape_json, read_string-escape_json}
use mini_lmk.State.{LogRecord}
use mini_lmk.Render.Json.{Value, show_value, Field, show_field, show_fields, show_object}
use mini_lmk.Render.Numbers.{Ends}
use mini_lmk.Render.Values.{read_value, read_value-show}
use mini_lmk.Render.{to_json, record_time, record_fields, number}

-- A field: a quoted key, a colon, and a value.
abbrev with_key : Text → Option (Value × Text) → Option (Field × Text)
with_key k none = none
with_key k (some (v, rest)) = some ((k, v), rest)

unfoldable read_keyed : Text → Text → Option (Field × Text)
unfolding read_value
read_keyed k [] = none
read_keyed k (c ∷ s) = if c == b':' then with_key k (read_value s) else none

abbrev keyed : Option (Text × Text) → Option (Field × Text)
keyed none = none
keyed (some (k, rest)) = read_keyed k rest

unfoldable read_field : Text → Option (Field × Text)
unfolding read_keyed read_string
read_field [] = none
read_field (c ∷ s) = if c == b'"' then keyed (read_string plain s) else none

field_at_quote : (s : Text) → read_field (b'"' ∷ s) ≡ keyed (read_string plain s)
unfolding read_field
field_at_quote s = refl

read_keyed-show :
    (k : Text) (v : Value) (s : Text)
    → Ends s
    → read_keyed k (b':' ∷ (show_value v ++ s)) ≡ some ((k, v), s)
unfolding read_keyed
read_keyed-show k v s h = ap (with_key k) (read_value-show v s h)

read_field-show : (f : Field) (s : Text) → Ends s → read_field (show_field f ++ s) ≡ some (f, s)
unfolding show_field
read_field-show (k, v) s h =
    let tail = b'"' ∷ b':' ∷ show_value v in
    field_at_quote ((escape_json k ++ tail) ++ s)
    ∙ ap (λ x. keyed (read_string plain x)) (append_assoc (escape_json k) tail s)
    ∙ ap keyed (read_string-escape_json k (b':' ∷ (show_value v ++ s)))
    ∙ read_keyed-show k v s h

abbrev cons_field : Field → Option (List Field × Text) → Option (List Field × Text)
cons_field f none = none
cons_field f (some (fs, rest)) = some (f ∷ fs, rest)

-- A field, and what a reader of more fields makes of the rest.
abbrev and_more :
    (Text → Option (List Field × Text)) → Option (Field × Text) → Option (List Field × Text)
and_more more none = none
and_more more (some (f, rest)) = cons_field f (more rest)

-- The fields behind the first one; `n` bounds their number.
unfoldable read_fields : ℕ → Text → Option (List Field × Text)
unfolding read_field
read_fields zero s = none
read_fields (suc n) [] = none
read_fields (suc n) (c ∷ s) =
    let more = and_more (λ x. read_fields n x) (read_field s) in
    if c == b'}' then some ([], s) else if c == b',' then more else none

-- The object that a text begins with, and what stands behind it.
unfoldable pub read_object : Text → Option (List Field × Text)
unfolding read_field read_fields
read_object [] = none
read_object (c ∷ s) =
    if c == b'{' then and_more (λ x. read_fields (length s) x) (read_field s) else none

show_fields-Ends : (fs : List Field) (s : Text) → Ends (show_fields fs ++ s)
unfolding show_fields
show_fields-Ends [] s = refl
show_fields-Ends (f ∷ fs) s = refl

read_fields-show :
    (n : ℕ) (fs : List Field) (s : Text)
    → length fs < n
    → read_fields n (show_fields fs ++ s) ≡ some (fs, s)
unfolding read_fields show_fields
read_fields-show zero fs s h = elim h [ ]
read_fields-show (suc n) [] s h = refl
read_fields-show (suc n) (f ∷ fs) s h =
    let more = λ (x : Text). read_fields n x in
    ap (λ x. and_more more (read_field x)) (append_assoc (show_field f) (show_fields fs) s)
    ∙ ap (and_more more) (read_field-show f (show_fields fs ++ s) (show_fields-Ends fs s))
    ∙ ap (cons_field f) (read_fields-show n fs s (omega arith))

length-show_fields : (fs : List Field) (s : Text) → length fs < length (show_fields fs ++ s)
unfolding show_fields
length-show_fields [] s = omega arith
length-show_fields (f ∷ fs) s =
    let e : length ((show_field f ++ show_fields fs) ++ s)
        ≡ length (show_field f) + length (show_fields fs ++ s) =
      ap length (append_assoc (show_field f) (show_fields fs) s)
      ∙ length-append (show_field f) (show_fields fs ++ s) in
    omega (arith, e, length-show_fields fs s)

read_object-show :
    (f : Field) (fs : List Field) (s : Text)
    → read_object (show_object f fs ++ s) ≡ some (f ∷ fs, s)
unfolding read_object show_object
read_object-show f fs s =
    let body = show_field f ++ (show_fields fs ++ s) in
    let e : (show_field f ++ show_fields fs) ++ s ≡ body =
      append_assoc (show_field f) (show_fields fs) s in
    let long = length-append (show_field f) (show_fields fs ++ s) in
    ap (λ x. and_more (λ y. read_fields (length x) y) (read_field x)) e
    ∙ ap (and_more (λ y. read_fields (length body) y))
        (read_field-show f (show_fields fs ++ s) (show_fields-Ends fs s))
    ∙ ap (cons_field f)
        (read_fields-show (length body) fs s (omega (arith, long, length-show_fields fs s)))

-- Whatever a record holds, a reader of JSON objects reads its line as the time of the record and its
-- fields, in their order and with their values, and stops behind it: no name of a package or of a
-- process can add, hide or change a field.
pub read_object-to_json :
    (r : LogRecord) (rest : Text)
    → read_object (to_json r ++ rest)
      ≡ some ((codes "ts", number (record_time r)) ∷ record_fields r, rest)
unfolding to_json
read_object-to_json r rest =
    read_object-show (codes "ts", number (record_time r)) (record_fields r) rest
