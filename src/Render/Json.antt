-- ===== src/Render/Json.antt =====
-- The `format!` strings of the records: how Rust prints the values that stand in them, and the shape
-- `{"key":value,...}` that all of them have.
use mini_lmk.Base.{
  ℕ, zero, suc, ◌+◌, ◌/◌, ◌%◌, Bool, true, false, List, [], ◌∷◌, ◌++◌, ltb, if◌then◌else◌, Text, ℤ,
  pos, negsuc,
}
use mini_lmk.Text.{codes}
use mini_lmk.Telemetry.Escape.{escape_json}

-- The decimal digits of a number; a number has fewer digits than its successor counts.
unfoldable pub digits : ℕ → ℕ → Text
digits zero n = []
digits (suc f) n =
    let front = digits f (n / 10) in
    if ltb n 10 then (b'0' + n) ∷ [] else front ++ (b'0' + n % 10) ∷ []

-- `{}` at the unsigned types, at the signed types, and at `bool`.
unfoldable pub show_ℕ : ℕ → Text
unfolding digits
show_ℕ n = digits (suc n) n

unfoldable pub show_ℤ : ℤ → Text
unfolding show_ℕ
show_ℤ (pos n) = show_ℕ n
show_ℤ (negsuc n) = b'-' ∷ show_ℕ (suc n)

abbrev pub show_bool : Bool → Text
show_bool true = codes "true"
show_bool false = codes "false"

-- `{:?}` at a list of numbers.
unfoldable pub show_more : List ℕ → Text
unfolding show_ℕ
show_more [] = b']' ∷ []
show_more (n ∷ ns) = b',' ∷ b' ' ∷ (show_ℕ n ++ show_more ns)

unfoldable pub show_list : List ℕ → Text
unfolding show_more show_ℕ
show_list [] = codes "[]"
show_list (n ∷ ns) = b'[' ∷ (show_ℕ n ++ show_more ns)

-- The values of the fields.
pub data Value : Type 0 where
  null : Value
  bool : Bool → Value
  num : ℤ → Value
  text : Text → Value
  nums : List ℕ → Value

unfoldable pub show_value : Value → Text
unfolding show_ℤ show_list escape_json
show_value null = codes "null"
show_value (bool b) = show_bool b
show_value (num n) = show_ℤ n
show_value (text s) = b'"' ∷ (escape_json s ++ b'"' ∷ [])
show_value (nums ns) = show_list ns

abbrev pub Field : Type 0
Field = Text × Value

-- A key stands in the format string as it is: escaping leaves it alone.
unfoldable pub show_field : Field → Text
unfolding show_value escape_json
show_field (key, v) = b'"' ∷ (escape_json key ++ b'"' ∷ b':' ∷ show_value v)

unfoldable pub show_fields : List Field → Text
unfolding show_field
show_fields [] = b'}' ∷ []
show_fields (f ∷ fs) = b',' ∷ (show_field f ++ show_fields fs)

unfoldable pub show_object : Field → List Field → Text
unfolding show_field show_fields
show_object f fs = b'{' ∷ (show_field f ++ show_fields fs)
