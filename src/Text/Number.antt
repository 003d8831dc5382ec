-- ===== src/Text/Number.antt =====
-- `str::parse` at the integer types: an optional sign, at least one decimal digit, no overflow.
use mini_lmk.Base.{
  ℕ, ◌+◌, ◌-◌, ◌*◌, ◌^◌, ◌<◌, ◌&&◌, Option, none, some, [], ◌∷◌, ◌==◌, leb, ltb, if◌then◌else◌,
  Text, ℤ, pos, neg, two_32, two_64, ◌≡◌, arith, ◌>>=◌,
}

unfoldable pub digits_from : ℕ → Text → Option ℕ
digits_from n [] = some n
digits_from n (c ∷ s) =
    let rest = digits_from (n * 10 + (c - b'0')) s in
    if leb b'0' c && leb c b'9' then rest else none

-- At least one digit, and a value below the limit.
unfoldable pub magnitude : ℕ → Text → Option ℕ
unfolding digits_from
magnitude limit [] = none
magnitude limit (c ∷ s) = do n ← digits_from 0 (c ∷ s); if ltb n limit then some n else none

-- The unsigned types take a leading `+`, and no `-`.
unfoldable pub parse_unsigned : ℕ → Text → Option ℕ
unfolding magnitude
parse_unsigned limit [] = none
parse_unsigned limit (c ∷ s) = if c == b'+' then magnitude limit s else magnitude limit (c ∷ s)

unfoldable pub parse_u32 : Text → Option ℕ
unfolding parse_unsigned
parse_u32 s = parse_unsigned two_32 s

unfoldable pub parse_u64 : Text → Option ℕ
unfolding parse_unsigned
parse_u64 s = parse_unsigned two_64 s

-- `usize` is 64 bits wide on the shipped 64-bit targets.
unfoldable pub parse_usize : Text → Option ℕ
unfolding parse_unsigned
parse_usize s = parse_unsigned two_64 s

unfoldable pub parse_i32 : Text → Option ℤ
unfolding magnitude
parse_i32 [] = none
parse_i32 (c ∷ s) =
    if c == b'-'
    then (do n ← magnitude (2 ^ 31 + 1) s; some (neg (pos n)))
    else if c == b'+'
    then (do n ← magnitude (2 ^ 31) s; some (pos n))
    else (do n ← magnitude (2 ^ 31) (c ∷ s); some (pos n))

pub magnitude-lt : (limit : ℕ) (s : Text) (n : ℕ) → magnitude limit s ≡ some n → n < limit
unfolding magnitude
magnitude-lt limit [] n h = ground arith
magnitude-lt limit (c ∷ s) n h = ground arith

pub parse_unsigned-lt : (limit : ℕ) (s : Text) (n : ℕ) → parse_unsigned limit s ≡ some n → n < limit
unfolding parse_unsigned
parse_unsigned-lt limit [] n h = ground arith
parse_unsigned-lt limit (c ∷ s) n h =
    ground (arith, magnitude-lt limit s n, magnitude-lt limit (c ∷ s) n)
