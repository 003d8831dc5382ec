-- ===== src/Base/Int.antt =====
-- Signed integers over the native numbers, and the machine words of the program: the wrap-around
-- of `u32`, `u64` and `i64` arithmetic (the release profile sets `overflow-checks = false`).
use Prim.Native.Nat.{ℕ, suc, ◌+◌, ◌-◌, ◌%◌, ◌^◌, ◌≤◌}
use mathlib.Core.Bool.{Bool, ◌&&◌}
use mini_lmk.Base.Tests.{ltb, leb, if◌then◌else◌}

-- `negsuc n` is -(n + 1).
pub data ℤ : Type 0 where
  pos : ℕ → ℤ
  negsuc : ℕ → ℤ

abbrev pub pos_part : ℤ → ℕ
pos_part (pos n) = n
pos_part (negsuc n) = 0

abbrev pub neg_part : ℤ → ℕ
neg_part (pos n) = 0
neg_part (negsuc n) = suc n

-- a - b, as an integer.
abbrev pub sub_ℕ : ℕ → ℕ → ℤ
sub_ℕ a b = if leb b a then pos (a - b) else negsuc (b - a - 1)

abbrev pub neg : ℤ → ℤ
neg a = sub_ℕ (neg_part a) (pos_part a)

infixl 65 ◌+ℤ◌
abbrev pub ◌+ℤ◌ : ℤ → ℤ → ℤ
a +ℤ b = sub_ℕ (pos_part a + pos_part b) (neg_part a + neg_part b)

infix 50 ◌≤ℤ◌
abbrev pub ◌≤ℤ◌ : ℤ → ℤ → Type 0
a ≤ℤ b = pos_part a + neg_part b ≤ pos_part b + neg_part a

abbrev pub leb_ℤ : ℤ → ℤ → Bool
leb_ℤ a b = leb (pos_part a + neg_part b) (pos_part b + neg_part a)

abbrev pub ltb_ℤ : ℤ → ℤ → Bool
ltb_ℤ a b = ltb (pos_part a + neg_part b) (pos_part b + neg_part a)

abbrev pub eqb_ℤ : ℤ → ℤ → Bool
eqb_ℤ a b = leb_ℤ a b && leb_ℤ b a

abbrev pub min_ℤ : ℤ → ℤ → ℤ
min_ℤ a b = if leb_ℤ a b then a else b

abbrev pub max_ℤ : ℤ → ℤ → ℤ
max_ℤ a b = if leb_ℤ a b then b else a

abbrev pub two_32 : ℕ
two_32 = 2 ^ 32

abbrev pub two_63 : ℕ
two_63 = 2 ^ 63

abbrev pub two_64 : ℕ
two_64 = 2 ^ 64

-- `a + b` on `u32` and on `u64`.
abbrev pub add_u32 : ℕ → ℕ → ℕ
add_u32 a b = (a + b) % two_32

abbrev pub add_u64 : ℕ → ℕ → ℕ
add_u64 a b = (a + b) % two_64

-- `x as i64` of a `u64`: the upper half of the range reads as negative.
abbrev pub as_i64 : ℕ → ℤ
as_i64 x = if ltb x two_63 then pos x else negsuc (two_64 - x - 1)

-- `-x` on `i64`: the least value is its own negation.
abbrev pub neg_i64 : ℤ → ℤ
neg_i64 x = if leb two_63 (neg_part x) then x else neg x

-- `a + b` on `i64`: the residue of the two's complement patterns.
abbrev pub add_i64 : ℤ → ℤ → ℤ
add_i64 a b =
    let p = (pos_part a + pos_part b + (two_64 - neg_part a) + (two_64 - neg_part b)) % two_64 in
    as_i64 p

-- `u64::saturating_add_signed`.
abbrev pub saturating_add_signed : ℕ → ℤ → ℕ
saturating_add_signed t (pos n) = if ltb (t + n) two_64 then t + n else two_64 - 1
saturating_add_signed t (negsuc n) = t - suc n

-- `a + b` on `i32`.
abbrev pub add_i32 : ℤ → ℤ → ℤ
add_i32 a b =
    let p = (pos_part a + pos_part b + (two_32 - neg_part a) + (two_32 - neg_part b)) % two_32 in
    if ltb p (2 ^ 31) then pos p else negsuc (two_32 - p - 1)
