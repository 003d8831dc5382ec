-- ===== src/Render/Numbers.antt =====
-- The numbers of the JSON lines, against a reader of digits.
use mathlib.Core.List.{append_assoc}
use mini_lmk.Base.{
  ℕ, zero, suc, ◌+◌, ◌-◌, ◌*◌, ◌/◌, ◌%◌, ◌<◌, ◌≤◌, true, false, ◌≡◌, refl, ◌∙◌, ap, [], ◌∷◌, ◌++◌,
  ltb, if◌then◌else◌, Text, arith, Bool-cases, inl, inr,
}
use mini_lmk.Text.{is_digit}
use mini_lmk.Render.Json.{digits, show_ℕ}

-- A number, from the digits read so far.
unfoldable pub read_digits : ℕ → Text → ℕ × Text
read_digits n [] = (n, [])
read_digits n (c ∷ s) =
    let more = read_digits (n * 10 + (c - b'0')) s in if is_digit c then more else (n, c ∷ s)

-- Text that does not begin with a digit.
abbrev pub Ends : Text → Type 0
Ends [] = Unit
Ends (c ∷ s) = is_digit c ≡ false

read_digits-end : (n : ℕ) (s : Text) → Ends s → read_digits n s ≡ (n, s)
unfolding read_digits
read_digits-end n [] h = refl
read_digits-end n (c ∷ s) h = rw h refl

read_digit :
    (n d : ℕ) (s : Text) → d < 10 → read_digits n ((b'0' + d) ∷ s) ≡ read_digits (n * 10 + d) s
unfolding read_digits
read_digit n d s h =
    let e : is_digit (b'0' + d) ≡ true = ground arith in
    let m : n * 10 + (b'0' + d - b'0') ≡ n * 10 + d = omega arith in rw (e, m) refl

read_digits-digits :
    (f n : ℕ) (s : Text) → n < f → read_digits 0 (digits f n ++ s) ≡ read_digits n s
unfolding digits
read_digits-digits zero n s h = elim h [ ]
read_digits-digits (suc f) n s h = elim (Bool-cases (ltb n 10)) [
  | inl e ↦ rw e (read_digit 0 n s (ground (arith, e)) ∙ ap (λ x. read_digits x s) (omega arith))
  | inr e ↦
      let big : 10 ≤ n = ground (arith, e) in
      let d = b'0' + n % 10 in
      rw e (
        ap (read_digits 0) (append_assoc (digits f (n / 10)) (d ∷ []) s)
        ∙ read_digits-digits f (n / 10) (d ∷ s) (omega arith)
        ∙ read_digit (n / 10) (n % 10) s (omega arith)
        ∙ ap (λ x. read_digits x s) (omega arith))
]

pub read_digits-show_ℕ : (n : ℕ) (s : Text) → Ends s → read_digits 0 (show_ℕ n ++ s) ≡ (n, s)
unfolding show_ℕ
read_digits-show_ℕ n s h = read_digits-digits (suc n) n s (omega arith) ∙ read_digits-end n s h

-- The digits of a number begin with a digit.
pub record StartsDigit (s : Text) : Type 0 where
  pub first : ℕ
  pub rest : Text
  pub is_first : s ≡ first ∷ rest
  pub digit : is_digit first ≡ true

pub digits-StartsDigit : (f n : ℕ) → n < f → StartsDigit (digits f n)
unfolding digits
digits-StartsDigit zero n h = elim h [ ]
digits-StartsDigit (suc f) n h = elim (Bool-cases (ltb n 10)) [
  | inl e ↦
      rw e (record { first = b'0' + n; rest = []; is_first = refl; digit = ground (arith, e) })
  | inr e ↦
      let big : 10 ≤ n = ground (arith, e) in
      let i = digits-StartsDigit f (n / 10) (omega arith) in
      let last = (b'0' + n % 10) ∷ [] in
      rw e (record {
        first = i.first;
        rest = i.rest ++ last;
        is_first = ap (λ x. x ++ last) i.is_first;
        digit = i.digit;
      })
]
