-- ===== src/Parser/Printed.antt =====
-- src/parser.rs, `parse_proc_start`: the payload that Android prints for a start.
use mathlib.Core.List.{append_assoc, append-nil}
use mini_lmk.Base.{
  ℕ, zero, suc, ◌+◌, ◌-◌, ◌*◌, ◌/◌, ◌%◌, ◌<◌, ◌≤◌, Bool, true, not, ◌&&◌, ◌≡◌, refl, sym, ◌∙◌, ap,
  subst, some, [], ◌∷◌, ◌++◌, ◌==◌, ltb, leb, Text, arith, Bool-cases, inl, inr, two_32, all,
}
use mini_lmk.Text.{is_whitespace}
use mini_lmk.Text.Number.{digits_from, magnitude, parse_unsigned, parse_u32}
use mini_lmk.Render.Json.{digits, show_ℕ}
use mini_lmk.Parser.Tokens.{}

-- A character that stands for itself in a field of a payload.
unfoldable pub is_plain : ℕ → Bool
is_plain c = not (is_whitespace c) && not (c == b',') && not (c == b'{') && not (c == b'}')

abbrev pub Plain : Text → Type 0
Plain t = all is_plain t ≡ true

digits_from-digit :
    (n d : ℕ) (s : Text) → d < 10 → digits_from n ((b'0' + d) ∷ s) ≡ digits_from (n * 10 + d) s
unfolding digits_from
digits_from-digit n d s h =
    let e : (leb b'0' (b'0' + d) && leb (b'0' + d) b'9') ≡ true = ground arith in
    let m : n * 10 + (b'0' + d - b'0') ≡ n * 10 + d = omega arith in rw (e, m) refl

digits_from-digits :
    (f n : ℕ) (s : Text) → n < f → digits_from 0 (digits f n ++ s) ≡ digits_from n s
unfolding digits
digits_from-digits zero n s h = elim h [ ]
digits_from-digits (suc f) n s h = elim (Bool-cases (ltb n 10)) [
  | inl e ↦
      rw e (digits_from-digit 0 n s (ground (arith, e)) ∙ ap (λ x. digits_from x s) (omega arith))
  | inr e ↦
      let big : 10 ≤ n = ground (arith, e) in
      let d = b'0' + n % 10 in
      rw e (
        ap (digits_from 0) (append_assoc (digits f (n / 10)) (d ∷ []) s)
        ∙ digits_from-digits f (n / 10) (d ∷ s) (omega arith)
        ∙ digits_from-digit (n / 10) (n % 10) s (omega arith)
        ∙ ap (λ x. digits_from x s) (omega arith))
]

-- A text that begins with a digit.
pub record Leads (s : Text) : Type 0 where
  pub first : ℕ
  pub rest : Text
  pub is : s ≡ first ∷ rest
  pub digit : (b'0' ≤ first) × (first ≤ b'9')

digits-Leads : (f n : ℕ) → n < f → Leads (digits f n)
unfolding digits
digits-Leads zero n h = elim h [ ]
digits-Leads (suc f) n h = elim (Bool-cases (ltb n 10)) [
  | inl e ↦
      rw e (record {
        first = b'0' + n;
        rest = [];
        is = refl;
        digit = (omega arith, ground (arith, e));
      })
  | inr e ↦
      let big : 10 ≤ n = ground (arith, e) in
      let i = digits-Leads f (n / 10) (omega arith) in
      let last = (b'0' + n % 10) ∷ [] in
      rw e (record {
        first = i.first;
        rest = i.rest ++ last;
        is = ap (λ x. x ++ last) i.is;
        digit = i.digit;
      })
]

pub show-Leads : (n : ℕ) → Leads (show_ℕ n)
unfolding show_ℕ
show-Leads n = digits-Leads (suc n) n (omega arith)

parse_leading :
    (s : Text) (n : ℕ) → Leads s → digits_from 0 s ≡ some n → n < two_32 → parse_u32 s ≡ some n
unfolding parse_u32 parse_unsigned magnitude
parse_leading s n l e h =
    subst (λ x. digits_from 0 x ≡ some n → parse_u32 x ≡ some n) (sym l.is)
      (λ d. ground (arith, d, h, l.digit)) e

-- What `{}` prints of a number of 32 bits is parsed as the number.
pub parse_u32-show_ℕ : (n : ℕ) → n < two_32 → parse_u32 (show_ℕ n) ≡ some n
unfolding show_ℕ digits_from
parse_u32-show_ℕ n h =
    parse_leading (show_ℕ n) n (show-Leads n)
      (ap (digits_from 0) (sym (append-nil (digits (suc n) n)))
        ∙ digits_from-digits (suc n) n [] (omega arith))
      h

all-append :
    (p : ℕ → Bool) (xs ys : Text) → all p xs ≡ true → all p ys ≡ true → all p (xs ++ ys) ≡ true
all-append p [] ys h k = k
all-append p (x ∷ xs) ys h k = ground (arith, h, all-append p xs ys, k)

digit-plain : (d : ℕ) → d < 10 → is_plain (b'0' + d) ≡ true
unfolding is_plain is_whitespace
digit-plain d h = ground arith

digits-Plain : (f n : ℕ) → n < f → Plain (digits f n)
unfolding digits
digits-Plain zero n h = elim h [ ]
digits-Plain (suc f) n h = elim (Bool-cases (ltb n 10)) [
  | inl e ↦ rw e (rw (digit-plain n (ground (arith, e))) refl)
  | inr e ↦
      let big : 10 ≤ n = ground (arith, e) in
      rw e (
        all-append is_plain (digits f (n / 10)) ((b'0' + n % 10) ∷ [])
          (digits-Plain f (n / 10) (omega arith)) (rw (digit-plain (n % 10) (omega arith)) refl))
]

pub show-Plain : (n : ℕ) → Plain (show_ℕ n)
unfolding show_ℕ
show-Plain n = digits-Plain (suc n) n (omega arith)
