-- ===== src/Parser/Payload.antt =====
-- src/parser.rs, `strip_brackets`, `tokenize` and `parse_proc_start`: the payload that Android prints
-- for a start, read back.
use mathlib.Core.List.{append_assoc, append-nil}
use mini_lmk.Base.{
  ℕ, suc, ◌<◌, ◌≤◌, Bool, true, false, not, ◌&&◌, ◌≡◌, refl, sym, ◌∙◌, ap, List, [], ◌∷◌, ◌++◌, ltb,
  leb, if◌then◌else◌, Text, length, length-append, is_empty, arith, Bool-cases, inl, inr, all,
  if_keeps,
}
use mini_lmk.Text.{trim_start_matches, trim_end_matches, trim_matches, is_whitespace, trim}
use mini_lmk.Parser.Tokens.{next_depth, is_cut, store, tokenize_from, is_bracket, strip_brackets}
use mini_lmk.Parser.Printed.{is_plain, Plain}

trim_start-at :
    (p : ℕ → Bool) (c : ℕ) (s : Text) → p c ≡ false → trim_start_matches p (c ∷ s) ≡ c ∷ s
unfolding trim_start_matches
trim_start-at p c s h = rw h refl

not_empty : (c : ℕ) (xs ys : Text) → is_empty (xs ++ c ∷ ys) ≡ false
not_empty c [] ys = refl
not_empty c (x ∷ xs) ys = refl

trim_end-through :
    (p : ℕ → Bool) (c : ℕ) (xs ys : Text)
    → p c ≡ false
    → trim_end_matches p (xs ++ c ∷ ys) ≡ xs ++ c ∷ trim_end_matches p ys
unfolding trim_end_matches
trim_end-through p c [] ys h = rw h refl
trim_end-through p c (x ∷ xs) ys h = elim (Bool-cases (p x)) [
  | inr e ↦ rw (e, trim_end-through p c xs ys h) refl
  | inl e ↦ rw (e, trim_end-through p c xs ys h, not_empty c xs (trim_end_matches p ys)) refl
]

trim_end-same : (p : ℕ → Bool) (s : Text) → all (λ c. not (p c)) s ≡ true → trim_end_matches p s ≡ s
unfolding trim_end_matches
trim_end-same p [] h = refl
trim_end-same p (c ∷ s) h = ground (arith, h, trim_end-same p s)

conj_first : (w a b c : Bool) → (not w && a && b && c) ≡ true → w ≡ false
conj_first w a b c h = ground (arith, h)

plain_space : (c : ℕ) → is_plain c ≡ true → is_whitespace c ≡ false
unfolding is_plain
plain_space c h = conj_first (is_whitespace c) _ _ _ h

Plain-inside : (t : Text) → Plain t → all (λ c. not (is_whitespace c)) t ≡ true
Plain-inside [] h = refl
Plain-inside (c ∷ t) h = ground (arith, h, Plain-inside t, plain_space c)

pub trim-Plain : (t : Text) → Plain t → trim t ≡ t
unfolding trim trim_matches
trim-Plain [] h = refl
trim-Plain (c ∷ t) h =
    let n = Plain-inside (c ∷ t) h in
    ap (trim_end_matches is_whitespace) (trim_start-at is_whitespace c t (ground (arith, n)))
    ∙ trim_end-same is_whitespace (c ∷ t) n

-- The comma, the brackets and the digits are no white space.
space_none : (c : ℕ) → (33 ≤ c) × (c ≤ 126) → is_whitespace c ≡ false
unfolding is_whitespace
space_none c h = ground arith

-- What is left of a text between brackets is the text, up to its last comma at least.
pub record Stripped (front payload : Text) : Type 0 where
  pub tail : Text
  pub is : strip_brackets payload ≡ front ++ b',' ∷ tail

trim-leading :
    (c : ℕ) (xs ys : Text)
    → is_whitespace c ≡ false
    → trim (c ∷ xs ++ b',' ∷ ys) ≡ c ∷ xs ++ b',' ∷ trim_end_matches is_whitespace ys
unfolding trim trim_matches
trim-leading c xs ys h =
    ap (trim_end_matches is_whitespace) (trim_start-at is_whitespace c (xs ++ b',' ∷ ys) h)
    ∙ trim_end-through is_whitespace b',' (c ∷ xs) ys (space_none b',' (omega arith, omega arith))

trim_bracket :
    (f : ℕ) (r ys : Text)
    → is_bracket f ≡ false
    → trim_matches is_bracket (b'[' ∷ f ∷ r ++ b',' ∷ ys)
      ≡ f ∷ r ++ b',' ∷ trim_end_matches is_bracket ys
unfolding trim_matches trim_start_matches
trim_bracket f r ys h = rw h (trim_end-through is_bracket b',' (f ∷ r) ys refl)

pub strip_leading :
    (f : ℕ) (r more : Text)
    → (b'0' ≤ f) × (f ≤ b'9')
    → Stripped (f ∷ r) (b'[' ∷ f ∷ r ++ b',' ∷ more)
unfolding strip_brackets
strip_leading f r more d =
    let z1 = trim_end_matches is_whitespace more in
    let e1 = trim-leading b'[' (f ∷ r) more (space_none b'[' (omega arith, omega arith)) in
    let e2 = trim_bracket f r z1 (ground arith) in
    let z2 = trim_end_matches is_bracket z1 in
    let e3 = trim-leading f r z2 (space_none f (omega arith, omega arith)) in
    record {
      tail = trim_end_matches is_whitespace z2;
      is = ap (λ x. trim (trim_matches is_bracket x)) e1 ∙ ap trim e2 ∙ e3;
    }

store_fits :
    (n : ℕ) (out : List Text) (tok : Text) → length out < n → store n out tok ≡ out ++ trim tok ∷ []
unfolding store
store_fits n out tok l = ground (arith, l)

plain_step : (c d : ℕ) → is_plain c ≡ true → (is_cut c d ≡ false) × (next_depth c d ≡ d)
unfolding is_plain
plain_step c d h = (ground (arith, h), ground (arith, h))

-- A field is cut off at its comma.
pub tokenize-field :
    (n : ℕ) (out : List Text) (tok t s : Text)
    → Plain t
    → suc (length out) < n
    → tokenize_from n 0 tok out (t ++ b',' ∷ s)
      ≡ tokenize_from n 0 [] (out ++ trim (tok ++ t) ∷ []) s
unfolding tokenize_from store
tokenize-field n out tok [] s h l =
    let st = store_fits n out tok (omega (arith, l)) in
    let room : leb n (length (out ++ trim tok ∷ [])) ≡ false =
      ground (arith, l, length-append out (trim tok ∷ [])) in
    rw (st, room, append-nil tok) refl
tokenize-field n out tok (c ∷ t) s h l =
    let (uncut, level) = plain_step c 0 (ground (arith, h)) in
    rw (uncut, level)
      (tokenize-field n out (tok ++ c ∷ []) t s (ground (arith, h)) l
        ∙ ap (λ x. tokenize_from n 0 [] (out ++ trim x ∷ []) s) (append_assoc tok (c ∷ []) t))

-- The tokens that were stored stay in front.
pub record Begins (out xs : List Text) : Type 0 where
  pub more : List Text
  pub is : xs ≡ out ++ more

Begins-same : (out : List Text) → Begins out out
Begins-same out = record { more = []; is = sym (append-nil out) }

Begins-trans : (a b c : List Text) → Begins a b → Begins b c → Begins a c
Begins-trans a b c h k = record {
  more = h.more ++ k.more;
  is = k.is ∙ ap (λ x. x ++ k.more) h.is ∙ append_assoc a h.more k.more;
}

store-Begins : (n : ℕ) (out : List Text) (tok : Text) → Begins out (store n out tok)
unfolding store
store-Begins n out tok =
    if_keeps (Begins out) (ltb (length out) n) (out ++ trim tok ∷ []) out
      (record { more = trim tok ∷ []; is = refl }) (Begins-same out)

pub tokenize-Begins :
    (n d : ℕ) (tok : Text) (out : List Text) (s : Text) → Begins out (tokenize_from n d tok out s)
unfolding tokenize_from
tokenize-Begins n d tok out [] = store-Begins n out tok
tokenize-Begins n d tok out (c ∷ s) =
    let out' = if is_cut c d then store n out tok else out in
    let tok' = if is_cut c d then [] else tok ++ c ∷ [] in
    let front : Begins out out' =
      if_keeps (Begins out) (is_cut c d) (store n out tok) out (store-Begins n out tok)
        (Begins-same out) in
    if_keeps (Begins out) (is_cut c d && leb n (length out')) out' _ front
      (Begins-trans out out' _ front (tokenize-Begins n (next_depth c d) tok' out' s))
