-- ===== src/Parser/Roundtrip/Deaths.antt =====
-- src/parser.rs, `parse_proc_died`: what Android prints of a death, `[user,pid,process,...]`, is read as
-- it was meant.
use mathlib.Core.List.{append_assoc, append-nil}
use mini_lmk.Base.{
  ℕ, ◌+◌, ◌/◌, ◌%◌, ◌<◌, ◌≤◌, true, false, ◌≡◌, refl, sym, ◌∙◌, ap, subst, some, none, List, [],
  ◌∷◌, ◌++◌, ltb, if◌then◌else◌, Text, length, arith, two_32, zero, suc, Bool-cases, Option-cases,
  inl, inr, is_empty, if_keeps,
}
use mini_lmk.Text.{trim}
use mini_lmk.Text.Number.{parse_u32}
use mini_lmk.Render.Json.{show_ℕ, digits}
use mini_lmk.Parser.Tokens.{tokenize_from, tokenize, strip_brackets}
use mini_lmk.Parser.Names.{scan_name, is_proc_name}
use mini_lmk.Parser.Died.{pid_before, find_pid, parse_proc_died}
use mini_lmk.Parser.Printed.{Plain, show-Leads, show-Plain, parse_u32-show_ℕ}
use mini_lmk.Parser.Payload.{Begins, tokenize-Begins, trim-Plain}
use mini_lmk.Parser.Roundtrip.{strip-Leads, Leads-append, next_field}

-- The first three fields.
abbrev pub died_fields : ℕ → ℕ → Text → Text
died_fields user pid proc_name = show_ℕ user ++ (b',' ∷ (show_ℕ pid ++ (b',' ∷ proc_name)))

-- The payload, with whatever follows the third field.
abbrev pub printed_death : ℕ → ℕ → Text → Text → Text
printed_death user pid proc_name more = b'[' ∷ (died_fields user pid proc_name ++ b',' ∷ more)

scan_name-digits :
    (f n : ℕ) (s : Text) → n < f → scan_name false (digits f n ++ s) ≡ scan_name false s
unfolding digits scan_name
scan_name-digits zero n s h = elim h [ ]
scan_name-digits (suc f) n s h = elim (Bool-cases (ltb n 10)) [
  | inl e ↦ rw e (ground (arith, e))
  | inr e ↦
      let big : 10 ≤ n = ground (arith, e) in
      let d = b'0' + n % 10 in
      rw e (
        ap (scan_name false) (append_assoc (digits f (n / 10)) (d ∷ []) s)
        ∙ scan_name-digits f (n / 10) (d ∷ s) (omega arith)
        ∙ ground arith)
]

not_name : (t : Text) → trim t ≡ t → scan_name false t ≡ false → is_proc_name t ≡ false
unfolding is_proc_name
not_name t e h =
    ap (λ u. if is_empty u then false else scan_name false u) e
    ∙ if_keeps (λ b. b ≡ false) (is_empty t) false (scan_name false t) refl h

-- A number is no process name.
show-is_proc_name : (n : ℕ) → is_proc_name (show_ℕ n) ≡ false
unfolding show_ℕ scan_name
show-is_proc_name n = not_name (show_ℕ n) (trim-Plain (show_ℕ n) (show-Plain n)) (
    ap (scan_name false) (sym (append-nil (digits (suc n) n)))
    ∙ scan_name-digits (suc n) n [] (omega arith))

pid_before-none : (tok next : Text) → is_proc_name next ≡ false → pid_before tok next ≡ none
unfolding pid_before
pid_before-none tok next h = elim (Option-cases (parse_u32 tok)) [
  | inl e ↦ rw (e, pid_before) refl
  | inr (n, e) ↦ rw (e, pid_before) (ground (arith, h))
]

pid_before-some :
    (pid : ℕ) (next : Text)
    → 0 < pid
    → pid < two_32
    → is_proc_name next ≡ true
    → pid_before (show_ℕ pid) next ≡ some pid
unfolding pid_before
pid_before-some pid next z p h = rw (parse_u32-show_ℕ pid p, pid_before) (ground (arith, z, h))

find_step_none :
    (tok next : Text) (toks : List Text)
    → pid_before tok next ≡ none
    → find_pid (tok ∷ next ∷ toks) ≡ find_pid (next ∷ toks)
unfolding find_pid
find_step_none tok next toks h = rw (h, find_pid) refl

find_step_some :
    (tok next : Text) (toks : List Text) (pid : ℕ)
    → pid_before tok next ≡ some pid
    → find_pid (tok ∷ next ∷ toks) ≡ some pid
unfolding find_pid
find_step_some tok next toks pid h = rw (h, find_pid) refl

module _ (user pid : ℕ) (proc_name : Text) (plain_name : Plain proc_name) where
  abbrev died : Text
  died = died_fields user pid proc_name

  abbrev three : List Text
  three = show_ℕ user ∷ show_ℕ pid ∷ proc_name ∷ []

  died_tokens : (z : Text) → tokenize 8 (died ++ b',' ∷ z) ≡ tokenize_from 8 0 [] three z
  unfolding tokenize
  died_tokens z =
      ap (tokenize_from 8 0 [] []) (
        append_assoc (show_ℕ user) _ (b',' ∷ z)
        ∙ ap (λ x. show_ℕ user ++ b',' ∷ x) (append_assoc (show_ℕ pid) _ (b',' ∷ z)))
      ∙ next_field [] (show_ℕ user) _ (show-Plain user) (omega arith)
      ∙ next_field (show_ℕ user ∷ []) (show_ℕ pid) _ (show-Plain pid) (omega arith)
      ∙ next_field (show_ℕ user ∷ show_ℕ pid ∷ []) proc_name z plain_name (omega arith)

  stripped_death :
      (more : Text)
      → Begins three (tokenize 8 (strip_brackets (printed_death user pid proc_name more)))
  stripped_death more =
      let s = strip-Leads died more (Leads-append (show_ℕ user) _ (show-Leads user)) in
      subst (Begins three) (sym (ap (tokenize 8) s.is ∙ died_tokens s.tail))
        (tokenize-Begins 8 0 [] three s.tail)

  find_third :
      (zs : List Text)
      → 0 < pid
      → pid < two_32
      → is_proc_name proc_name ≡ true
      → find_pid (three ++ zs) ≡ some pid
  find_third zs z p h =
      find_step_none (show_ℕ user) (show_ℕ pid) (proc_name ∷ zs)
        (pid_before-none (show_ℕ user) (show_ℕ pid) (show-is_proc_name pid))
      ∙ find_step_some (show_ℕ pid) proc_name zs pid (pid_before-some pid proc_name z p h)

  read_three :
      (payload : Text)
      → 0 < pid
      → pid < two_32
      → is_proc_name proc_name ≡ true
      → Begins three (tokenize 8 (strip_brackets payload))
      → parse_proc_died payload ≡ some (record { pid = pid })
  unfolding parse_proc_died
  read_three payload z p h b =
      let long : ltb (length (three ++ b.more)) 2 ≡ false = ground arith in
      rw (b.is, long, find_third b.more z p h) refl

-- Whatever stands behind the third field: the payload of a death whose pid is positive and of 32 bits,
-- and whose process name passes the test on names and holds no white space, comma or brace, is read
-- as the death of that pid, also where the first field, the user, is a number that could be one.
pub parse_proc_died-printed :
    (user pid : ℕ) (proc_name more : Text)
    → 0 < pid
    → pid < two_32
    → Plain proc_name
    → is_proc_name proc_name ≡ true
    → parse_proc_died (printed_death user pid proc_name more) ≡ some (record { pid = pid })
parse_proc_died-printed user pid proc_name more z p n h =
    read_three user pid proc_name n (printed_death user pid proc_name more) z p h
      (stripped_death user pid proc_name n more)
