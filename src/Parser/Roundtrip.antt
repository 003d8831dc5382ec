-- ===== src/Parser/Roundtrip.antt =====
-- src/parser.rs, `parse_proc_start`: what Android prints of a start, `[user,pid,uid,process,type,...]`,
-- is read as it was meant.
pub mod Deaths
use mathlib.Core.List.{append_assoc}
use mini_lmk.Base.{
  ℕ, ◌+◌, ◌<◌, Bool, true, false, ◌≡◌, refl, sym, ◌∙◌, ap, subst, some, List, [], ◌∷◌, ◌++◌, ◌==◌,
  ltb, Text, length, arith, two_32,
}
use mini_lmk.Render.Json.{show_ℕ}
use mini_lmk.Parser.Tokens.{tokenize_from, tokenize, token, strip_brackets}
use mini_lmk.Parser.Names.{is_proc_name, package_of}
use mini_lmk.Parser.Start.{accept_start, standard_type, standard_numbers, parse_proc_start}
use mini_lmk.Parser.Printed.{Plain, Leads, show-Leads, show-Plain, parse_u32-show_ℕ}
use mini_lmk.Parser.Payload.{
  Stripped, strip_leading, tokenize-field, Begins, tokenize-Begins, trim-Plain,
}

-- The first five fields.
abbrev pub printed_fields : ℕ → ℕ → ℕ → Text → Text → Text
printed_fields user pid uid proc_name spawn_type =
    show_ℕ user
    ++ (b',' ∷ (show_ℕ pid ++ (b',' ∷ (show_ℕ uid ++ (b',' ∷ (proc_name ++ (b',' ∷ spawn_type)))))))

-- The payload, with whatever follows the fifth field.
abbrev pub printed_start : ℕ → ℕ → ℕ → Text → Text → Text → Text
printed_start user pid uid proc_name spawn_type more =
    b'[' ∷ (printed_fields user pid uid proc_name spawn_type ++ b',' ∷ more)

pub strip-Leads : (front more : Text) → Leads front → Stripped front (b'[' ∷ (front ++ b',' ∷ more))
strip-Leads front more l =
    subst (λ x. Stripped x (b'[' ∷ (x ++ b',' ∷ more))) (sym l.is)
      (strip_leading l.first l.rest more l.digit)

pub Leads-append : (xs ys : Text) → Leads xs → Leads (xs ++ ys)
Leads-append xs ys l = record {
  first = l.first;
  rest = l.rest ++ ys;
  is = ap (λ x. x ++ ys) l.is;
  digit = l.digit;
}

-- A field that stands for itself is stored and the next one begins.
pub next_field :
    (out : List Text) (t s : Text)
    → Plain t
    → length out + 1 < 8
    → tokenize_from 8 0 [] out (t ++ b',' ∷ s) ≡ tokenize_from 8 0 [] (out ++ t ∷ []) s
next_field out t s h l =
    tokenize-field 8 out [] t s h (omega (arith, l))
    ∙ ap (λ x. tokenize_from 8 0 [] (out ++ x ∷ []) s) (trim-Plain t h)

module _ (user pid uid : ℕ) (proc_name spawn_type : Text) (plain_name : Plain proc_name)
    (plain_type : Plain spawn_type) where
  abbrev fields : Text
  fields = printed_fields user pid uid proc_name spawn_type

  abbrev five : List Text
  five = show_ℕ user ∷ show_ℕ pid ∷ show_ℕ uid ∷ proc_name ∷ spawn_type ∷ []

  -- One field behind another.
  fields_apart :
      (z : Text)
      → fields ++ b',' ∷ z
        ≡ show_ℕ user
          ++ b','
            ∷ (show_ℕ pid
                ++ b',' ∷ (show_ℕ uid ++ b',' ∷ (proc_name ++ b',' ∷ (spawn_type ++ b',' ∷ z))))
  fields_apart z =
      append_assoc (show_ℕ user) _ (b',' ∷ z)
      ∙ ap (λ x. show_ℕ user ++ b',' ∷ x)
          (append_assoc (show_ℕ pid) _ (b',' ∷ z)
            ∙ ap (λ x. show_ℕ pid ++ b',' ∷ x)
                (append_assoc (show_ℕ uid) _ (b',' ∷ z)
                  ∙ ap (λ x. show_ℕ uid ++ b',' ∷ x) (append_assoc proc_name _ (b',' ∷ z))))

  tokens_are : (z : Text) → tokenize 8 (fields ++ b',' ∷ z) ≡ tokenize_from 8 0 [] five z
  unfolding tokenize
  tokens_are z =
      ap (tokenize_from 8 0 [] []) (fields_apart z)
      ∙ next_field [] (show_ℕ user) _ (show-Plain user) (omega arith)
      ∙ next_field (show_ℕ user ∷ []) (show_ℕ pid) _ (show-Plain pid) (omega arith)
      ∙ next_field (show_ℕ user ∷ show_ℕ pid ∷ []) (show_ℕ uid) _ (show-Plain uid) (omega arith)
      ∙ next_field (show_ℕ user ∷ show_ℕ pid ∷ show_ℕ uid ∷ []) proc_name _ plain_name (omega arith)
      ∙ next_field (show_ℕ user ∷ show_ℕ pid ∷ show_ℕ uid ∷ proc_name ∷ []) spawn_type z plain_type
          (omega arith)

  stripped_tokens :
      (more : Text)
      → Begins five
          (tokenize 8 (strip_brackets (printed_start user pid uid proc_name spawn_type more)))
  stripped_tokens more =
      let s = strip-Leads fields more (Leads-append (show_ℕ user) _ (show-Leads user)) in
      subst (Begins five) (sym (ap (tokenize 8) s.is ∙ tokens_are s.tail))
        (tokenize-Begins 8 0 [] five s.tail)

  -- The five tokens decide.
  parse_five :
      (alphabetic : ℕ → Bool) (payload : Text)
      → pid < two_32
      → uid < two_32
      → Begins five (tokenize 8 (strip_brackets payload))
      → parse_proc_start alphabetic payload ≡ accept_start proc_name spawn_type pid uid
  unfolding parse_proc_start standard_numbers
  parse_five alphabetic payload p u b =
      let long : ltb (length (five ++ b.more)) 4 ≡ false = ground arith in
      let typed : ltb 4 (length (five ++ b.more)) ≡ true = ground arith in
      rw (b.is, parse_u32-show_ℕ pid p, parse_u32-show_ℕ uid u, long)
        (ap (λ ts. accept_start (token ts 3) (standard_type ts) pid uid) b.is ∙ rw typed refl)

-- Whatever stands behind the fifth field: the payload of a start whose pid is positive and, like its
-- uid, of 32 bits, whose process name and package pass the test on names, and whose name and type
-- hold no white space, comma or brace, is read as the event with just these fields.
pub parse_proc_start-printed :
    (alphabetic : ℕ → Bool) (user pid uid : ℕ) (proc_name spawn_type more : Text)
    → 0 < pid
    → pid < two_32
    → uid < two_32
    → Plain proc_name
    → Plain spawn_type
    → is_proc_name proc_name ≡ true
    → is_proc_name (package_of proc_name) ≡ true
    → parse_proc_start alphabetic (printed_start user pid uid proc_name spawn_type more)
      ≡ some (record {
        proc_name = proc_name;
        pkg = package_of proc_name;
        spawn_type = spawn_type;
        pid = pid;
        uid = uid;
      })
unfolding accept_start
parse_proc_start-printed alphabetic user pid uid proc_name spawn_type more z p u n t is_name
      is_pkg =
    let some_pid : (pid == 0) ≡ false = ground (arith, z) in
    parse_five user pid uid proc_name spawn_type n t alphabetic
      (printed_start user pid uid proc_name spawn_type more) p u
      (stripped_tokens user pid uid proc_name spawn_type n t more)
    ∙ rw (some_pid, is_name, is_pkg) refl
