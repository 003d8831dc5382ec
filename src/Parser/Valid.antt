-- ===== src/Parser/Valid.antt =====
-- src/parser.rs, `parse_proc_start`: what a payload has to hold for an event to come of it.
use mini_lmk.Base.{
  ℕ, suc, ◌<◌, Bool, true, false, ◌≡◌, some, List, [], ◌∷◌, ltb, Text, is_empty, length, arith,
  Bool-cases, Option-cases, inl, inr, two_32,
}
use mini_lmk.Text.Number.{parse_u32, parse_unsigned-lt}
use mini_lmk.Events.Process.{ProcStartEvent}
use mini_lmk.Daemon.{
  LogcatEvent, resume_activity, proc_start, proc_died, screen_toggled, device_idle_light_step,
}
use mini_lmk.Parser.Tokens.{tokenize, token, strip_brackets, max_tokens}
use mini_lmk.Parser.Names.{is_proc_name}
use mini_lmk.Parser.Start.{
  accept_start, Guess, guess_number, guess_token, guess_from, no_guess, spawn_type_at,
  fallback_start, standard_numbers, standard_type, parse_proc_start,
}

pub record ValidStart (ev : ProcStartEvent) : Type 0 where
  pub pid_pos : 0 < ev.pid
  pub pid_u32 : ev.pid < two_32
  pub uid_u32 : ev.uid < two_32
  pub proc_is_name : is_proc_name ev.proc_name ≡ true
  pub pkg_is_name : is_proc_name ev.pkg ≡ true

abbrev pub ValidEvent : LogcatEvent → Type 0
ValidEvent (resume_activity ev) = (is_proc_name ev.pkg ≡ true) × (is_empty ev.component ≡ false)
ValidEvent (proc_start ev) = ValidStart ev
ValidEvent (proc_died ev) = (0 < ev.pid) × (ev.pid < two_32)
ValidEvent (screen_toggled state) = Unit
ValidEvent device_idle_light_step = Unit

pub parse_u32-lt : (s : Text) (n : ℕ) → parse_u32 s ≡ some n → n < two_32
unfolding parse_u32
parse_u32-lt s n h = parse_unsigned-lt two_32 s n h

accept_start-Valid :
    (proc_name spawn_type : Text) (pid uid : ℕ) (ev : ProcStartEvent)
    → pid < two_32
    → uid < two_32
    → accept_start proc_name spawn_type pid uid ≡ some ev
    → ValidStart ev
unfolding accept_start
accept_start-Valid proc_name spawn_type pid uid ev p u h = record {
  pid_pos = ground arith;
  pid_u32 = ground arith;
  uid_u32 = ground arith;
  proc_is_name = ground arith;
  pkg_is_name = ground arith;
}

-- The numbers of a guess fit in 32 bits.
abbrev Fits : Guess → Type 0
Fits g = (g.pid < two_32) × (g.uid < two_32)

guess_token-Fits :
    (alphabetic : ℕ → Bool) (i : ℕ) (tok : Text) (g : Guess)
    → Fits g
    → Fits (guess_token alphabetic i tok g)
unfolding guess_token guess_number
guess_token-Fits alphabetic i tok g h = elim (Option-cases (parse_u32 tok)) [
  | inl e ↦ rw (e, guess_token) (ground (arith, h.0, h.1), ground (arith, h.0, h.1))
  | inr (n, e) ↦
      let l = parse_u32-lt tok n e in
      rw (e, guess_token) (ground (arith, h.0, h.1, l), ground (arith, h.0, h.1, l))
]

guess_from-Fits :
    (alphabetic : ℕ → Bool) (i : ℕ) (toks : List Text) (g : Guess)
    → Fits g
    → Fits (guess_from alphabetic i toks g)
unfolding guess_from
guess_from-Fits alphabetic i [] g h = h
guess_from-Fits alphabetic i (tok ∷ toks) g h =
    guess_from-Fits alphabetic (suc i) toks (guess_token alphabetic i tok g)
      (guess_token-Fits alphabetic i tok g h)

fallback_start-Valid :
    (alphabetic : ℕ → Bool) (tokens : List Text) (ev : ProcStartEvent)
    → fallback_start alphabetic tokens ≡ some ev
    → ValidStart ev
unfolding fallback_start
fallback_start-Valid alphabetic tokens ev h =
    let g = guess_from alphabetic 0 tokens no_guess in
    let f = guess_from-Fits alphabetic 0 tokens no_guess (omega arith, omega arith) in
    elim (Option-cases g.proc_idx) [
      | inl e ↦ ground (arith, h, e)
      | inr (i, e) ↦
          accept_start-Valid (token tokens i) (spawn_type_at tokens i) g.pid g.uid ev f.0 f.1
            (rw e at h)
    ]

standard_numbers-Fits :
    (tokens : List Text) (pid uid : ℕ)
    → standard_numbers tokens ≡ some (pid, uid)
    → (pid < two_32) × (uid < two_32)
unfolding standard_numbers
standard_numbers-Fits tokens pid uid h =
    let p = parse_u32-lt (token tokens 1) in
    let u = parse_u32-lt (token tokens 2) in (ground (arith, h, p pid), ground (arith, h, u uid))

pub parse_proc_start-Valid :
    (alphabetic : ℕ → Bool) (payload : Text) (ev : ProcStartEvent)
    → parse_proc_start alphabetic payload ≡ some ev
    → ValidStart ev
unfolding parse_proc_start
parse_proc_start-Valid alphabetic payload ev h =
    let tokens = tokenize max_tokens (strip_brackets payload) in
    elim (Bool-cases (ltb (length tokens) 4)) [
      | inl e ↦ ground (arith, h, e)
      | inr e ↦ elim (Option-cases (standard_numbers tokens)) [
        | inl f ↦ fallback_start-Valid alphabetic tokens ev (rw (e, f) at h)
        | inr ((pid, uid), f) ↦
            let b = standard_numbers-Fits tokens pid uid f in
            accept_start-Valid (token tokens 3) (standard_type tokens) pid uid ev b.0 b.1
              (rw (e, f) at h)
      ]
    ]
