-- ===== src/Parser/Sound.antt =====
-- src/parser.rs: what a line has to hold for an event to come of it.
use mini_lmk.Base.{
  ℕ, ◌+◌, ◌<◌, ◌≤◌, Bool, ◌||◌, ◌≡◌, refl, sym, subst, ◌>>=◌, Option, none, some, List, [], ◌∷◌,
  ◌==◌, ltb, if◌then◌else◌, Text, is_empty, length, take, arith, Bool-cases, Option-cases, inl, inr,
  two_32, two_64, text_beq,
}
use mini_lmk.Base.Map.{map_option}
use mini_lmk.Text.{codes, trim, split_once, split_whitespace, starts_with}
use mini_lmk.Text.Number.{parse_u32}
use mini_lmk.Events.Resume.{ResumeActivityEvent}
use mini_lmk.Events.Process.{ProcDiedEvent}
use mini_lmk.Daemon.{
  LogcatEvent, resume_activity, proc_start, proc_died, screen_toggled, device_idle_light_step,
}
use mini_lmk.Parser.Tokens.{tokenize, strip_brackets, max_tokens}
use mini_lmk.Parser.Activity.{
  accept_component, raw_component, clean_component, parse_resume_activity,
}
use mini_lmk.Parser.Start.{parse_proc_start}
use mini_lmk.Parser.Died.{pid_before, find_pid, parse_proc_died, parse_screen_toggled}
use mini_lmk.Parser.Line.{
  fraction_ms, parse_epoch_ms, header_fields, parse_event, parse_logcat_line,
}
use mini_lmk.Parser.Valid.{ValidEvent, parse_u32-lt, parse_proc_start-Valid}

pid_before-Valid :
    (tok next : Text) (pid : ℕ) → pid_before tok next ≡ some pid → (0 < pid) × (pid < two_32)
unfolding pid_before
pid_before-Valid tok next pid h = elim (Option-cases (parse_u32 tok)) [
  | inl e ↦ ground (arith, h, e)
  | inr (n, e) ↦ let l = parse_u32-lt tok n e in (ground (arith, h, e, l), ground (arith, h, e, l))
]

find_pid-Valid :
    (toks : List Text) (pid : ℕ) → find_pid toks ≡ some pid → (0 < pid) × (pid < two_32)
unfolding find_pid
find_pid-Valid [] pid h = ground (arith, h)
find_pid-Valid (tok ∷ []) pid h = ground (arith, h)
find_pid-Valid (tok ∷ next ∷ toks) pid h = elim (Option-cases (pid_before tok next)) [
  | inl e ↦ find_pid-Valid (next ∷ toks) pid (rw (e, find_pid) at h)
  | inr (n, e) ↦
      let v = pid_before-Valid tok next n e in
      (ground (arith, h, e, v.0), ground (arith, h, e, v.1))
]

parse_proc_died-Valid :
    (payload : Text) (ev : ProcDiedEvent)
    → parse_proc_died payload ≡ some ev
    → (0 < ev.pid) × (ev.pid < two_32)
unfolding parse_proc_died
parse_proc_died-Valid payload ev h =
    let tokens = tokenize max_tokens (strip_brackets payload) in
    elim (Bool-cases (ltb (length tokens) 2)) [
      | inl e ↦ ground (arith, h, e)
      | inr e ↦ elim (Option-cases (find_pid tokens)) [
        | inl f ↦ ground (arith, h, e, f)
        | inr (n, f) ↦
            let v = find_pid-Valid tokens n f in
            (ground (arith, h, e, f, v.0), ground (arith, h, e, f, v.1))
      ]
    ]

accept_component-Valid :
    (comp : Text) (ev : ResumeActivityEvent)
    → accept_component comp ≡ some ev
    → ValidEvent (resume_activity ev)
unfolding accept_component
accept_component-Valid comp ev h = (ground (arith, h), ground (arith, h))

parse_resume_activity-Valid :
    (payload : Text) (ev : ResumeActivityEvent)
    → parse_resume_activity payload ≡ some ev
    → ValidEvent (resume_activity ev)
unfolding parse_resume_activity
parse_resume_activity-Valid payload ev h =
    let tokens = tokenize max_tokens (strip_brackets payload) in
    let raw = raw_component tokens in
    elim (Bool-cases (length tokens == 0)) [
      | inl e ↦ ground (arith, h, e)
      | inr e ↦ elim (Bool-cases (is_empty raw)) [
        | inl f ↦ ground (arith, h, e, f)
        | inr f ↦ accept_component-Valid (clean_component raw) ev (rw (e, f) at h)
      ]
    ]

-- What `map_option` answers comes of an answer below it.
map_option-some :
    {A B : Type 0} (f : A → B) (o : Option A) (b : B)
    → map_option f o ≡ some b
    → (a : A) × (o ≡ some a) × (b ≡ f a)
map_option-some f none b h = ground (arith, h)
map_option-some f (some a) b h = (a, refl, ground (arith, h))

light_step-Valid :
    (tag payload : Text) (ev : LogcatEvent)
    → (if text_beq tag (codes "device_idle_light_step")
        then (if is_empty (strip_brackets payload) then some device_idle_light_step else none)
        else none)
      ≡ some ev
    → ValidEvent ev
light_step-Valid tag payload ev h =
    let e : ev ≡ device_idle_light_step = ground (arith, h) in rw e tt

parse_event-Valid :
    (alphabetic : ℕ → Bool) (tag payload : Text) (ev : LogcatEvent)
    → parse_event alphabetic tag payload ≡ some ev
    → ValidEvent ev
unfolding parse_event
parse_event-Valid alphabetic tag payload ev h =
    elim (Bool-cases (text_beq tag (codes "am_proc_start"))) [
      | inl e ↦
          let (x, q, r) =
            map_option-some proc_start (parse_proc_start alphabetic payload) ev (rw e at h) in
          rw r (parse_proc_start-Valid alphabetic payload x q)
      | inr e ↦ elim (Bool-cases (text_beq tag (codes "am_proc_died"))) [
        | inl f ↦
            let (x, q, r) =
              map_option-some proc_died (parse_proc_died payload) ev (rw (e, f) at h) in
            rw r (parse_proc_died-Valid payload x q)
        | inr f ↦
            elim (Bool-cases (
              text_beq tag (codes "wm_resume_activity")
              || text_beq tag (codes "am_resume_activity"))) [
                | inl g ↦
                    let (x, q, r) =
                      map_option-some resume_activity (parse_resume_activity payload) ev
                        (rw (e, f, g) at h) in
                    rw r (parse_resume_activity-Valid payload x q)
                | inr g ↦ elim (Bool-cases (text_beq tag (codes "screen_toggled"))) [
                  | inl i ↦
                      let (x, q, r) =
                        map_option-some screen_toggled (parse_screen_toggled payload) ev
                          (rw (e, f, g, i) at h) in
                      rw r tt
                  | inr i ↦ light_step-Valid tag payload ev (rw (e, f, g, i) at h)
                ]
              ]
      ]
    ]

fraction_ms-le : (ms : ℕ) (s : Text) (n : ℕ) → fraction_ms ms 100 (take 3 s) ≡ some n → n ≤ ms + 999
unfolding fraction_ms
fraction_ms-le ms [] n h = ground (arith, h)
fraction_ms-le ms (a ∷ []) n h = ground (arith, h)
fraction_ms-le ms (a ∷ b ∷ []) n h = ground (arith, h)
fraction_ms-le ms (a ∷ b ∷ c ∷ s) n h = ground (arith, h)

parse_epoch_ms-lt : (s : Text) (n : ℕ) → parse_epoch_ms s ≡ some n → n < two_64
unfolding parse_epoch_ms
parse_epoch_ms-lt s n h = ground (arith, h)

read_event-Valid :
    (alphabetic : ℕ → Bool) (time tag payload : Text) (epoch_ms : ℕ) (ev : LogcatEvent)
    → ◌>>=◌ {B = ℕ × LogcatEvent} (parse_epoch_ms time) (λ n.
      ◌>>=◌ {B = ℕ × LogcatEvent} (parse_event alphabetic tag payload) (λ event. some (n, event)))
      ≡ some (epoch_ms, ev)
    → (epoch_ms < two_64) × ValidEvent ev
read_event-Valid alphabetic time tag payload epoch_ms ev h =
    elim (Option-cases (parse_epoch_ms time)) [
      | inl e ↦ ground (arith, h, e)
      | inr (n, e) ↦ elim (Option-cases (parse_event alphabetic tag payload)) [
        | inl f ↦ ground (arith, h, e, f)
        | inr (x, f) ↦
            let a : n ≡ epoch_ms = ground (arith, h, e, f) in
            let b : x ≡ ev = ground (arith, h, e, f) in
            (
              rw (sym a) (parse_epoch_ms-lt time n e),
              subst ValidEvent b (parse_event-Valid alphabetic tag payload x f),
            )
      ]
    ]

-- Where a line is read as an event: its time fits in 64 bits; a process that starts or dies has a
-- positive pid of 32 bits, and one that starts a uid of 32 bits; the process name and the package of
-- a start and the package of a resumed activity pass the test on names, and the component of the
-- activity is not empty.
pub parse_logcat_line-Valid :
    (alphabetic : ℕ → Bool) (line : Text) (epoch_ms : ℕ) (ev : LogcatEvent)
    → parse_logcat_line alphabetic line ≡ some (epoch_ms, ev)
    → (epoch_ms < two_64) × ValidEvent ev
unfolding parse_logcat_line
parse_logcat_line-Valid alphabetic line epoch_ms ev h =
    let s = trim line in
    elim (Bool-cases (is_empty s || starts_with (codes "---") s)) [
      | inl e ↦ ground (arith, h, e)
      | inr e ↦ elim (Option-cases (split_once b':' s)) [
        | inl f ↦ ground (arith, h, e, f)
        | inr ((head, payload), f) ↦ elim (Option-cases (header_fields (split_whitespace head))) [
          | inl g ↦ ground (arith, h, e, f, g)
          | inr ((time, tag), g) ↦
              read_event-Valid alphabetic time tag payload epoch_ms ev (rw (e, f, g) at h)
        ]
      ]
    ]
