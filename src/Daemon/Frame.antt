-- ===== src/Daemon/Frame.antt =====
-- src/daemon.rs, the dispatch of the events: what no event changes, and what is done to the outside in
-- observe mode.
pub mod Handlers
use mini_lmk.Base.{
  ℕ, suc, if_keeps, ◌+◌, ◌-◌, ◌/◌, Bool, true, false, not, ◌&&◌, ◌||◌, ◌≡◌, refl, ap, ◌∙◌, Option,
  none, some, List, [], ◌∷◌, ◌++◌, Text, text_eq, number_eq, leb, Option-cases, arith, Bool-cases,
  inl, inr, ℤ, All,
}
use mini_lmk.Base.Map.{lookup, contains}
use mini_lmk.State.{
  DaemonState, World, is_pkg, Action, emit, flush, log_switch, signal, launch, kill_child, perform,
  screen_on, screen_off, Candidate, LogRecord, kill_decision, config_reload, bg_summary, fg_switch,
  game_session_start, game_session_end, game_intrusion, respawn,
}
use mini_lmk.Startup.Announce.{reload_in, reloads_of}
use mini_lmk.Kill.Effects.{evaluate-Allowed, Allowed, MayRecord, pass_candidates}
use mini_lmk.Kill.Idle.{launches, Idle, Idle-same, Idle-trans, evaluate-Idle}
use mini_lmk.Kill.Pass.{evaluate_reaping_pipeline}
use mini_lmk.Events.Clock.{clock_jump_ms, apply_clock_jump, shift_anchors}
use mini_lmk.Events.Summary.{emit_bg_summary}
use mini_lmk.Events.Resume.{
  ResumeActivityEvent, leave, stamp, game_step, update_game, switch_foreground, on_resume_activity,
  drop_trampoline, touch_lru,
}
use mini_lmk.Events.Process.{
  is_top, ProcStartEvent, ProcDiedEvent, count_spawn, note_intrusion, index_process, note_respawn,
  track_respawn, enter_alive, register_process, on_proc_start, forget_process, on_proc_died,
}
use mini_lmk.Events.Screen.{since, same_bool, screen_step, on_screen_toggled}
use mini_lmk.Daemon.{
  LogcatEvent, resume_activity, proc_start, proc_died, screen_toggled, device_idle_light_step,
  handle_event, dispatch_event,
}

-- How many signals were sent, children asked for and children stopped.
abbrev pub acts : List Action → ℕ
acts [] = 0
acts (launch l ∷ t) = suc (acts t)
acts (signal pid reply ∷ t) = suc (acts t)
acts (kill_child pid ∷ t) = suc (acts t)
acts (a ∷ t) = acts t

-- The configuration, its announcement and the mode stay; in observe mode nothing is killed.
pub record Keeps (d e : DaemonState) : Type 0 where
  pub config_is : e.config ≡ d.config
  pub announced_is : e.config_announced ≡ d.config_announced
  pub held_is : e.startup_record ≡ d.startup_record
  pub mode_is : e.act_mode ≡ d.act_mode
  pub observes : d.act_mode ≡ false → acts e.trace ≡ acts d.trace
  pub spawns : Idle d e
  pub reloads_are : reloads_of e.trace ≡ reloads_of d.trace

pub Keeps-refl : (d : DaemonState) → Keeps d d
Keeps-refl d = record {
  config_is = refl;
  announced_is = refl;
  held_is = refl;
  mode_is = refl;
  observes = λ h. refl;
  spawns = Idle-same d d refl refl;
  reloads_are = refl;
}

pub Keeps-trans : (d e f : DaemonState) → Keeps d e → Keeps e f → Keeps d f
Keeps-trans d e f h k = record {
  config_is = k.config_is ∙ h.config_is;
  announced_is = k.announced_is ∙ h.announced_is;
  held_is = k.held_is ∙ h.held_is;
  mode_is = k.mode_is ∙ h.mode_is;
  observes = λ o. k.observes (h.mode_is ∙ o) ∙ h.observes o;
  spawns = Idle-trans d e f h.spawns k.spawns;
  reloads_are = k.reloads_are ∙ h.reloads_are;
}

-- What a handler does that makes no pass.
abbrev pub Plain : DaemonState → DaemonState → Type 0
Plain d e =
    (e.config ≡ d.config)
    × (e.config_announced ≡ d.config_announced)
    × (e.startup_record ≡ d.startup_record)
    × (e.act_mode ≡ d.act_mode)
    × (acts e.trace ≡ acts d.trace)
    × (launches e.trace ≡ launches d.trace)
    × (e.spawner ≡ d.spawner)
    × (reloads_of e.trace ≡ reloads_of d.trace)

pub Plain-Keeps : (d e : DaemonState) → Plain d e → Keeps d e
Plain-Keeps d e (c, a, h, m, t, l, s, r) = record {
  config_is = c;
  announced_is = a;
  held_is = h;
  mode_is = m;
  observes = λ o. t;
  spawns = Idle-same d e s l;
  reloads_are = r;
}

acts-append : (xs ys : List Action) → acts (xs ++ ys) ≡ acts xs + acts ys
acts-append [] ys = omega arith
acts-append (launch l ∷ xs) ys = omega (arith, acts-append xs ys)
acts-append (signal pid reply ∷ xs) ys = omega (arith, acts-append xs ys)
acts-append (kill_child pid ∷ xs) ys = omega (arith, acts-append xs ys)
acts-append (emit r ∷ xs) ys = acts-append xs ys
acts-append (flush ∷ xs) ys = acts-append xs ys
acts-append (log_switch on ∷ xs) ys = acts-append xs ys

-- In observe mode a pass is allowed neither signals nor children.
acts_observing :
    (w : World) (now : ℕ) (d : DaemonState) (new : List Action)
    → d.act_mode ≡ false
    → All (Allowed w d (pass_candidates w now d)) new
    → acts new ≡ 0
acts_observing w now d [] o h = refl
acts_observing w now d (launch l ∷ new) o (h, hs) = absurd (ground (arith, h.acting))
acts_observing w now d (signal pid reply ∷ new) o (h, hs) = absurd (ground (arith, h.acting))
acts_observing w now d (kill_child pid ∷ new) o (h, hs) = elim h [ ]
acts_observing w now d (emit r ∷ new) o (h, hs) = acts_observing w now d new o hs
acts_observing w now d (flush ∷ new) o (h, hs) = acts_observing w now d new o hs
acts_observing w now d (log_switch on ∷ new) o (h, hs) = elim h [ ]

Recorded-none :
    (cands : List Candidate) (r : LogRecord) → MayRecord cands r → reload_in (emit r) ≡ []
Recorded-none cands (kill_decision r) h = refl
Recorded-none cands (config_reload c l t) h = elim h [ ]
Recorded-none cands (bg_summary now sec stats) h = refl
Recorded-none cands (fg_switch now pkg component prev dur is_game) h = refl
Recorded-none cands (game_session_start now pkg) h = refl
Recorded-none cands (game_session_end now duration intrusions) h = refl
Recorded-none cands (game_intrusion now pid uid pkg proc kind rss excluded) h = refl
Recorded-none cands (respawn now pkg gap pid uid kind) h = refl
Recorded-none cands (screen_off now active) h = refl
Recorded-none cands (screen_on now off) h = refl

-- A pass announces no configuration.
reloads_passing :
    (w : World) (now : ℕ) (d : DaemonState) (new old : List Action)
    → All (Allowed w d (pass_candidates w now d)) new
    → reloads_of (new ++ old) ≡ reloads_of old
reloads_passing w now d [] old h = refl
reloads_passing w now d (emit r ∷ new) old (h, hs) =
    ap (λ x. x ++ reloads_of (new ++ old)) (Recorded-none (pass_candidates w now d) r h)
    ∙ reloads_passing w now d new old hs
reloads_passing w now d (launch l ∷ new) old (h, hs) = reloads_passing w now d new old hs
reloads_passing w now d (signal pid reply ∷ new) old (h, hs) = reloads_passing w now d new old hs
reloads_passing w now d (kill_child pid ∷ new) old (h, hs) = elim h [ ]
reloads_passing w now d (flush ∷ new) old (h, hs) = reloads_passing w now d new old hs
reloads_passing w now d (log_switch on ∷ new) old (h, hs) = elim h [ ]

pub evaluate-Keeps :
    (w : World) (now : ℕ) (d : DaemonState) → Keeps d (evaluate_reaping_pipeline w now d)
evaluate-Keeps w now d =
    let r = evaluate-Allowed w now d in
    record {
      config_is = ap (λ x. x.config) r.frame;
      announced_is = ap (λ x. x.config_announced) r.frame;
      held_is = ap (λ x. x.startup_record) r.frame;
      mode_is = ap (λ x. x.act_mode) r.frame;
      observes = λ o.
          ap acts r.trace_is
          ∙ acts-append r.new d.trace
          ∙ omega (arith, acts_observing w now d r.new o r.actions);
      spawns = evaluate-Idle w now d;
      reloads_are = ap reloads_of r.trace_is ∙ reloads_passing w now d r.new d.trace r.actions;
    }
