-- ===== src/Daemon/Sessions.antt =====
-- src/events.rs, every handler: the anchors of the screen and of the game session.
use mini_lmk.Base.{
  ℕ, ◌-◌, ◌/◌, Bool, true, false, not, if_keeps, ◌&&◌, ◌≡◌, refl, sym, subst, Option, none, some,
  List, [], ◌∷◌, Text, text_eq, number_eq, leb, ◌||◌, Option-cases, is_some, arith, Bool-cases, inl,
  inr, ℤ, eqb_ℤ, pos,
}
use mini_lmk.Base.Map.{lookup, contains}
use mini_lmk.State.{DaemonState, World, is_pkg, Action, emit, perform, screen_on, screen_off}
use mini_lmk.Kill.Effects.{evaluate-Allowed}
use mini_lmk.Kill.Pass.{evaluate_reaping_pipeline}
use mini_lmk.Events.Clock.{clock_jump_ms, apply_clock_jump, shift_anchors}
use mini_lmk.Events.Summary.{emit_bg_summary}
use mini_lmk.Events.Resume.{
  ResumeActivityEvent, leave, stamp, game_step, update_game, switch_foreground, on_resume_activity,
  drop_trampoline, touch_lru,
}
use mini_lmk.Events.Process.{
  is_top, ProcStartEvent, ProcDiedEvent, count_spawn, note_intrusion, index_process, note_respawn,
  track_respawn, enter_alive, register_process, on_proc_start, forget_process, on_proc_died,
}
use mini_lmk.Events.Screen.{since, same_bool, screen_step, on_screen_toggled}
use mini_lmk.Daemon.{
  LogcatEvent, resume_activity, proc_start, proc_died, screen_toggled, device_idle_light_step,
  handle_event, dispatch_event, Arrival, run_events,
}

pub record SessionInv (d : DaemonState) : Type 0 where
  pub on : d.screen_on ≡ is_some d.screen_on_start
  pub off : not d.screen_on ≡ is_some d.screen_off_start
  pub gaming : d.is_gaming ≡ is_some d.game_session_start

-- The five fields that the invariant reads are the same.
abbrev pub SameSessions : DaemonState → DaemonState → Type 0
SameSessions d e =
    (e.screen_on ≡ d.screen_on)
    × (e.screen_on_start ≡ d.screen_on_start)
    × (e.screen_off_start ≡ d.screen_off_start)
    × (e.is_gaming ≡ d.is_gaming)
    × (e.game_session_start ≡ d.game_session_start)

pub SessionInv-same : (d e : DaemonState) → SameSessions d e → SessionInv d → SessionInv e
SessionInv-same d e s h = record { on = ground arith; off = ground arith; gaming = ground arith }

evaluate-SessionInv :
    (w : World) (now : ℕ) (d : DaemonState)
    → SessionInv d
    → SessionInv (evaluate_reaping_pipeline w now d)
evaluate-SessionInv w now d h =
    subst SessionInv (sym (evaluate-Allowed w now d).frame)
      (record { on = h.on; off = h.off; gaming = h.gaming })

apply_clock_jump-SessionInv :
    (jump : ℤ) (d : DaemonState) → SessionInv d → SessionInv (apply_clock_jump jump d)
unfolding apply_clock_jump shift_anchors
apply_clock_jump-SessionInv jump d h = elim (Bool-cases (eqb_ℤ jump (pos 0))) [
  | inl e ↦ rw e h
  | inr e ↦ rw e (record { on = ground arith; off = ground arith; gaming = ground arith })
]

emit_bg_summary-same : (now sec : ℕ) (d : DaemonState) → SameSessions d (emit_bg_summary now sec d)
unfolding emit_bg_summary
emit_bg_summary-same now sec d = ground arith

leave-same :
    (o : Option Text) (pkg : Text) (now : ℕ) (d : DaemonState)
    → SameSessions d (leave o pkg now d).1
unfolding leave stamp
leave-same none pkg now d = (refl, refl, refl, refl, refl)
leave-same (some prev) pkg now d = ground arith

game_step-SessionInv :
    (is_game was_gaming : Bool) (pkg : Text) (now : ℕ) (d : DaemonState)
    → SessionInv (record d { is_gaming = was_gaming })
    → SessionInv (game_step is_game was_gaming pkg now (record d { is_gaming = is_game }))
unfolding game_step
game_step-SessionInv true false pkg now d h = record { on = h.on; off = h.off; gaming = refl }
game_step-SessionInv false true pkg now d h = record { on = h.on; off = h.off; gaming = refl }
game_step-SessionInv true true pkg now d h = h
game_step-SessionInv false false pkg now d h = h

update_game-SessionInv :
    (pkg : Text) (now : ℕ) (d : DaemonState) → SessionInv d → SessionInv (update_game pkg now d)
unfolding update_game
update_game-SessionInv pkg now d h =
    game_step-SessionInv (contains pkg d.games) d.is_gaming pkg now d h

switch_foreground-SessionInv :
    (ev : ResumeActivityEvent) (now : ℕ) (d : DaemonState)
    → SessionInv d
    → SessionInv (switch_foreground ev now d)
unfolding switch_foreground
switch_foreground-SessionInv ev now d h =
    let d0 = record d { current_fg = none } in
    let l = leave d.current_fg ev.pkg now d0 in
    let h1 = SessionInv-same d l.1 (leave-same d.current_fg ev.pkg now d0) h in
    let d2 = emit_bg_summary now ((now - l.1.session_start) / 1000) l.1 in
    let h2 = SessionInv-same l.1 d2 (emit_bg_summary-same now _ l.1) h1 in
    let lru = drop_trampoline d.current_fg l.0 d2.fg_lru in
    let d3 = record d2 { fg_lru = touch_lru d2.config.fg_lru_max_depth ev.pkg lru } in
    let h3 = SessionInv-same d2 d3 (refl, refl, refl, refl, refl) h2 in
    let d4 = update_game ev.pkg now d3 in
    SessionInv-same d4 _ (refl, refl, refl, refl, refl) (update_game-SessionInv ev.pkg now d3 h3)

on_resume_activity-SessionInv :
    (w : World) (ev : ResumeActivityEvent) (now : ℕ) (d : DaemonState)
    → SessionInv d
    → SessionInv (on_resume_activity w ev now d)
unfolding on_resume_activity
on_resume_activity-SessionInv w ev now d h =
    let h' = switch_foreground-SessionInv ev now d h in
    elim (Bool-cases (is_pkg d.current_fg ev.pkg)) [
      | inl e ↦ rw e h'
      | inr e ↦ rw e (evaluate-SessionInv w now (switch_foreground ev now d) h')
    ]

register_process-same :
    (w : World) (ev : ProcStartEvent) (now : ℕ) (d : DaemonState)
    → SameSessions d (register_process w ev now d)
unfolding register_process note_respawn track_respawn index_process note_intrusion count_spawn
register_process-same w ev now d =
    (ground arith, ground arith, ground arith, ground arith, ground arith)

enter_alive-same : (pkg : Text) (now : ℕ) (d : DaemonState) → SameSessions d (enter_alive pkg now d)
unfolding enter_alive
enter_alive-same pkg now d = ground arith

on_proc_start-SessionInv :
    (w : World) (ev : ProcStartEvent) (now : ℕ) (d : DaemonState)
    → SessionInv d
    → SessionInv (on_proc_start w ev now d)
unfolding on_proc_start
on_proc_start-SessionInv w ev now d h =
    let d1 = register_process w ev now d in
    let h1 = SessionInv-same d d1 (register_process-same w ev now d) h in
    let d2 = enter_alive ev.pkg now d1 in
    let h2 = SessionInv-same d1 d2 (enter_alive-same ev.pkg now d1) h1 in
    elim (Bool-cases (leb 10000 ev.uid)) [
      | inr e ↦ rw e h1
      | inl e ↦ elim (Bool-cases (is_pkg d.current_fg ev.pkg || is_top ev.spawn_type)) [
        | inl f ↦ rw (e, f) h2
        | inr f ↦ rw (e, f) (evaluate-SessionInv w now d2 h2)
      ]
    ]

forget_process-same :
    (pid : ℕ) (pkg : Text) (now : ℕ) (d : DaemonState)
    → SameSessions d (forget_process pid pkg now d)
unfolding forget_process
forget_process-same pid pkg now d = ground arith

on_proc_died-SessionInv :
    (ev : ProcDiedEvent) (now : ℕ) (d : DaemonState)
    → SessionInv d
    → SessionInv (on_proc_died ev now d)
unfolding on_proc_died
on_proc_died-SessionInv ev now d h = elim (Option-cases (lookup ev.pid d.pid_to_pkg)) [
  | inl e ↦ rw (e, on_proc_died) h
  | inr (pkg, e) ↦
      rw (e, on_proc_died) (SessionInv-same d _ (forget_process-same ev.pid pkg now d) h)
]

-- A record and a summary leave the invariant alone.
summary-SessionInv :
    (a : Action) (now sec : ℕ) (d : DaemonState)
    → SessionInv d
    → SessionInv (emit_bg_summary now sec (perform a d))
summary-SessionInv a now sec d h =
    let d' = perform a d in
    SessionInv-same d' (emit_bg_summary now sec d') (emit_bg_summary-same now sec d')
      (SessionInv-same d d' (refl, refl, refl, refl, refl) h)

screen_step-SessionInv :
    (state : Bool) (now : ℕ) (d : DaemonState) → SessionInv d → SessionInv (screen_step state now d)
unfolding screen_step
screen_step-SessionInv true now d h =
    let sec = since d.screen_off_start now in
    record {
      on = refl;
      off = refl;
      gaming = (summary-SessionInv (emit (screen_on now sec)) now sec d h).gaming;
    }
screen_step-SessionInv false now d h =
    let sec = since d.screen_on_start now in
    record {
      on = refl;
      off = refl;
      gaming = (summary-SessionInv (emit (screen_off now sec)) now sec d h).gaming;
    }

on_screen_toggled-SessionInv :
    (state : Bool) (now : ℕ) (d : DaemonState)
    → SessionInv d
    → SessionInv (on_screen_toggled state now d)
unfolding on_screen_toggled
on_screen_toggled-SessionInv state now d h = elim (Bool-cases (same_bool d.screen_on state)) [
  | inl e ↦ simp e h
  | inr e ↦ simp e (screen_step-SessionInv state now d h)
]

handle_event-SessionInv :
    (w : World) (ev : LogcatEvent) (now : ℕ) (d : DaemonState)
    → SessionInv d
    → SessionInv (handle_event w ev now d)
unfolding handle_event
handle_event-SessionInv w (resume_activity ev) now d h = on_resume_activity-SessionInv w ev now d h
handle_event-SessionInv w (proc_start ev) now d h = on_proc_start-SessionInv w ev now d h
handle_event-SessionInv w (proc_died ev) now d h = on_proc_died-SessionInv ev now d h
handle_event-SessionInv w (screen_toggled state) now d h =
    on_screen_toggled-SessionInv state now d h
handle_event-SessionInv w device_idle_light_step now d h =
    if_keeps SessionInv (not d.screen_on && d.config.screen_off_harvest)
      (evaluate_reaping_pipeline w now d) d (evaluate-SessionInv w now d h) h

pub dispatch_event-SessionInv :
    (w : World) (now : ℕ) (ev : LogcatEvent) (d : DaemonState)
    → SessionInv d
    → SessionInv (dispatch_event w now ev d)
unfolding dispatch_event
dispatch_event-SessionInv w now ev d h =
    let d1 = apply_clock_jump (clock_jump_ms d.last_event_epoch now) d in
    let d2 = record d1 { last_event_epoch = now } in
    handle_event-SessionInv w ev now d2 (
      SessionInv-same d1 d2 (refl, refl, refl, refl, refl)
        (apply_clock_jump-SessionInv (clock_jump_ms d.last_event_epoch now) d h))

-- Whatever the events, their times and the answers of the system: the screen has a start of its
-- current state and none of the other, and there is a start of a game session just while a game is
-- played, if it was so at the beginning.
pub run_events-SessionInv :
    (arrivals : List Arrival) (d : DaemonState) → SessionInv d → SessionInv (run_events arrivals d)
unfolding run_events
run_events-SessionInv [] d h = h
run_events-SessionInv (a ∷ rest) d h =
    run_events-SessionInv rest (dispatch_event a.world a.now a.event d)
      (dispatch_event-SessionInv a.world a.now a.event d h)
