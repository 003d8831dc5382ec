-- ===== src/Daemon/Frame/Handlers.antt =====
-- src/events.rs and src/daemon.rs: what every handler leaves alone.
use mini_lmk.Base.{
  ℕ, if_keeps, ◌-◌, ◌/◌, Bool, true, false, not, ◌&&◌, ◌||◌, refl, ◌∙◌, Option, none, some, Text,
  text_eq, number_eq, leb, Option-cases, arith, Bool-cases, inl, inr, ℤ,
}
use mini_lmk.Base.Map.{lookup, contains}
use mini_lmk.State.{DaemonState, World, is_pkg, emit, perform, screen_on, screen_off}
use mini_lmk.Kill.Pass.{evaluate_reaping_pipeline}
use mini_lmk.Events.Clock.{clock_jump_ms, apply_clock_jump, shift_anchors}
use mini_lmk.Events.Summary.{emit_bg_summary}
use mini_lmk.Events.Resume.{
  ResumeActivityEvent, leave, stamp, game_step, update_game, switch_foreground, on_resume_activity,
  drop_trampoline, touch_lru,
}
use mini_lmk.Events.Process.{
  is_top, ProcStartEvent, ProcDiedEvent, count_spawn, note_intrusion, index_process, note_respawn,
  track_respawn, enter_alive, register_process, on_proc_start, forget_process, on_proc_died,
}
use mini_lmk.Events.Screen.{since, same_bool, screen_step, on_screen_toggled}
use mini_lmk.Daemon.{
  LogcatEvent, resume_activity, proc_start, proc_died, screen_toggled, device_idle_light_step,
  handle_event, dispatch_event,
}
use mini_lmk.Daemon.Frame.{Keeps, Keeps-refl, Keeps-trans, Plain, Plain-Keeps, evaluate-Keeps}

apply_clock_jump-Keeps : (jump : ℤ) (d : DaemonState) → Keeps d (apply_clock_jump jump d)
unfolding apply_clock_jump shift_anchors
apply_clock_jump-Keeps jump d = Plain-Keeps d (apply_clock_jump jump d) (ground arith)

emit_bg_summary-Plain : (now sec : ℕ) (d : DaemonState) → Plain d (emit_bg_summary now sec d)
unfolding emit_bg_summary
emit_bg_summary-Plain now sec d = ground arith

leave-Plain :
    (o : Option Text) (pkg : Text) (now : ℕ) (d : DaemonState) → Plain d (leave o pkg now d).1
unfolding leave stamp
leave-Plain none pkg now d = (refl, refl, refl, refl, refl, refl, refl, refl)
leave-Plain (some prev) pkg now d = ground arith

game_step-Plain :
    (is_game was_gaming : Bool) (pkg : Text) (now : ℕ) (d : DaemonState)
    → Plain d (game_step is_game was_gaming pkg now d)
unfolding game_step
game_step-Plain true false pkg now d = (refl, refl, refl, refl, refl, refl, refl, refl)
game_step-Plain false true pkg now d = (refl, refl, refl, refl, refl, refl, refl, refl)
game_step-Plain true true pkg now d = (refl, refl, refl, refl, refl, refl, refl, refl)
game_step-Plain false false pkg now d = (refl, refl, refl, refl, refl, refl, refl, refl)

switch_foreground-Plain :
    (ev : ResumeActivityEvent) (now : ℕ) (d : DaemonState) → Plain d (switch_foreground ev now d)
unfolding switch_foreground update_game
switch_foreground-Plain ev now d =
    let d0 = record d { current_fg = none } in
    let l = leave d.current_fg ev.pkg now d0 in
    let (c1, a1, h1, m1, t1, l1, s1, r1) = leave-Plain d.current_fg ev.pkg now d0 in
    let d2 = emit_bg_summary now ((now - l.1.session_start) / 1000) l.1 in
    let (c2, a2, h2, m2, t2, l2, s2, r2) =
      emit_bg_summary-Plain now ((now - l.1.session_start) / 1000) l.1 in
    let lru = drop_trampoline d.current_fg l.0 d2.fg_lru in
    let g = contains ev.pkg d2.games in
    let d3 = record d2 {
      fg_lru = touch_lru d2.config.fg_lru_max_depth ev.pkg lru;
      is_gaming = g;
    } in
    let (c4, a4, h4, m4, t4, l4, s4, r4) = game_step-Plain g d2.is_gaming ev.pkg now d3 in
    (
      c4 ∙ c2 ∙ c1,
      a4 ∙ a2 ∙ a1,
      h4 ∙ h2 ∙ h1,
      m4 ∙ m2 ∙ m1,
      t4 ∙ t2 ∙ t1,
      l4 ∙ l2 ∙ l1,
      s4 ∙ s2 ∙ s1,
      r4 ∙ r2 ∙ r1,
    )

on_resume_activity-Keeps :
    (w : World) (ev : ResumeActivityEvent) (now : ℕ) (d : DaemonState)
    → Keeps d (on_resume_activity w ev now d)
unfolding on_resume_activity
on_resume_activity-Keeps w ev now d =
    let d' = switch_foreground ev now d in
    let k = Plain-Keeps d d' (switch_foreground-Plain ev now d) in
    elim (Bool-cases (is_pkg d.current_fg ev.pkg)) [
      | inl e ↦ rw e k
      | inr e ↦ rw e (Keeps-trans d d' _ k (evaluate-Keeps w now d'))
    ]

register_process-Plain :
    (w : World) (ev : ProcStartEvent) (now : ℕ) (d : DaemonState)
    → Plain d (register_process w ev now d)
unfolding register_process note_respawn track_respawn index_process note_intrusion count_spawn
register_process-Plain w ev now d = (
  ground arith,
  ground arith,
  ground arith,
  ground arith,
  ground arith,
  ground arith,
  ground arith,
  ground arith,
)

enter_alive-Plain : (pkg : Text) (now : ℕ) (d : DaemonState) → Plain d (enter_alive pkg now d)
unfolding enter_alive
enter_alive-Plain pkg now d = ground arith

on_proc_start-Keeps :
    (w : World) (ev : ProcStartEvent) (now : ℕ) (d : DaemonState)
    → Keeps d (on_proc_start w ev now d)
unfolding on_proc_start
on_proc_start-Keeps w ev now d =
    let d1 = register_process w ev now d in
    let k1 = Plain-Keeps d d1 (register_process-Plain w ev now d) in
    let d2 = enter_alive ev.pkg now d1 in
    let k2 = Keeps-trans d d1 d2 k1 (Plain-Keeps d1 d2 (enter_alive-Plain ev.pkg now d1)) in
    elim (Bool-cases (leb 10000 ev.uid)) [
      | inr e ↦ rw e k1
      | inl e ↦ elim (Bool-cases (is_pkg d.current_fg ev.pkg || is_top ev.spawn_type)) [
        | inl f ↦ rw (e, f) k2
        | inr f ↦ rw (e, f) (Keeps-trans d d2 _ k2 (evaluate-Keeps w now d2))
      ]
    ]

forget_process-Plain :
    (pid : ℕ) (pkg : Text) (now : ℕ) (d : DaemonState) → Plain d (forget_process pid pkg now d)
unfolding forget_process
forget_process-Plain pid pkg now d = ground arith

on_proc_died-Keeps :
    (ev : ProcDiedEvent) (now : ℕ) (d : DaemonState) → Keeps d (on_proc_died ev now d)
unfolding on_proc_died
on_proc_died-Keeps ev now d = elim (Option-cases (lookup ev.pid d.pid_to_pkg)) [
  | inl e ↦ rw (e, on_proc_died) (Keeps-refl d)
  | inr (pkg, e) ↦ rw (e, on_proc_died) (Plain-Keeps d _ (forget_process-Plain ev.pid pkg now d))
]

screen_step-Plain : (state : Bool) (now : ℕ) (d : DaemonState) → Plain d (screen_step state now d)
unfolding screen_step
screen_step-Plain true now d =
    emit_bg_summary-Plain now _ (perform (emit (screen_on now (since d.screen_off_start now))) d)
screen_step-Plain false now d =
    emit_bg_summary-Plain now _ (perform (emit (screen_off now (since d.screen_on_start now))) d)

on_screen_toggled-Keeps :
    (state : Bool) (now : ℕ) (d : DaemonState) → Keeps d (on_screen_toggled state now d)
unfolding on_screen_toggled
on_screen_toggled-Keeps state now d = elim (Bool-cases (same_bool d.screen_on state)) [
  | inl e ↦ simp e (Keeps-refl d)
  | inr e ↦ simp e (Plain-Keeps d (screen_step state now d) (screen_step-Plain state now d))
]

handle_event-Keeps :
    (w : World) (ev : LogcatEvent) (now : ℕ) (d : DaemonState) → Keeps d (handle_event w ev now d)
unfolding handle_event
handle_event-Keeps w (resume_activity ev) now d = on_resume_activity-Keeps w ev now d
handle_event-Keeps w (proc_start ev) now d = on_proc_start-Keeps w ev now d
handle_event-Keeps w (proc_died ev) now d = on_proc_died-Keeps ev now d
handle_event-Keeps w (screen_toggled state) now d = on_screen_toggled-Keeps state now d
handle_event-Keeps w device_idle_light_step now d =
    if_keeps (Keeps d) (not d.screen_on && d.config.screen_off_harvest)
      (evaluate_reaping_pipeline w now d) d (evaluate-Keeps w now d) (Keeps-refl d)

-- One event leaves the configuration, its announcement and the mode alone, and kills nothing in
-- observe mode.
pub dispatch_event-Keeps :
    (w : World) (now : ℕ) (ev : LogcatEvent) (d : DaemonState) → Keeps d (dispatch_event w now ev d)
unfolding dispatch_event
dispatch_event-Keeps w now ev d =
    let d1 = apply_clock_jump (clock_jump_ms d.last_event_epoch now) d in
    let k : Keeps d d1 = apply_clock_jump-Keeps (clock_jump_ms d.last_event_epoch now) d in
    let d2 = record d1 { last_event_epoch = now } in
    let k2 =
      Keeps-trans d d1 d2 k (Plain-Keeps d1 d2 (refl, refl, refl, refl, refl, refl, refl, refl)) in
    Keeps-trans d d2 _ k2 (handle_event-Keeps w ev now d2)
