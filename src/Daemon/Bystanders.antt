-- ===== src/Daemon/Bystanders.antt =====
-- src/daemon.rs, the dispatch of the events, for one package that the tables do not hold as an app.
mod Foreground
mod Process
use mini_lmk.Base.{
  ℕ, ◌-◌, ◌/◌, ◌==◌, Bool, true, false, not, if_keeps, ◌&&◌, ◌≡◌, ◌≢◌, refl, sym, subst, Option,
  none, some, List, [], ◌∷◌, Text, text_eq, text_beq, text_beq_iff, number_eq, leb, ltb, ◌||◌,
  Option-cases, is_some, is_some_and, arith, Bool-cases, inl, inr, ℤ, eqb_ℤ, pos, if◌then◌else◌,
  is_empty,
}
use mini_lmk.Base.Map.{
  map_option, map_values, lookup, insert, remove, contains, discard, lookup-insert, lookup-remove,
  lookup-map_values,
}
use mini_lmk.State.{
  DaemonState, World, is_pkg, Action, emit, perform, screen_on, screen_off, on_arrival,
}
use mini_lmk.Procfs.{read_statm_rss_kb}
use mini_lmk.Kill.Absent.{Absent}
use mini_lmk.Kill.Pass.{evaluate_reaping_pipeline}
use mini_lmk.Events.Clock.{clock_jump_ms, apply_clock_jump, shift_anchors, shift}
use mini_lmk.Events.Summary.{emit_bg_summary}
use mini_lmk.Events.Resume.{
  ResumeActivityEvent, known_app_uid, leave, stamp, game_step, update_game, switch_foreground,
  on_resume_activity, drop_trampoline, touch_lru,
}
use mini_lmk.Events.Process.{
  is_top, ProcStartEvent, ProcDiedEvent, count_spawn, note_intrusion, index_process, note_respawn,
  track_respawn, enter_alive, register_process, on_proc_start, record_death, unlink, count_death,
  forget_process, on_proc_died,
}
use mini_lmk.Events.Screen.{since, same_bool, screen_step, on_screen_toggled}
use mini_lmk.Daemon.{
  LogcatEvent, resume_activity, proc_start, proc_died, screen_toggled, device_idle_light_step,
  handle_event, dispatch_event, Arrival, run_events,
}
use mini_lmk.Daemon.Fences.{Spares, Fenced, Fenced-same, told, evaluate-Fenced}
use mini_lmk.Daemon.Bystanders.Foreground.{on_resume_activity-Fenced, on_screen_toggled-Fenced}
use mini_lmk.Daemon.Bystanders.Process.{on_proc_start-Fenced, on_proc_died-Fenced}

module _ (p : Text) where
  -- The event does not start a process of the package under an app uid.
  abbrev pub StartsNoApp : LogcatEvent → Type 0
  StartsNoApp (proc_start ev) = text_beq ev.pkg p && leb 10000 ev.uid ≡ false
  StartsNoApp _ = Unit

  unfoldable pub StartNoApps : List Arrival → Type 0
  StartNoApps [] = Unit
  StartNoApps (a ∷ rest) = StartsNoApp a.event × StartNoApps rest

  apply_clock_jump-Fenced :
      (jump : ℤ) (d : DaemonState) → Fenced p d → Fenced p (apply_clock_jump jump d)
  unfolding apply_clock_jump shift_anchors
  apply_clock_jump-Fenced jump d h = elim (Bool-cases (eqb_ℤ jump (pos 0))) [
    | inl e ↦ rw e h
    | inr e ↦ rw e (record {
      absent = rw (lookup-map_values p (shift jump) d.alive_apps, h.absent);
      no_app_uid = h.no_app_uid;
      spared = h.spared;
    })
  ]

  handle_event-Fenced :
      (w : World) (ev : LogcatEvent) (now : ℕ) (d : DaemonState)
      → StartsNoApp ev
      → Fenced p d
      → Fenced p (handle_event w ev now d)
  unfolding handle_event
  handle_event-Fenced w (resume_activity ev) now d n h = on_resume_activity-Fenced p w ev now d h
  handle_event-Fenced w (proc_start ev) now d n h = on_proc_start-Fenced p w ev now d n h
  handle_event-Fenced w (proc_died ev) now d n h = on_proc_died-Fenced p ev now d h
  handle_event-Fenced w (screen_toggled state) now d n h = on_screen_toggled-Fenced p state now d h
  handle_event-Fenced w device_idle_light_step now d n h =
      if_keeps (Fenced p) (not d.screen_on && d.config.screen_off_harvest) _ d
        (evaluate-Fenced p w now d h) h

  dispatch_event-Fenced :
      (w : World) (now : ℕ) (ev : LogcatEvent) (d : DaemonState)
      → StartsNoApp ev
      → Fenced p d
      → Fenced p (dispatch_event w now ev d)
  unfolding dispatch_event
  dispatch_event-Fenced w now ev d n h =
      let d1 = apply_clock_jump (clock_jump_ms d.last_event_epoch now) d in
      let d2 = record d1 { last_event_epoch = now } in
      handle_event-Fenced w ev now d2 n (
        Fenced-same p d1 d2 refl refl refl
          (apply_clock_jump-Fenced (clock_jump_ms d.last_event_epoch now) d h))

  -- For a package that has no live entry and no app uid at the start, and that no event of the
  -- stream starts under a uid of an app: after any stream of events it has neither, and no record
  -- of a kill, a skipped kill or a simulated kill names it and no child was asked to kill it.
  pub run_events-Fenced :
      (arrivals : List Arrival) (d : DaemonState)
      → StartNoApps arrivals
      → Fenced p d
      → Fenced p (run_events arrivals d)
  unfolding run_events StartNoApps
  run_events-Fenced [] d n h = h
  run_events-Fenced (a ∷ rest) d n h =
      run_events-Fenced rest (dispatch_event a.world a.now a.event d) n.1
        (dispatch_event-Fenced a.world a.now a.event d n.0 h)
