-- ===== src/Tables/Events.antt =====
-- src/events.rs and src/daemon.rs: the process tables behind every event.
use mini_lmk.Base.{
  ℕ, ◌<◌, Bool, true, false, not, ◌&&◌, ◌||◌, ◌≡◌, refl, sym, subst, ◌∙◌, Option, none, some, List,
  Text, text_eq, number_eq, arith, Option-cases, inl, inr, if_keeps, two_32, leb, ℤ, ◌-◌, ◌/◌,
  is_empty,
}
use mini_lmk.Base.Map.{lookup, insert, remove, add, discard, contains}
use mini_lmk.State.{DaemonState, World, Moment, perform, emit, screen_on, screen_off, is_pkg}
use mini_lmk.Parser.Valid.{ValidEvent}
use mini_lmk.Kill.Pass.{evaluate_reaping_pipeline}
use mini_lmk.Events.Clock.{clock_jump_ms, apply_clock_jump, shift_anchors}
use mini_lmk.Events.Summary.{emit_bg_summary}
use mini_lmk.Events.Resume.{
  ResumeActivityEvent, leave, stamp, game_step, update_game, switch_foreground, on_resume_activity,
  drop_trampoline, touch_lru,
}
use mini_lmk.Events.Process.{
  is_top, pids_or_none, ProcStartEvent, ProcDiedEvent, count_spawn, note_intrusion, index_process,
  note_respawn, track_respawn, enter_alive, register_process, on_proc_start, unlink, count_death,
  record_death, forget_process, on_proc_died,
}
use mini_lmk.Events.Screen.{since, same_bool, screen_step, on_screen_toggled}
use mini_lmk.Daemon.{
  LogcatEvent, resume_activity, proc_start, proc_died, screen_toggled, device_idle_light_step,
  handle_event, dispatch_event,
}
use mini_lmk.Tables.Processes.{register_process-Filed, on_proc_died-Filed}
use mini_lmk.Tables.Sums.{Neat, Neat-add, Neat-discard, Resident}
use mini_lmk.Tables.Kept.{
  Tabled, SameTables, Tabled-same, SetsIn, SetsIn-Sets, Sets-SetsIn, SetsIn-insert, SetsIn-modify,
  evaluate-Tabled,
}

jump-SameTables : (jump : ℤ) (d : DaemonState) → SameTables d (apply_clock_jump jump d)
unfolding apply_clock_jump shift_anchors
jump-SameTables jump d = ground arith

summary-SameTables : (now sec : ℕ) (d : DaemonState) → SameTables d (emit_bg_summary now sec d)
unfolding emit_bg_summary
summary-SameTables now sec d = ground arith

leave-SameTables :
    (o : Option Text) (pkg : Text) (now : ℕ) (d : DaemonState) → SameTables d (leave o pkg now d).1
unfolding leave stamp
leave-SameTables none pkg now d = (refl, refl, refl)
leave-SameTables (some prev) pkg now d = ground arith

game_step-SameTables :
    (is_game was_gaming : Bool) (pkg : Text) (now : ℕ) (d : DaemonState)
    → SameTables d (game_step is_game was_gaming pkg now d)
unfolding game_step
game_step-SameTables true false pkg now d = (refl, refl, refl)
game_step-SameTables false true pkg now d = (refl, refl, refl)
game_step-SameTables true true pkg now d = (refl, refl, refl)
game_step-SameTables false false pkg now d = (refl, refl, refl)

switch-SameTables :
    (ev : ResumeActivityEvent) (now : ℕ) (d : DaemonState)
    → SameTables d (switch_foreground ev now d)
unfolding switch_foreground update_game
switch-SameTables ev now d =
    let d0 = record d { current_fg = none } in
    let l = leave d.current_fg ev.pkg now d0 in
    let (o1, p1, s1) = leave-SameTables d.current_fg ev.pkg now d0 in
    let d2 = emit_bg_summary now ((now - l.1.session_start) / 1000) l.1 in
    let (o2, p2, s2) = summary-SameTables now ((now - l.1.session_start) / 1000) l.1 in
    let lru = drop_trampoline d.current_fg l.0 d2.fg_lru in
    let g = contains ev.pkg d2.games in
    let d3 = record d2 {
      fg_lru = touch_lru d2.config.fg_lru_max_depth ev.pkg lru;
      is_gaming = g;
    } in
    let (o4, p4, s4) = game_step-SameTables g d2.is_gaming ev.pkg now d3 in
    (o4 ∙ o2 ∙ o1, p4 ∙ p2 ∙ p1, s4 ∙ s2 ∙ s1)

screen_step-SameTables :
    (state : Bool) (now : ℕ) (d : DaemonState) → SameTables d (screen_step state now d)
unfolding screen_step
screen_step-SameTables true now d =
    summary-SameTables now _ (perform (emit (screen_on now (since d.screen_off_start now))) d)
screen_step-SameTables false now d =
    summary-SameTables now _ (perform (emit (screen_off now (since d.screen_on_start now))) d)

register-pids :
    (w : World) (ev : ProcStartEvent) (now : ℕ) (d : DaemonState)
    → ((register_process w ev now d).pkg_to_pids
        ≡ insert ev.pkg (add ev.pid (pids_or_none (lookup ev.pkg d.pkg_to_pids))) d.pkg_to_pids)
      × ((register_process w ev now d).page_size_kb ≡ d.page_size_kb)
unfolding register_process note_respawn track_respawn index_process note_intrusion count_spawn
register-pids w ev now d = (ground arith, ground arith)

enter-SameTables : (pkg : Text) (now : ℕ) (d : DaemonState) → SameTables d (enter_alive pkg now d)
unfolding enter_alive
enter-SameTables pkg now d = ground arith

unlink-SetsIn :
    (pid : ℕ) (pkg : Text) (o : Option (List ℕ)) (d : DaemonState)
    → Neat (pids_or_none o)
    → SetsIn d.pkg_to_pids
    → SetsIn (unlink pid pkg o d).pkg_to_pids
unfolding unlink
unlink-SetsIn pid pkg none d n h = h
unlink-SetsIn pid pkg (some ps) d n h =
    let m =
      SetsIn-modify pkg (λ _. discard pid ps) d.pkg_to_pids (λ xs k. Neat-discard pid ps n) h in
    if_keeps (λ (e : DaemonState). SetsIn e.pkg_to_pids) (is_empty (discard pid ps)) _ _ m m

forget-pids :
    (pid : ℕ) (pkg : Text) (now : ℕ) (d : DaemonState)
    → ((forget_process pid pkg now d).pkg_to_pids
        ≡ (unlink pid pkg
            (lookup pkg d.pkg_to_pids)
            (record d { pid_to_pkg = remove pid d.pid_to_pkg })).pkg_to_pids)
      × ((forget_process pid pkg now d).page_size_kb ≡ d.page_size_kb)
unfolding forget_process count_death record_death unlink
forget-pids pid pkg now d = (ground arith, ground arith)

module _ (page : ℕ) (w : World) (resident : (m : Moment) → Resident (w.proc m) page) where
  resume-Tabled :
      (ev : ResumeActivityEvent) (now : ℕ) (d : DaemonState)
      → Tabled page d
      → Tabled page (on_resume_activity w ev now d)
  unfolding on_resume_activity
  resume-Tabled ev now d h =
      let d' = switch_foreground ev now d in
      let k = Tabled-same page d d' (switch-SameTables ev now d) h in
      if_keeps (Tabled page) (is_pkg d.current_fg ev.pkg) d' (evaluate_reaping_pipeline w now d') k
        (evaluate-Tabled page w now d' resident k)

  register-Tabled :
      (ev : ProcStartEvent) (now : ℕ) (d : DaemonState)
      → ev.pid < two_32
      → Tabled page d
      → Tabled page (register_process w ev now d)
  register-Tabled ev now d l h =
      let (p, s) = register-pids w ev now d in
      let m = Sets-SetsIn d h.sets in
      record {
        filed = register_process-Filed w ev now d h.filed;
        sets = SetsIn-Sets (register_process w ev now d) (
            subst SetsIn (sym p) (
              SetsIn-insert ev.pkg _ d.pkg_to_pids
                (Neat-add ev.pid (pids_or_none (lookup ev.pkg d.pkg_to_pids)) l (m ev.pkg)) m));
        page_is = s ∙ h.page_is;
      }

  start-Tabled :
      (ev : ProcStartEvent) (now : ℕ) (d : DaemonState)
      → ev.pid < two_32
      → Tabled page d
      → Tabled page (on_proc_start w ev now d)
  unfolding on_proc_start
  start-Tabled ev now d l h =
      let d1 = register_process w ev now d in
      let k1 = register-Tabled ev now d l h in
      let d2 = enter_alive ev.pkg now d1 in
      let k2 = Tabled-same page d1 d2 (enter-SameTables ev.pkg now d1) k1 in
      if_keeps (Tabled page) (leb 10000 ev.uid) _ d1
        (if_keeps (Tabled page) (is_pkg d.current_fg ev.pkg || is_top ev.spawn_type) d2
          (evaluate_reaping_pipeline w now d2) k2 (evaluate-Tabled page w now d2 resident k2))
        k1

  died-Tabled :
      (ev : ProcDiedEvent) (now : ℕ) (d : DaemonState)
      → Tabled page d
      → Tabled page (on_proc_died ev now d)
  unfolding on_proc_died
  died-Tabled ev now d h =
      let filed = on_proc_died-Filed ev now d h.filed in
      let m = Sets-SetsIn d h.sets in
      elim (Option-cases (lookup ev.pid d.pid_to_pkg)) [
        | inl e ↦ rw (e, on_proc_died) h
        | inr (pkg, e) ↦
            let (p, s) = forget-pids ev.pid pkg now d in
            let d0 = record d { pid_to_pkg = remove ev.pid d.pid_to_pkg } in
            rw (e, on_proc_died)
              (record {
                filed = rw (e, on_proc_died) at filed;
                sets = SetsIn-Sets (forget_process ev.pid pkg now d) (
                    subst SetsIn (sym p)
                      (unlink-SetsIn ev.pid pkg (lookup pkg d.pkg_to_pids) d0 (m pkg) m));
                page_is = s ∙ h.page_is;
              })
      ]

  handle-Tabled :
      (ev : LogcatEvent) (now : ℕ) (d : DaemonState)
      → ValidEvent ev
      → Tabled page d
      → Tabled page (handle_event w ev now d)
  unfolding handle_event on_screen_toggled
  handle-Tabled (resume_activity ev) now d v h = resume-Tabled ev now d h
  handle-Tabled (proc_start ev) now d v h = start-Tabled ev now d v.pid_u32 h
  handle-Tabled (proc_died ev) now d v h = died-Tabled ev now d h
  handle-Tabled (screen_toggled state) now d v h =
      if_keeps (Tabled page) (same_bool d.screen_on state) d (screen_step state now d) h
        (Tabled-same page d _ (screen_step-SameTables state now d) h)
  handle-Tabled device_idle_light_step now d v h =
      if_keeps (Tabled page) (not d.screen_on && d.config.screen_off_harvest)
        (evaluate_reaping_pipeline w now d) d (evaluate-Tabled page w now d resident h) h

  pub dispatch_event-Tabled :
      (now : ℕ) (ev : LogcatEvent) (d : DaemonState)
      → ValidEvent ev
      → Tabled page d
      → Tabled page (dispatch_event w now ev d)
  unfolding dispatch_event
  dispatch_event-Tabled now ev d v h =
      let jump = clock_jump_ms d.last_event_epoch now in
      let d1 = apply_clock_jump jump d in
      let d2 = record d1 { last_event_epoch = now } in
      handle-Tabled ev now d2 v (
        Tabled-same page d1 d2 (refl, refl, refl)
          (Tabled-same page d d1 (jump-SameTables jump d) h))
