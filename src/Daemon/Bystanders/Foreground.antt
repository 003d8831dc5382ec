-- ===== src/Daemon/Bystanders/Foreground.antt =====
-- src/events.rs, `on_resume_activity` and `on_screen_toggled`, for one package that the tables do
-- not hold as an app.
use mini_lmk.Base.{
  ℕ, ◌-◌, ◌/◌, ◌==◌, Bool, true, false, not, if_keeps, ◌&&◌, ◌≡◌, refl, sym, subst, Option, none,
  some, Text, text_eq, text_beq, text_beq_iff, number_eq, Option-cases, arith, Bool-cases, inl, inr,
}
use mini_lmk.Base.Map.{lookup, insert, contains, lookup-insert}
use mini_lmk.State.{DaemonState, World, is_pkg, emit, perform, screen_on, screen_off}
use mini_lmk.Kill.Absent.{Absent}
use mini_lmk.Events.Summary.{emit_bg_summary}
use mini_lmk.Events.Resume.{
  ResumeActivityEvent, known_app_uid, leave, stamp, game_step, update_game, switch_foreground,
  on_resume_activity, drop_trampoline, touch_lru,
}
use mini_lmk.Events.Screen.{since, same_bool, screen_step, on_screen_toggled}
use mini_lmk.Daemon.Fences.{Fenced, Fenced-same, told, evaluate-Fenced}

module _ (p : Text) where
  emit_bg_summary-Fenced :
      (now sec : ℕ) (d : DaemonState) → Fenced p d → Fenced p (emit_bg_summary now sec d)
  unfolding emit_bg_summary
  emit_bg_summary-Fenced now sec d h =
      if_keeps (Fenced p) (d.session_stats.bg_spawns == 0 && d.session_stats.bg_deaths == 0) d _ h
        (record { absent = h.absent; no_app_uid = h.no_app_uid; spared = (tt, h.spared) })

  stamp-Fenced :
      (prev : Text) (now : ℕ) (d : DaemonState)
      → text_beq prev p ≡ false
      → Fenced p d
      → Fenced p (stamp prev now d).1
  unfolding stamp
  stamp-Fenced prev now d ne h =
      let i : Absent p (insert prev now d.alive_apps) =
        rw (lookup-insert prev p now d.alive_apps, ne, h.absent) in
      elim (Option-cases (lookup prev d.alive_apps)) [
        | inl e ↦
            rw (e, stamp) (record { absent = i; no_app_uid = h.no_app_uid; spared = h.spared })
        | inr (t, e) ↦
            rw (e, stamp) (record { absent = i; no_app_uid = h.no_app_uid; spared = h.spared })
      ]

  known-ne :
      (prev : Text) (d : DaemonState)
      → Fenced p d
      → known_app_uid d prev ≡ true
      → text_beq prev p ≡ false
  known-ne prev d h k = elim (Bool-cases (text_beq prev p)) [
    | inr ne ↦ ne
    | inl e ↦
        let n : known_app_uid d prev ≡ false =
          subst (λ q. known_app_uid d q ≡ false) (sym ((text_beq_iff prev p).0 e)) h.no_app_uid in
        ground arith
  ]

  leave-Fenced :
      (o : Option Text) (pkg : Text) (now : ℕ) (d : DaemonState)
      → Fenced p d
      → Fenced p (leave o pkg now d).1
  unfolding leave
  leave-Fenced none pkg now d h = h
  leave-Fenced (some prev) pkg now d h =
      elim (Bool-cases (not (text_beq prev pkg) && known_app_uid d prev)) [
        | inr e ↦ rw e h
        | inl e ↦ rw e (stamp-Fenced prev now d (known-ne prev d h (ground arith)) h)
      ]

  game_step-Fenced :
      (is_game was_gaming : Bool) (pkg : Text) (now : ℕ) (d : DaemonState)
      → Fenced p d
      → Fenced p (game_step is_game was_gaming pkg now d)
  unfolding game_step
  game_step-Fenced true false pkg now d h = record {
    absent = h.absent;
    no_app_uid = h.no_app_uid;
    spared = (tt, h.spared);
  }
  game_step-Fenced false true pkg now d h = record {
    absent = h.absent;
    no_app_uid = h.no_app_uid;
    spared = (tt, h.spared);
  }
  game_step-Fenced true true pkg now d h = h
  game_step-Fenced false false pkg now d h = h

  update_game-Fenced :
      (pkg : Text) (now : ℕ) (d : DaemonState) → Fenced p d → Fenced p (update_game pkg now d)
  unfolding update_game
  update_game-Fenced pkg now d h =
      let d1 = record d { is_gaming = contains pkg d.games } in
      game_step-Fenced (contains pkg d.games) d.is_gaming pkg now d1
        (Fenced-same p d d1 refl refl refl h)

  switch_foreground-Fenced :
      (ev : ResumeActivityEvent) (now : ℕ) (d : DaemonState)
      → Fenced p d
      → Fenced p (switch_foreground ev now d)
  unfolding switch_foreground
  switch_foreground-Fenced ev now d h =
      let d0 = record d { current_fg = none } in
      let l = leave d.current_fg ev.pkg now d0 in
      let h1 = leave-Fenced d.current_fg ev.pkg now d0 (Fenced-same p d d0 refl refl refl h) in
      let d2 = emit_bg_summary now ((now - l.1.session_start) / 1000) l.1 in
      let h2 = emit_bg_summary-Fenced now _ l.1 h1 in
      let lru = drop_trampoline d.current_fg l.0 d2.fg_lru in
      let d3 = record d2 { fg_lru = touch_lru d2.config.fg_lru_max_depth ev.pkg lru } in
      let d4 = update_game ev.pkg now d3 in
      told p _ d4 _ tt refl refl refl
        (update_game-Fenced ev.pkg now d3 (Fenced-same p d2 d3 refl refl refl h2))

  pub on_resume_activity-Fenced :
      (w : World) (ev : ResumeActivityEvent) (now : ℕ) (d : DaemonState)
      → Fenced p d
      → Fenced p (on_resume_activity w ev now d)
  unfolding on_resume_activity
  on_resume_activity-Fenced w ev now d h =
      let h' = switch_foreground-Fenced ev now d h in
      if_keeps (Fenced p) (is_pkg d.current_fg ev.pkg) (switch_foreground ev now d) _ h'
        (evaluate-Fenced p w now (switch_foreground ev now d) h')

  screen_step-Fenced :
      (state : Bool) (now : ℕ) (d : DaemonState) → Fenced p d → Fenced p (screen_step state now d)
  unfolding screen_step
  screen_step-Fenced true now d h =
      let sec = since d.screen_off_start now in
      let d1 = perform (emit (screen_on now sec)) d in
      Fenced-same p (emit_bg_summary now sec d1) _ refl refl refl
        (emit_bg_summary-Fenced now sec d1 (told p _ d d1 tt refl refl refl h))
  screen_step-Fenced false now d h =
      let sec = since d.screen_on_start now in
      let d1 = perform (emit (screen_off now sec)) d in
      Fenced-same p (emit_bg_summary now sec d1) _ refl refl refl
        (emit_bg_summary-Fenced now sec d1 (told p _ d d1 tt refl refl refl h))

  pub on_screen_toggled-Fenced :
      (state : Bool) (now : ℕ) (d : DaemonState)
      → Fenced p d
      → Fenced p (on_screen_toggled state now d)
  unfolding on_screen_toggled
  on_screen_toggled-Fenced state now d h =
      if_keeps (Fenced p) (same_bool d.screen_on state) d (screen_step state now d) h
        (screen_step-Fenced state now d h)
