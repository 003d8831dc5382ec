-- ===== src/Boot/Observing.antt =====
-- src/main.rs, `main`, in observe mode: what the operations do to other processes.
use mini_lmk.Base.{
  ℕ, Bool, true, false, not, ◌≡◌, refl, ◌∙◌, Option, none, some, List, [], ◌∷◌, All, arith,
  if_keeps,
}
use mini_lmk.State.{
  DaemonState, World, Action, emit, flush, log_switch, signal, launch, kill_child, perform,
}
use mini_lmk.Daemon.Frame.{acts}
use mini_lmk.Daemon.Frame.Handlers.{dispatch_event-Keeps}
use mini_lmk.Daemon.Sessions.{SameSessions}
use mini_lmk.Startup.Reload.{
  ConfigFiles, apply_files, announce, must_announce, reload_configs_from, emit_startup_record,
}
use mini_lmk.Startup.Seed.{detect_system_components, index_running}
use mini_lmk.Spawn.{note_children_drained}
use mini_lmk.Reactor.{stop_child}
use mini_lmk.Reactor.Stable.{Stable}
use mini_lmk.Boot.{}
use mini_lmk.Boot.Child.{Owned}

-- What a reload leaves alone, and that it kills nothing.
abbrev pub Reloaded : DaemonState → DaemonState → Type 0
Reloaded d e = SameSessions d e × (e.act_mode ≡ d.act_mode) × (acts e.trace ≡ acts d.trace)

announce-Reloaded : (first : Bool) (now : ℕ) (d : DaemonState) → Reloaded d (announce first now d)
unfolding announce
announce-Reloaded first now d = ground arith

pub reload-Reloaded : (f : ConfigFiles) (d : DaemonState) → Reloaded d (reload_configs_from f d)
unfolding reload_configs_from apply_files
reload-Reloaded f d =
    let d1 = apply_files f d in
    if_keeps (Reloaded d) (must_announce f d) _ d1
      (announce-Reloaded (not d.config_announced) f.now (record d1 { config_announced = true }))
      ((refl, refl, refl, refl, refl), refl, refl)

-- Observe mode, and nothing killed so far.
abbrev pub Observing : DaemonState → Type 0
Observing d = (d.act_mode ≡ false) × (acts d.trace ≡ 0)

pub emit_startup-Reloaded : (d : DaemonState) → Reloaded d (emit_startup_record d)
unfolding emit_startup_record
emit_startup-Reloaded d = ground arith

Observing-stable : (worlds : ℕ → World) → Stable worlds Observing
unfolding detect_system_components index_running
Observing-stable worlds = record {
  event = λ n now ev d v h.
      let k = dispatch_event-Keeps (worlds n) now ev d in (k.mode_is ∙ h.0, k.observes h.0 ∙ h.1);
  reload = λ f d h. let (_, m, t) = reload-Reloaded f d in (m ∙ h.0, t ∙ h.1);
  announce = λ d h. let (_, m, t) = emit_startup-Reloaded d in (m ∙ h.0, t ∙ h.1);
  flushes = λ d h. h;
  drains = λ d h. h;
  detects = λ o d h. h;
  indexes = λ pid uid pkg d l h. h;
}

-- No action on another process but the end of the given child.
abbrev pub Harmless : Option ℕ → Action → Type 0
Harmless child (signal pid reply) = ⊥
Harmless child (launch l) = ⊥
Harmless child (kill_child pid) = child ≡ some pid
Harmless child a = Unit

-- No signal was sent, no child was asked for, and none was stopped but the given one.
abbrev pub Spared : Option ℕ → DaemonState → Type 0
Spared child d = All (Harmless child) d.trace

Spared-acts : (child : Option ℕ) (t : List Action) → acts t ≡ 0 → All (Harmless child) t
Spared-acts child [] h = tt
Spared-acts child (emit r ∷ t) h = (tt, Spared-acts child t h)
Spared-acts child (flush ∷ t) h = (tt, Spared-acts child t h)
Spared-acts child (log_switch on ∷ t) h = (tt, Spared-acts child t h)
Spared-acts child (signal pid reply ∷ t) h = absurd (omega (arith, h))
Spared-acts child (launch l ∷ t) h = absurd (omega (arith, h))
Spared-acts child (kill_child pid ∷ t) h = absurd (omega (arith, h))

stop_child-Spared :
    (child : Option ℕ) (d : DaemonState) → Spared child d → Spared child (stop_child child d)
stop_child-Spared none d h = h
stop_child-Spared (some pid) d h = (refl, h)

stop_drain-Spared :
    (child : Option ℕ) (d : DaemonState)
    → Spared child d
    → Spared child (
        perform flush
          (let e = stop_child child d in record e { spawner = note_children_drained e.spawner }))
stop_drain-Spared child d h = (tt, stop_child-Spared child d h)

pub Observing-owned :
    (worlds : ℕ → World) (child : Option ℕ) → Owned worlds Observing (Spared child) child
Observing-owned worlds child =
    let stable = Observing-stable worlds in
    record {
      stable = stable;
      fails = λ d h.
          let e = emit_startup_record d in
          let k : Observing e = stable.announce d h in (tt, Spared-acts child e.trace k.1);
      stops = λ d h. stop_drain-Spared child d (Spared-acts child d.trace h.1);
    }
