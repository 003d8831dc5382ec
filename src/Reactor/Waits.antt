-- ===== src/Reactor/Waits.antt =====
-- src/daemon.rs, `run`: how long the reactor sleeps.
use mini_lmk.Base.{
  ℕ, ◌≤◌, Bool, true, false, not, ◌≡◌, refl, ap, subst, ◌∙◌, List, [], ◌∷◌, ◌==◌, pos, negsuc,
  arith, if_keeps, is_some_and,
}
use mini_lmk.Spawn.{note_children_drained}
use mini_lmk.State.{DaemonState, World}
use mini_lmk.Daemon.Frame.Handlers.{dispatch_event-Keeps}
use mini_lmk.Kill.Idle.{launches, Idle}
use mini_lmk.Startup.Reload.{
  ConfigFiles, apply_files, announce, must_announce, reload_configs_from, emit_startup_record,
}
use mini_lmk.Startup.Seed.{detect_system_components, index_running}
use mini_lmk.Reactor.{
  Turn, PollReply, Reactor, going, ◌>>=◌, flushed, leave_fatal, logcat_died, poll_error,
  note_signal, drain_children, reap_terminated_children, poll_timeout, on_events, on_poll, turn,
}
use mini_lmk.Reactor.Loop.{At, At-bind, At-if, on_events-At}
use mini_lmk.Reactor.Stable.{Stable, Guarded, Guarded-Loop, OfDaemon}

-- From a moment at which `n` children had been asked for: no fewer are now, and if no more, none is
-- left to be reaped.
pub record Quiet (n : ℕ) (d : DaemonState) : Type 0 where
  pub more : n ≤ launches d.trace
  pub none_left : launches d.trace ≡ n → d.spawner.reaps_pending ≡ pos 0

abbrev Unspawned : DaemonState → DaemonState → Type 0
Unspawned d e = (launches e.trace ≡ launches d.trace) × (e.spawner ≡ d.spawner)

Quiet-same : (n : ℕ) (d e : DaemonState) → Unspawned d e → Quiet n d → Quiet n e
Quiet-same n d e (l, s) h =
    let m = h.more in
    record {
      more = omega arith;
      none_left = λ x. ap (λ y. y.reaps_pending) s ∙ h.none_left (omega arith);
    }

Idle-Quiet : (n : ℕ) (d e : DaemonState) → Idle d e → Quiet n d → Quiet n e
Idle-Quiet n d e i h =
    let m = h.more in
    let k = i.more in
    record {
      more = omega arith;
      none_left = λ x. ap (λ y. y.reaps_pending) (i.idle (omega arith)) ∙ h.none_left (omega arith);
    }

announce-Unspawned : (first : Bool) (now : ℕ) (d : DaemonState) → Unspawned d (announce first now d)
unfolding announce
announce-Unspawned first now d = ground arith

reload-Unspawned : (f : ConfigFiles) (d : DaemonState) → Unspawned d (reload_configs_from f d)
unfolding reload_configs_from apply_files
reload-Unspawned f d =
    if_keeps (Unspawned d) (must_announce f d) _ (apply_files f d)
      (announce-Unspawned (not d.config_announced) f.now
        (record (apply_files f d) { config_announced = true }))
      (refl, refl)

emit_startup-Unspawned : (d : DaemonState) → Unspawned d (emit_startup_record d)
unfolding emit_startup_record
emit_startup-Unspawned d = ground arith

Quiet-stable : (worlds : ℕ → World) (n : ℕ) → Stable worlds (Quiet n)
unfolding detect_system_components index_running note_children_drained
Quiet-stable worlds n = record {
  event = λ k now ev d v h. Idle-Quiet n d _ (dispatch_event-Keeps (worlds k) now ev d).spawns h;
  reload = λ f d h. Quiet-same n d _ (reload-Unspawned f d) h;
  announce = λ d h. Quiet-same n d _ (emit_startup-Unspawned d) h;
  flushes = λ d h. Quiet-same n d _ (refl, refl) h;
  drains = λ d h. record { more = h.more; none_left = λ x. refl };
  detects = λ o d h. Quiet-same n d _ (refl, refl) h;
  indexes = λ pid uid pkg d l h. Quiet-same n d _ (refl, refl) h;
}

abbrev asked : Reactor → ℕ
asked r = launches r.reader.daemon.trace

-- Behind a reap nothing is left, whatever was before.
reap-Quiet :
    (n : ℕ) (pids : List ℕ) (r : Reactor)
    → asked r ≡ n
    → At (OfDaemon (Quiet n)) (λ x. Unit) (reap_terminated_children pids r)
unfolding reap_terminated_children drain_children note_children_drained
reap-Quiet n [] r h = record { more = omega arith; none_left = λ x. refl }
reap-Quiet n (pid ∷ pids) r h =
    let done : OfDaemon (Quiet n) (drain_children r) = record {
      more = omega arith;
      none_left = λ x. refl;
    } in
    At-if (OfDaemon (Quiet n)) (λ x. Unit) (not (is_some_and r.logcat_pid (λ child. pid == child)))
      _ _ (reap-Quiet n pids r h)
      (At-if (OfDaemon (Quiet n)) (λ x. Unit) r.running (leave_fatal logcat_died r)
        (going (drain_children r)) tt done)

Quiet-guarded : (worlds : ℕ → World) (n : ℕ) → Guarded worlds (Quiet n) (λ x. Unit {0})
Quiet-guarded worlds n = record {
  stable = Quiet-stable worlds n;
  fails = λ d h. tt;
  stops = λ child d h. tt;
}

module _ (alphabetic : ℕ → Bool) (worlds : ℕ → World) where
  on_poll-Quiet :
      (n : ℕ) (t : Turn) (r : Reactor)
      → asked r ≡ n
      → At (OfDaemon (Quiet n)) (λ x. Unit) (on_poll alphabetic worlds t r)
  unfolding on_poll
  on_poll-Quiet n t r h =
      let P = OfDaemon (Quiet n) in
      let Q = λ (x : Reactor). Unit {0} in
      let loop = Guarded-Loop alphabetic worlds (Quiet n) (λ x. Unit) (Quiet-guarded worlds n) in
      let reaped = reap-Quiet n t.reaped r h in
      elim t.poll
        as (λ p. At P Q (elim p [
          | PollReply.ready es ↦
              reap_terminated_children t.reaped r
              >>= (λ r1. on_events alphabetic worlds es r1)
              >>= λ r2. going (flushed r2)
          | PollReply.interrupted ↦ reap_terminated_children t.reaped r
          | PollReply.failed ↦ leave_fatal poll_error r
        ])) [
          | PollReply.ready es ↦
              At-bind P P Q
                (reap_terminated_children t.reaped r >>= λ r1. on_events alphabetic worlds es r1)
                (λ r2. going (flushed r2)) (λ r2 k. loop.flushes r2 k)
                (At-bind P P Q (reap_terminated_children t.reaped r)
                  (λ r1. on_events alphabetic worlds es r1)
                  (λ r1 k. on_events-At alphabetic worlds P Q loop es r1 k) reaped)
          | PollReply.interrupted ↦ reaped
          | PollReply.failed ↦ tt
        ]

  turn-Quiet :
      (t : Turn) (r : Reactor)
      → At (OfDaemon (Quiet (asked r))) (λ x. Unit) (turn alphabetic worlds t r)
  unfolding turn note_signal
  turn-Quiet t r =
      let r0 = record r { waits = poll_timeout r ∷ r.waits } in
      on_poll-Quiet (asked r) t (note_signal t.stop r0)
        (if_keeps (λ x. asked x ≡ asked r) t.stop (record r0 { running = false }) r0 refl refl)

  timeout_of :
      (r : Reactor) → r.reader.daemon.spawner.reaps_pending ≡ pos 0 → poll_timeout r ≡ negsuc 0
  unfolding poll_timeout
  timeout_of r h = rw h refl

  -- Behind a round that asks for no child, the next wait is unbounded, however many children were left
  -- to be reaped before it, and also where some of them have not exited yet.
  pub turn_sleeps :
      (t : Turn) (r r' : Reactor)
      → turn alphabetic worlds t r ≡ going r'
      → launches r'.reader.daemon.trace ≡ launches r.reader.daemon.trace
      → poll_timeout r' ≡ negsuc 0
  turn_sleeps t r r' h same =
      let q : Quiet (asked r) r'.reader.daemon =
        subst (At (OfDaemon (Quiet (asked r))) (λ x. Unit)) h (turn-Quiet t r) in
      timeout_of r' (q.none_left same)
