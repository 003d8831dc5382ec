-- ===== src/Boot/Child.antt =====
-- src/main.rs, `main`, and src/daemon.rs, `run`: the only child that a shutdown stops is the logcat child
-- that the start spawned.
use mini_lmk.Base.{
  ℕ, Bool, false, sym, ◌≡◌, Option, some, List, Text, if_keeps, Option-cases, inl, inr,
}
use mini_lmk.Spawn.{note_children_drained}
use mini_lmk.State.{DaemonState, World, flush, perform}
use mini_lmk.Startup.Reload.{emit_startup_record}
use mini_lmk.Reactor.{
  Turn, Reactor, Progress, going, left, note_signal, drain_children, reload_files, feed, stop_child,
  with_daemon, run,
}
use mini_lmk.Reactor.Loop.{At, At-bind, Loop, run_loop-At}
use mini_lmk.Reactor.Stable.{Stable, Guarded, Guarded-Loop, OfDaemon}
use mini_lmk.Boot.{
  Options, no_options, read_args, Environment, initial_state, discovered, new_daemon, main,
}
use mini_lmk.Boot.Kept.{AtMain, discovered-keeps, spawn_logcat_stream-At}

module _ (worlds : ℕ → World) (P Q : DaemonState → Type 0) (spawned : Option ℕ) where
  -- As `Guarded`, but a shutdown stops the spawned child only.
  pub record Owned : Type 0 where
    pub stable : Stable worlds P
    pub fails : (d : DaemonState) → P d → Q (perform flush (emit_startup_record d))
    pub stops :
        (d : DaemonState)
        → P d
        → Q (
            perform flush (
              let e = stop_child spawned d in
              record e { spawner = note_children_drained e.spawner }))

  -- The reactor owns the spawned child.
  abbrev Owner : Reactor → Type 0
  Owner r = P r.reader.daemon × (r.logcat_pid ≡ spawned)

  Owner-guarded : Owned → Guarded worlds P (λ x. Unit {0})
  Owner-guarded o = record { stable = o.stable; fails = λ d h. tt; stops = λ child d h. tt }

  Owned-Loop : (alphabetic : ℕ → Bool) → Owned → Loop alphabetic worlds Owner (OfDaemon Q)
  unfolding note_signal drain_children reload_files feed
  Owned-Loop alphabetic o =
      let g = Guarded-Loop alphabetic worlds P (λ x. Unit) (Owner-guarded o) in
      record {
        signals = λ stop r h. if_keeps Owner stop (record r { running = false }) r h h;
        feeds = λ bs r h. (g.feeds bs r h.0, h.1);
        reloads = λ e r h. (g.reloads e r h.0, h.1);
        flushes = λ r h. (g.flushes r h.0, h.1);
        drains = λ r h. (g.drains r h.0, h.1);
        waits = λ n r h. h;
        fails = λ r h. o.fails r.reader.daemon h.0;
        stops = λ r h. rw h.1 (o.stops r.reader.daemon h.0);
      }

  Owner-forget : (m : Progress) → At Owner (OfDaemon Q) m → At (OfDaemon P) (OfDaemon Q) m
  Owner-forget (going r) h = h.0
  Owner-forget (left e r) h = h

  run-Owned :
      (alphabetic : ℕ → Bool) (ts : List Turn) (r : Reactor)
      → Owned
      → Owner r
      → At (OfDaemon P) (OfDaemon Q) (run alphabetic worlds ts r)
  unfolding run
  run-Owned alphabetic ts r o h =
      let r' = with_daemon (emit_startup_record r.reader.daemon) r in
      Owner-forget _ (
        run_loop-At alphabetic worlds Owner (OfDaemon Q) (Owned-Loop alphabetic o) ts r'
          (o.stable.announce r.reader.daemon h.0, h.1))

-- Where every mode that the command line may give makes an initial state with the property.
pub main-Owned :
    (worlds : ℕ → World) (P Q : DaemonState → Type 0) (env : Environment)
    → Owned worlds P Q env.logcat.spawned
    → (alphabetic : ℕ → Bool) (args : List Text) (ts : List Turn)
    → ((o : Options) (act_mode : Bool)
        → read_args args no_options ≡ some o
        → o.mode ≡ some act_mode
        → P (initial_state act_mode o.json_stdout o.no_log env))
    → AtMain P Q (main alphabetic worlds args env ts)
unfolding main new_daemon
main-Owned worlds P Q env w alphabetic args ts h = elim (Option-cases (read_args args no_options)) [
  | inl e ↦ rw (e, main) tt
  | inr (o, e) ↦ elim (Option-cases o.mode) [
    | inl f ↦ rw (e, f, main) tt
    | inr (act_mode, f) ↦
        let d = discovered act_mode o.json_stdout o.no_log env in
        let k =
          discovered-keeps worlds P w.stable env act_mode o.json_stdout o.no_log
            (h o act_mode e f) in
        let O = Owner worlds P Q env.logcat.spawned in
        rw (e, f, main)
          (At-bind O (OfDaemon P) (OfDaemon Q) (new_daemon act_mode o.json_stdout o.no_log env)
            (λ r. run alphabetic worlds ts r)
            (λ r x. run-Owned worlds P Q env.logcat.spawned alphabetic ts r w x)
            (spawn_logcat_stream-At O (OfDaemon Q) env.logcat d (λ pid s. (k, sym s))
              (w.fails d k)))
  ]
]
