-- ===== src/Boot/Kept.antt =====
-- src/main.rs, `main`: what the initial state has and every operation keeps holds from the start to the
-- exit.
use mini_lmk.Base.{
  ℕ, ◌<◌, two_32, refl, Bool, ◌≡◌, Option, none, some, List, [], ◌∷◌, Text, Option-cases, inl, inr,
}
use mini_lmk.Text.Number.{parse_u32}
use mini_lmk.State.{DaemonState, World}
use mini_lmk.Startup.Probe.{probe_logcat_stream}
use mini_lmk.Startup.Reload.{reload_configs_from, emit_startup_record}
use mini_lmk.Startup.Seed.{
  ProcEntry, index_running, entry_pkg, index_with, seed_entry, seed_initial_state,
  detect_system_components,
}
use mini_lmk.Reactor.{
  Turn, Reactor, Progress, going, leave_fatal, logcat_not_polled, with_daemon, flushed, run,
}
use mini_lmk.Reactor.Loop.{At, At-bind, At-if, run_loop-At}
use mini_lmk.Parser.Valid.{parse_u32-lt}
use mini_lmk.Reactor.Stable.{Stable, Guarded, Guarded-Loop, OfDaemon}
use mini_lmk.Boot.{
  Options, no_options, read_args, LogcatStart, Environment, initial_state, with_stream,
  spawn_logcat_stream, discovered, new_daemon, main,
}

-- The property holds of the daemon, if there is one.
abbrev pub AtMain : (DaemonState → Type 0) → (DaemonState → Type 0) → Option Progress → Type 0
AtMain P Q none = Unit
AtMain P Q (some m) = At (OfDaemon P) (OfDaemon Q) m

module _ (P : DaemonState → Type 0)
    (indexes : (pid uid : ℕ) (pkg : Text) (d : DaemonState)
      → pid < two_32
      → P d
      → P (index_running pid uid pkg d)) where
  index_with-keeps :
      (pid uid : Option ℕ) (pkg : Option Text) (d : DaemonState)
      → ((n : ℕ) → pid ≡ some n → n < two_32)
      → P d
      → P (index_with pid uid pkg d)
  unfolding index_with
  index_with-keeps (some pid) (some uid) (some pkg) d l h = indexes pid uid pkg d (l pid refl) h
  index_with-keeps none uid pkg d l h = h
  index_with-keeps (some pid) none pkg d l h = h
  index_with-keeps (some pid) (some uid) none d l h = h

  pub seed-keeps : (es : List ProcEntry) (d : DaemonState) → P d → P (seed_initial_state es d)
  unfolding seed_initial_state seed_entry
  seed-keeps [] d h = h
  seed-keeps (e ∷ es) d h =
      seed-keeps es (seed_entry e d) (
        index_with-keeps (parse_u32 e.file_name) e.uid (entry_pkg e) d (parse_u32-lt e.file_name) h)

module _ (worlds : ℕ → World) (P : DaemonState → Type 0) (stable : Stable worlds P) where
  pub discovered-keeps :
      (env : Environment) (act_mode json no_log : Bool)
      → P (initial_state act_mode json no_log env)
      → P (discovered act_mode json no_log env)
  unfolding discovered
  discovered-keeps env act_mode json no_log h =
      let d = initial_state act_mode json no_log env in
      let d1 = reload_configs_from env.files d in
      seed-keeps P stable.indexes env.entries (detect_system_components env.outputs d1)
        (stable.detects env.outputs d1 (stable.reload env.files d h))

-- The stream starts with the child that was spawned, or the process leaves.
module _ (P Q : Reactor → Type 0) where
  pub spawn_logcat_stream-At :
      (s : LogcatStart) (d : DaemonState)
      → ((pid : ℕ) → s.spawned ≡ some pid → P (with_stream (some pid) d))
      → Q (flushed (with_daemon (emit_startup_record d) (with_stream none d)))
      → At P Q (spawn_logcat_stream s d)
  unfolding spawn_logcat_stream leave_fatal
  spawn_logcat_stream-At s d starts fails =
      let off = with_stream none d in
      elim (Option-cases s.spawned) [
        | inl e ↦ rw (e, spawn_logcat_stream, leave_fatal) fails
        | inr (pid, e) ↦ elim (Option-cases (probe_logcat_stream s.status s.fd s.ready s.revents)) [
          | inl f ↦
              rw (e, f, spawn_logcat_stream)
                (At-if P Q s.registered (going (with_stream (some pid) d))
                  (leave_fatal logcat_not_polled off) (starts pid e) fails)
          | inr (x, f) ↦ rw (e, f, spawn_logcat_stream, leave_fatal) fails
        ]
      ]

module _ (worlds : ℕ → World) (P Q : DaemonState → Type 0) (guarded : Guarded worlds P Q) where
  open guarded use {stable, fails}

  pub run-At :
      (alphabetic : ℕ → Bool) (ts : List Turn) (r : Reactor)
      → P r.reader.daemon
      → At (OfDaemon P) (OfDaemon Q) (run alphabetic worlds ts r)
  unfolding run
  run-At alphabetic ts r h =
      run_loop-At alphabetic worlds (OfDaemon P) (OfDaemon Q)
        (Guarded-Loop alphabetic worlds P Q guarded) ts
        (with_daemon (emit_startup_record r.reader.daemon) r) (stable.announce r.reader.daemon h)

  module _ (env : Environment) where
    new_daemon-At :
        (act_mode json no_log : Bool)
        → P (initial_state act_mode json no_log env)
        → At (OfDaemon P) (OfDaemon Q) (new_daemon act_mode json no_log env)
    unfolding new_daemon
    new_daemon-At act_mode json no_log h =
        let d = discovered act_mode json no_log env in
        let k = discovered-keeps worlds P stable env act_mode json no_log h in
        spawn_logcat_stream-At (OfDaemon P) (OfDaemon Q) env.logcat d (λ pid e. k) (fails d k)

    -- Where every mode that the command line may give makes an initial state with the property.
    pub main-At :
        (alphabetic : ℕ → Bool) (args : List Text) (ts : List Turn)
        → ((o : Options) (act_mode : Bool)
            → read_args args no_options ≡ some o
            → o.mode ≡ some act_mode
            → P (initial_state act_mode o.json_stdout o.no_log env))
        → AtMain P Q (main alphabetic worlds args env ts)
    unfolding main
    main-At alphabetic args ts h = elim (Option-cases (read_args args no_options)) [
      | inl e ↦ rw (e, main) tt
      | inr (o, e) ↦ elim (Option-cases o.mode) [
        | inl f ↦ rw (e, f, main) tt
        | inr (act_mode, f) ↦
            rw (e, f, main)
              (At-bind (OfDaemon P) (OfDaemon P) (OfDaemon Q)
                (new_daemon act_mode o.json_stdout o.no_log env) (λ r. run alphabetic worlds ts r)
                (λ r k. run-At alphabetic ts r k)
                (new_daemon-At act_mode o.json_stdout o.no_log (h o act_mode e f)))
      ]
    ]
