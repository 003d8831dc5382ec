-- ===== src/Boot/Exit.antt =====
-- src/main.rs, `main`, and src/daemon.rs, `fatal` and the end of `run`: how the process leaves.
use mini_lmk.Base.{ℕ, Bool, false, ◌≡◌, refl, ◌∙◌, ap, some, List, [], Text, Option-cases, inl, inr}
use mini_lmk.State.{DaemonState, World}
use mini_lmk.Startup.Reload.{ConfigFiles, reload_configs_from, emit_startup_record}
use mini_lmk.Startup.Announce.{
  Announcement, announcement, reloads_of, reload_configs_from-announced,
}
use mini_lmk.Startup.Seed.{detect_system_components, index_running}
use mini_lmk.Reactor.{Turn, run}
use mini_lmk.Reactor.Loop.{At-bind}
use mini_lmk.Reactor.Stable.{OfDaemon}
use mini_lmk.Boot.{
  Options, no_options, read_args, Environment, initial_state, discovered, new_daemon, main,
}
use mini_lmk.Boot.Settled.{
  baseline, Settled, Flushed, Owing, emit-Owing, Settled-Flushed, run-Flushed, reload-announced,
  true-false,
}
use mini_lmk.Boot.Kept.{AtMain, seed-keeps, spawn_logcat_stream-At}

-- The first load holds its record.
load-Owing :
    (f : ConfigFiles) (d : DaemonState)
    → d.config_announced ≡ false
    → d.trace ≡ []
    → Owing (announcement f d.no_log_cli d.config) (reload_configs_from f d)
load-Owing f d n t = elim (reload_configs_from-announced f d) [
  | inl (_, (k, r)) ↦ record {
    was_announced = reload-announced f d;
    is_held = k;
    none_emitted = r ∙ ap reloads_of t;
  }
  | inr (inl (y, _, _)) ↦ absurd (true-false d.config_announced y n)
  | inr (inr (y, _, _)) ↦ absurd (true-false d.config_announced y n)
]

Owing-same :
    (x : Announcement) (d e : DaemonState)
    → (e.config_announced ≡ d.config_announced)
      × (e.startup_record ≡ d.startup_record)
      × (e.trace ≡ d.trace)
    → Owing x d
    → Owing x e
Owing-same x d e (a, s, t) h = record {
  was_announced = a ∙ h.was_announced;
  is_held = s ∙ h.is_held;
  none_emitted = ap reloads_of t ∙ h.none_emitted;
}

discovered-Owing :
    (o : Options) (act_mode : Bool) (env : Environment)
    → Owing (baseline o env) (discovered act_mode o.json_stdout o.no_log env)
unfolding discovered detect_system_components index_running initial_state
discovered-Owing o act_mode env =
    let d0 = initial_state act_mode o.json_stdout o.no_log env in
    let d = reload_configs_from env.files d0 in
    let x = baseline o env in
    seed-keeps (Owing x) (λ pid uid pkg e l h. Owing-same x e _ (refl, refl, refl) h) env.entries
      (detect_system_components env.outputs d)
      (Owing-same x d _ (refl, refl, refl) (load-Owing env.files d0 refl refl))

-- Whatever the arguments, the files, the processes and the events: the `config_reload` record of the
-- start, with the configuration of the first load, the effective switch and the time of that load,
-- is emitted once the reactor runs, before any other `config_reload` record; and wherever the process
-- leaves, by a failure at the start, by a failure in the loop or by a signal, it was emitted so too, no
-- record is held, and the last that the daemon did was a flush.
pub main-Flushed :
    (alphabetic : ℕ → Bool) (worlds : ℕ → World) (args : List Text) (env : Environment)
    (ts : List Turn) (o : Options)
    → read_args args no_options ≡ some o
    → AtMain
        (Settled (baseline o env))
        (Flushed (baseline o env))
        (main alphabetic worlds args env ts)
unfolding main new_daemon
main-Flushed alphabetic worlds args env ts o e = elim (Option-cases o.mode) [
  | inl f ↦ rw (e, f, main) tt
  | inr (act_mode, f) ↦
      let x = baseline o env in
      let d = discovered act_mode o.json_stdout o.no_log env in
      let k = discovered-Owing o act_mode env in
      let started =
        spawn_logcat_stream-At (OfDaemon (Owing x)) (OfDaemon (Flushed x)) env.logcat d (λ pid s. k)
          (Settled-Flushed x (emit_startup_record d) (emit-Owing x d k)) in
      rw (e, f, main)
        (At-bind (OfDaemon (Owing x)) (OfDaemon (Settled x)) (OfDaemon (Flushed x))
          (new_daemon act_mode o.json_stdout o.no_log env) (λ r. run alphabetic worlds ts r)
          (λ r h. run-Flushed x alphabetic worlds ts r h) started)
]
