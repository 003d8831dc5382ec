-- ===== src/Boot/Settled.antt =====
-- src/daemon.rs, `emit_startup_record`, `fatal` and `run`: the record of the start, held and emitted.
use mini_lmk.Base.{
  ℕ, Bool, true, false, not, ◌≡◌, refl, sym, ◌∙◌, ap, Option, none, some, List, [], ◌∷◌, ◌++◌,
  arith, inl, inr,
}
use mini_lmk.Config.{default_config}
use mini_lmk.Procfs.{read_total_ram_mb}
use mini_lmk.Spawn.{note_children_drained}
use mini_lmk.State.{DaemonState, World, Action, flush, perform}
use mini_lmk.Daemon.{dispatch_event}
use mini_lmk.Daemon.Frame.Handlers.{dispatch_event-Keeps}
use mini_lmk.Startup.Reload.{
  ConfigFiles, apply_files, announce, reload_configs_from, emit_startup_record,
}
use mini_lmk.Startup.Announce.{
  Announcement, announcement, held, owed, reloads_of, reload_configs_from-announced,
  emit_startup_record-announced,
}
use mini_lmk.Startup.Seed.{detect_system_components, index_running}
use mini_lmk.Reactor.{Turn, Reactor, run, with_daemon, stop_child}
use mini_lmk.Reactor.Loop.{At, run_loop-At}
use mini_lmk.Reactor.Stable.{Stable, Guarded, Guarded-Loop, OfDaemon}
use mini_lmk.Boot.{Options, default_max_kills, Environment}

abbrev pub ends_flushed : List Action → Bool
ends_flushed (flush ∷ t) = true
ends_flushed _ = false

-- The `config_reload` record that the start owes: the defaults with the burst of the device, under the
-- file that was found.
abbrev pub baseline : Options → Environment → Announcement
baseline o env = announcement env.files o.no_log (record default_config {
  max_kills_per_pass = default_max_kills (read_total_ram_mb env.meminfo);
})

-- The record is the first of its kind that was emitted.
abbrev pub Opens : Announcement → DaemonState → Type 0
Opens x d = (later : List Announcement) × (reloads_of d.trace ≡ later ++ x ∷ [])

-- The record was emitted, before any other of its kind, and none is held.
pub record Settled (x : Announcement) (d : DaemonState) : Type 0 where
  pub was_announced : d.config_announced ≡ true
  pub none_held : d.startup_record ≡ none
  pub opens : Opens x d

-- And nothing is left in the buffer of the log.
pub record Flushed (x : Announcement) (d : DaemonState) : Type 0 where
  pub last : ends_flushed d.trace ≡ true
  pub none_held : d.startup_record ≡ none
  pub opens : Opens x d

-- The record is held, and none of its kind was emitted.
pub record Owing (x : Announcement) (d : DaemonState) : Type 0 where
  pub was_announced : d.config_announced ≡ true
  pub is_held : d.startup_record ≡ some x
  pub none_emitted : reloads_of d.trace ≡ []

announce-announced :
    (first : Bool) (now : ℕ) (d : DaemonState)
    → (announce first now d).config_announced ≡ d.config_announced
unfolding announce
announce-announced first now d = ground arith

-- Whatever was announced before: behind a reload something was.
pub reload-announced :
    (f : ConfigFiles) (d : DaemonState) → (reload_configs_from f d).config_announced ≡ true
unfolding reload_configs_from apply_files
reload-announced f d =
    let d2 = record (apply_files f d) { config_announced = true } in
    let first = not d.config_announced in ground (arith, announce-announced first f.now d2)

emit_startup-announced :
    (d : DaemonState) → (emit_startup_record d).config_announced ≡ d.config_announced
unfolding emit_startup_record
emit_startup-announced d = ground arith

pub true-false : (b : Bool) → b ≡ true → b ≡ false → ⊥
true-false b h k = ground (arith, h, k)

module _ (x : Announcement) where
  -- One more record behind those that were emitted, or none.
  Opens-more :
      (y : Announcement) (d e : DaemonState)
      → reloads_of e.trace ≡ y ∷ reloads_of d.trace
      → Opens x d
      → Opens x e
  Opens-more y d e h (later, k) = (y ∷ later, h ∙ ap (λ l. y ∷ l) k)

  Opens-same : (d e : DaemonState) → reloads_of e.trace ≡ reloads_of d.trace → Opens x d → Opens x e
  Opens-same d e h (later, k) = (later, h ∙ k)

  reload-Settled :
      (f : ConfigFiles) (d : DaemonState) → Settled x d → Settled x (reload_configs_from f d)
  reload-Settled f d h =
      let e = reload_configs_from f d in
      elim (reload_configs_from-announced f d) [
        | inl (n, _) ↦ absurd (true-false d.config_announced h.was_announced n)
        | inr (inl (_, _, (k, t))) ↦ record {
          was_announced = reload-announced f d;
          none_held = k ∙ h.none_held;
          opens = Opens-more (announcement f d.no_log_cli d.config) d e t h.opens;
        }
        | inr (inr (_, _, (k, t))) ↦ record {
          was_announced = reload-announced f d;
          none_held = k ∙ h.none_held;
          opens = Opens-same d e t h.opens;
        }
      ]

  -- Where none is held, the records behind `emit_startup_record` are those that were owed.
  emitted : (d : DaemonState) → reloads_of (emit_startup_record d).trace ≡ owed d
  emitted d =
      let e = emit_startup_record d in
      let (k, n) = emit_startup_record-announced d in
      ap (λ o. held o ++ reloads_of e.trace) (sym n) ∙ k

  emit-Settled : (d : DaemonState) → Settled x d → Settled x (emit_startup_record d)
  emit-Settled d h = record {
    was_announced = emit_startup-announced d ∙ h.was_announced;
    none_held = (emit_startup_record-announced d).1;
    opens =
        Opens-same d (emit_startup_record d)
          (emitted d ∙ ap (λ o. held o ++ reloads_of d.trace) h.none_held) h.opens;
  }

  Settled-stable : (worlds : ℕ → World) → Stable worlds (Settled x)
  unfolding detect_system_components index_running
  Settled-stable worlds = record {
    event = λ n now ev d v h.
        let e = dispatch_event (worlds n) now ev d in
        let k = dispatch_event-Keeps (worlds n) now ev d in
        record {
          was_announced = k.announced_is ∙ h.was_announced;
          none_held = k.held_is ∙ h.none_held;
          opens = Opens-same d e k.reloads_are h.opens;
        };
    reload = reload-Settled;
    announce = emit-Settled;
    flushes =
        λ d h. record { was_announced = h.was_announced; none_held = h.none_held; opens = h.opens };
    drains =
        λ d h. record { was_announced = h.was_announced; none_held = h.none_held; opens = h.opens };
    detects = λ o d h. record {
      was_announced = h.was_announced;
      none_held = h.none_held;
      opens = h.opens;
    };
    indexes = λ pid uid pkg d l h. record {
      was_announced = h.was_announced;
      none_held = h.none_held;
      opens = h.opens;
    };
  }

  -- The held record comes out, where the daemon starts to run and where it fails before.
  pub emit-Owing : (d : DaemonState) → Owing x d → Settled x (emit_startup_record d)
  emit-Owing d h = record {
    was_announced = emit_startup-announced d ∙ h.was_announced;
    none_held = (emit_startup_record-announced d).1;
    opens = (
      [],
      emitted d ∙ ap (λ o. held o ++ reloads_of d.trace) h.is_held ∙ ap (λ l. x ∷ l) h.none_emitted,
    );
  }

  pub Settled-Flushed : (d : DaemonState) → Settled x d → Flushed x (perform flush d)
  Settled-Flushed d h = record { last = refl; none_held = h.none_held; opens = h.opens }

  stop-Flushed :
      (child : Option ℕ) (d : DaemonState)
      → Settled x d
      → Flushed x (
          perform flush
            (let e = stop_child child d in record e { spawner = note_children_drained e.spawner }))
  stop-Flushed none d h = record { last = refl; none_held = h.none_held; opens = h.opens }
  stop-Flushed (some pid) d h = record { last = refl; none_held = h.none_held; opens = h.opens }

  Settled-guarded : (worlds : ℕ → World) → Guarded worlds (Settled x) (Flushed x)
  Settled-guarded worlds = record {
    stable = Settled-stable worlds;
    fails = λ d h. Settled-Flushed (emit_startup_record d) (emit-Settled d h);
    stops = stop-Flushed;
  }

  pub run-Flushed :
      (alphabetic : ℕ → Bool) (worlds : ℕ → World) (ts : List Turn) (r : Reactor)
      → OfDaemon (Owing x) r
      → At (OfDaemon (Settled x)) (OfDaemon (Flushed x)) (run alphabetic worlds ts r)
  unfolding run
  run-Flushed alphabetic worlds ts r h =
      run_loop-At alphabetic worlds (OfDaemon (Settled x)) (OfDaemon (Flushed x))
        (Guarded-Loop alphabetic worlds (Settled x) (Flushed x) (Settled-guarded worlds)) ts
        (with_daemon (emit_startup_record r.reader.daemon) r) (emit-Owing r.reader.daemon h)
