-- ===== src/Reactor/Stable.antt =====
-- src/daemon.rs, `run`: what every handler keeps, the reactor keeps.
use mini_lmk.Base.{
  ℕ, ◌<◌, two_32, Bool, false, Option, none, some, List, [], ◌∷◌, Text, if_keeps, Option-cases, inl,
  inr,
}
use mini_lmk.Spawn.{note_children_drained}
use mini_lmk.State.{DaemonState, World, flush, kill_child, perform}
use mini_lmk.Daemon.{LogcatEvent, dispatch_event}
use mini_lmk.Parser.Line.{parse_logcat_line}
use mini_lmk.Parser.Valid.{ValidEvent}
use mini_lmk.Parser.Sound.{parse_logcat_line-Valid}
use mini_lmk.Stream.{read_chunk, drain_logcat_lines, dispatch_lines, dispatch_logcat_line}
use mini_lmk.Startup.Reload.{ConfigFiles, reload_configs_from, emit_startup_record}
use mini_lmk.Startup.Seed.{SystemOutputs, detect_system_components, index_running}
use mini_lmk.Reactor.{Reactor, stop_child, note_signal, drain_children, reload_files, feed}
use mini_lmk.Reactor.Loop.{Loop}

-- Every operation that the reactor and the start make on the daemon keeps the property.
pub record Stable (worlds : ℕ → World) (P : DaemonState → Type 0) : Type 0 where
  pub event :
      (n now : ℕ) (ev : LogcatEvent) (d : DaemonState)
      → ValidEvent ev
      → P d
      → P (dispatch_event (worlds n) now ev d)
  pub reload : (f : ConfigFiles) (d : DaemonState) → P d → P (reload_configs_from f d)
  pub announce : (d : DaemonState) → P d → P (emit_startup_record d)
  pub flushes : (d : DaemonState) → P d → P (perform flush d)
  pub drains : (d : DaemonState) → P d → P (record d { spawner = note_children_drained d.spawner })
  pub detects : (o : SystemOutputs) (d : DaemonState) → P d → P (detect_system_components o d)
  pub indexes :
      (pid uid : ℕ) (pkg : Text) (d : DaemonState)
      → pid < two_32
      → P d
      → P (index_running pid uid pkg d)

-- One property while the process goes on, and one where it has left.
pub record Guarded (worlds : ℕ → World) (P Q : DaemonState → Type 0) : Type 0 where
  pub stable : Stable worlds P
  pub fails : (d : DaemonState) → P d → Q (perform flush (emit_startup_record d))
  pub stops :
      (child : Option ℕ) (d : DaemonState)
      → P d
      → Q (
          perform flush
            (let e = stop_child child d in record e { spawner = note_children_drained e.spawner }))

stop_child-keeps :
    (P : DaemonState → Type 0)
    → ((pid : ℕ) (d : DaemonState) → P d → P (perform (kill_child pid) d))
    → (child : Option ℕ) (d : DaemonState) → P d
    → P (stop_child child d)
stop_child-keeps P kills none d h = h
stop_child-keeps P kills (some pid) d h = kills pid d h

-- Where a shutdown may stop any child.
pub Stable-Guarded :
    (worlds : ℕ → World) (P : DaemonState → Type 0)
    → ((pid : ℕ) (d : DaemonState) → P d → P (perform (kill_child pid) d))
    → Stable worlds P
    → Guarded worlds P P
Stable-Guarded worlds P kills s = record {
  stable = s;
  fails = λ d h. s.flushes (emit_startup_record d) (s.announce d h);
  stops = λ child d h.
      let e = stop_child child d in
      s.flushes (record e { spawner = note_children_drained e.spawner })
        (s.drains e (stop_child-keeps P kills child d h));
}

module _ (alphabetic : ℕ → Bool) (worlds : ℕ → World) (P : DaemonState → Type 0)
    (stable : Stable worlds P) where
  dispatch_line-keeps :
      (n : ℕ) (line : Text) (d : DaemonState)
      → P d
      → P (dispatch_logcat_line alphabetic (worlds n) line d)
  unfolding dispatch_logcat_line
  dispatch_line-keeps n line d h = elim (Option-cases (parse_logcat_line alphabetic line)) [
    | inl e ↦ rw (e, dispatch_logcat_line) h
    | inr ((now, ev), e) ↦
        rw (e, dispatch_logcat_line)
          (stable.event n now ev d (parse_logcat_line-Valid alphabetic line now ev e).1 h)
  ]

  dispatch_lines-keeps :
      (lines : List Text) (n : ℕ) (d : DaemonState)
      → P d
      → P (dispatch_lines alphabetic worlds lines n d).1
  unfolding dispatch_lines
  dispatch_lines-keeps [] n d h = h
  dispatch_lines-keeps (line ∷ lines) n d h =
      dispatch_lines-keeps lines _ (dispatch_logcat_line alphabetic (worlds n) line d)
        (dispatch_line-keeps n line d h)

  feed-keeps :
      (bs : List ℕ) (r : Reactor)
      → P r.reader.daemon
      → P (feed alphabetic worlds bs r).reader.daemon
  unfolding feed read_chunk
  feed-keeps bs r h =
      dispatch_lines-keeps (drain_logcat_lines r.reader.buf bs).0 r.reader.handed r.reader.daemon h

-- The property of the daemon, as one of the reactor.
abbrev pub OfDaemon : (DaemonState → Type 0) → Reactor → Type 0
OfDaemon P r = P r.reader.daemon

pub Guarded-Loop :
    (alphabetic : ℕ → Bool) (worlds : ℕ → World) (P Q : DaemonState → Type 0)
    → Guarded worlds P Q
    → Loop alphabetic worlds (OfDaemon P) (OfDaemon Q)
unfolding note_signal drain_children reload_files
Guarded-Loop alphabetic worlds P Q g = record {
  signals = λ stop r h. if_keeps (OfDaemon P) stop (record r { running = false }) r h h;
  feeds = feed-keeps alphabetic worlds P g.stable;
  reloads = λ e r h. g.stable.reload e.files r.reader.daemon h;
  flushes = λ r h. g.stable.flushes r.reader.daemon h;
  drains = λ r h. g.stable.drains r.reader.daemon h;
  waits = λ n r h. h;
  fails = λ r h. g.fails r.reader.daemon h;
  stops = λ r h. g.stops r.logcat_pid r.reader.daemon h;
}
