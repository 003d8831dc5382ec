-- ===== src/Boot/Whole.antt =====
-- src/main.rs, `main`: what holds of the daemon from its start to its exit, whatever the files, the
-- processes and the events.
use mini_lmk.Base.{
  ℕ, ◌≤◌, Bool, true, false, not, ◌≡◌, refl, sym, subst, some, List, [], ◌∷◌, Text, text_beq, arith,
  any, is_some_and, if_keeps,
}
use mini_lmk.Text.{codes}
use mini_lmk.Config.Sane.{Sane, load_from_file-Sane}
use mini_lmk.Procfs.{read_total_ram_mb}
use mini_lmk.State.{DaemonState, World, kill_child, perform}
use mini_lmk.Daemon.Frame.Handlers.{dispatch_event-Keeps}
use mini_lmk.Daemon.Sessions.{SessionInv, SessionInv-same, dispatch_event-SessionInv}
use mini_lmk.Startup.Reload.{
  ConfigFiles, apply_files, announce, must_announce, reload_configs_from, emit_startup_record,
}
use mini_lmk.Startup.Probe.{detect_initial_screen_on}
use mini_lmk.Startup.Seed.{detect_system_components, index_running}
use mini_lmk.Reactor.{Turn}
use mini_lmk.Reactor.Stable.{Stable, Stable-Guarded}
use mini_lmk.Boot.{
  Options, no_options, read_arg, read_args, default_max_kills, initial_state, Environment, main,
}
use mini_lmk.Boot.Kept.{AtMain, main-At}
use mini_lmk.Boot.Observing.{
  reload-Reloaded, emit_startup-Reloaded, Observing, Spared, Observing-owned,
}
use mini_lmk.Boot.Child.{main-Owned}

announce-config :
    (first : Bool) (now : ℕ) (d : DaemonState) → (announce first now d).config ≡ d.config
unfolding announce
announce-config first now d = ground arith

reload-Sane :
    (f : ConfigFiles) (d : DaemonState) → Sane d.config → Sane (reload_configs_from f d).config
unfolding reload_configs_from apply_files
reload-Sane f d h =
    let d1 = apply_files f d in
    let d2 = record d1 { config_announced = true } in
    let s = load_from_file-Sane f.config_file d.config h in
    if_keeps (λ e. Sane e.config) (must_announce f d) (announce (not d.config_announced) f.now d2)
      d1 (subst Sane (sym (announce-config (not d.config_announced) f.now d2)) s) s

emit_startup-config : (d : DaemonState) → (emit_startup_record d).config ≡ d.config
unfolding emit_startup_record
emit_startup-config d = ground arith

abbrev pub act_flag : Text
act_flag = codes "--act"

abbrev acting : Options → Bool
acting o = is_some_and o.mode (λ m. m)

read_arg-acting :
    (arg : Text) (o : Options)
    → text_beq arg act_flag ≡ false
    → acting o ≡ false
    → acting (read_arg arg o) ≡ false
unfolding read_arg
read_arg-acting arg o n h = ground arith

-- The mode is the acting one only if an argument says so.
read_args-acting :
    (args : List Text) (o o' : Options)
    → any (λ arg. text_beq arg act_flag) args ≡ false
    → acting o ≡ false
    → read_args args o ≡ some o'
    → acting o' ≡ false
unfolding read_args
read_args-acting [] o o' n h e = ground arith
read_args-acting (arg ∷ args) o o' n h e =
    let step = read_arg-acting arg o (ground arith) h in
    read_args-acting args (read_arg arg o) o' (ground arith) step (ground arith)

not_acting : (o : Options) (m : Bool) → acting o ≡ false → o.mode ≡ some m → m ≡ false
not_acting o m h e = ground arith

-- Unless `--act` is among the arguments: whatever the files, the processes, the events and the
-- answers of the system, while the daemon runs it has sent no signal, asked for no child that kills
-- and stopped none; and where it has left, all that it did to another process is that a shutdown
-- stopped the logcat child, the one that the start had spawned.
pub main_observes :
    (alphabetic : ℕ → Bool) (worlds : ℕ → World) (args : List Text) (env : Environment)
    (ts : List Turn)
    → any (λ arg. text_beq arg act_flag) args ≡ false
    → AtMain Observing (Spared env.logcat.spawned) (main alphabetic worlds args env ts)
unfolding initial_state
main_observes alphabetic worlds args env ts n =
    main-Owned worlds Observing (Spared env.logcat.spawned) env
      (Observing-owned worlds env.logcat.spawned) alphabetic args ts
      λ o m e f. (not_acting o m (read_args-acting args no_options o n refl e) f, refl)

-- What holds of the daemon at every moment.
pub record WellRun (d : DaemonState) : Type 0 where
  pub sessions : SessionInv d
  pub sane : Sane d.config

WellRun-stable : (worlds : ℕ → World) → Stable worlds WellRun
unfolding detect_system_components index_running
WellRun-stable worlds = record {
  event = λ n now ev d v h. record {
    sessions = dispatch_event-SessionInv (worlds n) now ev d h.sessions;
    sane = subst Sane (sym (dispatch_event-Keeps (worlds n) now ev d).config_is) h.sane;
  };
  reload = λ f d h. record {
    sessions = SessionInv-same d _ (reload-Reloaded f d).0 h.sessions;
    sane = reload-Sane f d h.sane;
  };
  announce = λ d h. record {
    sessions = SessionInv-same d _ (emit_startup-Reloaded d).0 h.sessions;
    sane = subst Sane (sym (emit_startup-config d)) h.sane;
  };
  flushes = λ d h. record {
    sessions = SessionInv-same d _ (refl, refl, refl, refl, refl) h.sessions;
    sane = h.sane;
  };
  drains = λ d h. record {
    sessions = SessionInv-same d _ (refl, refl, refl, refl, refl) h.sessions;
    sane = h.sane;
  };
  detects = λ o d h. record {
    sessions = SessionInv-same d _ (refl, refl, refl, refl, refl) h.sessions;
    sane = h.sane;
  };
  indexes = λ pid uid pkg d l h. record {
    sessions = SessionInv-same d _ (refl, refl, refl, refl, refl) h.sessions;
    sane = h.sane;
  };
}

WellRun-kills : (pid : ℕ) (d : DaemonState) → WellRun d → WellRun (perform (kill_child pid) d)
WellRun-kills pid d h = record {
  sessions = SessionInv-same d _ (refl, refl, refl, refl, refl) h.sessions;
  sane = h.sane;
}

default_max_kills-pos : (mb : ℕ) → 1 ≤ default_max_kills mb
unfolding default_max_kills
default_max_kills-pos mb = ground arith

initial_state-WellRun :
    (act_mode json no_log : Bool) (env : Environment)
    → WellRun (initial_state act_mode json no_log env)
unfolding initial_state
initial_state-WellRun act_mode json no_log env =
    let on = detect_initial_screen_on env.screen_state env.power_dump in
    record {
      sessions = record { on = ground arith; off = ground arith; gaming = refl };
      sane = record {
        adj_low = refl;
        adj_high = refl;
        kills = default_max_kills-pos (read_total_ram_mb env.meminfo);
      };
    }

-- Whatever the arguments, the files, the processes, the events and the answers of the system, from
-- the start to the exit: the screen has a start of its current state and none of the other, and a
-- game session has a start just while a game is played; the minimal `oom_score_adj` is between 500
-- and 900, and a pass may kill at least one package.
pub main-WellRun :
    (alphabetic : ℕ → Bool) (worlds : ℕ → World) (args : List Text) (env : Environment)
    (ts : List Turn)
    → AtMain WellRun WellRun (main alphabetic worlds args env ts)
main-WellRun alphabetic worlds args env ts =
    main-At worlds WellRun WellRun
      (Stable-Guarded worlds WellRun WellRun-kills (WellRun-stable worlds)) env alphabetic args ts
      λ o m e f. initial_state-WellRun m o.json_stdout o.no_log env
