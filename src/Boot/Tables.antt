-- ===== src/Boot/Tables.antt =====
-- src/main.rs, `main`: the process tables from the start of the daemon to its exit.
use mini_lmk.Base.{
  ℕ, ◌<◌, Bool, true, not, refl, List, Text, text_eq, number_eq, arith, if_keeps, two_32,
}
use mini_lmk.Base.Map.{lookup}
use mini_lmk.State.{DaemonState, World, Moment}
use mini_lmk.Events.Process.{pids_or_none}
use mini_lmk.Startup.Reload.{
  ConfigFiles, apply_files, announce, must_announce, reload_configs_from, emit_startup_record,
}
use mini_lmk.Startup.Seed.{detect_system_components, index_running}
use mini_lmk.Tables.{filed-insert}
use mini_lmk.Tables.Sums.{Neat-add, Resident}
use mini_lmk.Tables.Kept.{Tabled, SameTables, Tabled-same, SetsIn-Sets, Sets-SetsIn, SetsIn-insert}
use mini_lmk.Tables.Events.{dispatch_event-Tabled}
use mini_lmk.Reactor.{Turn}
use mini_lmk.Reactor.Stable.{Stable, Stable-Guarded}
use mini_lmk.Boot.{Environment, page_size_kb, initial_state, main}
use mini_lmk.Boot.Kept.{AtMain, main-At}

announce-SameTables :
    (first : Bool) (now : ℕ) (d : DaemonState) → SameTables d (announce first now d)
unfolding announce
announce-SameTables first now d = ground arith

reload-SameTables : (f : ConfigFiles) (d : DaemonState) → SameTables d (reload_configs_from f d)
unfolding reload_configs_from apply_files
reload-SameTables f d =
    let d1 = apply_files f d in
    if_keeps (SameTables d) (must_announce f d) _ d1
      (announce-SameTables (not d.config_announced) f.now (record d1 { config_announced = true }))
      (refl, refl, refl)

emit_startup-SameTables : (d : DaemonState) → SameTables d (emit_startup_record d)
unfolding emit_startup_record
emit_startup-SameTables d = ground arith

index-Tabled :
    (page pid uid : ℕ) (pkg : Text) (d : DaemonState)
    → pid < two_32
    → Tabled page d
    → Tabled page (index_running pid uid pkg d)
unfolding index_running
index-Tabled page pid uid pkg d l h =
    let m = Sets-SetsIn d h.sets in
    record {
      filed = λ q. filed-insert pid pkg d.pid_to_pkg d.pkg_to_pids q (h.filed q);
      sets = SetsIn-Sets (index_running pid uid pkg d) (
          SetsIn-insert pkg _ d.pkg_to_pids
            (Neat-add pid (pids_or_none (lookup pkg d.pkg_to_pids)) l (m pkg)) m);
      page_is = h.page_is;
    }

module _ (page : ℕ) (worlds : ℕ → World)
    (resident : (n : ℕ) (m : Moment) → Resident ((worlds n).proc m) page) where
  Tabled-stable : Stable worlds (Tabled page)
  unfolding detect_system_components
  Tabled-stable = record {
    event = λ n now ev d v h. dispatch_event-Tabled page (worlds n) (resident n) now ev d v h;
    reload = λ f d h. Tabled-same page d _ (reload-SameTables f d) h;
    announce = λ d h. Tabled-same page d _ (emit_startup-SameTables d) h;
    flushes = λ d h. Tabled-same page d _ (refl, refl, refl) h;
    drains = λ d h. Tabled-same page d _ (refl, refl, refl) h;
    detects = λ o d h. Tabled-same page d _ (refl, refl, refl) h;
    indexes = λ pid uid pkg d l h. index-Tabled page pid uid pkg d l h;
  }

initial_state-Tabled :
    (act_mode json no_log : Bool) (env : Environment)
    → Tabled (page_size_kb env.page_size) (initial_state act_mode json no_log env)
unfolding initial_state lookup
initial_state-Tabled act_mode json no_log env = record {
  filed = λ q. refl;
  sets = λ pkg. (tt, tt);
  page_is = refl;
}

-- Where no process ever has 2 TiB of memory or more, whatever the arguments, the files, the processes
-- and the events, from the start to the exit: every process that the table of processes gives to a
-- package stands among the processes of that package in the table of packages, where each package
-- has every process once, with a number of 32 bits. The converse is not claimed.
pub main-Tabled :
    (alphabetic : ℕ → Bool) (worlds : ℕ → World) (args : List Text) (env : Environment)
    (ts : List Turn)
    → ((n : ℕ) (m : Moment) → Resident ((worlds n).proc m) (page_size_kb env.page_size))
    → AtMain
        (Tabled (page_size_kb env.page_size))
        (Tabled (page_size_kb env.page_size))
        (main alphabetic worlds args env ts)
main-Tabled alphabetic worlds args env ts resident =
    let page = page_size_kb env.page_size in
    main-At worlds (Tabled page) (Tabled page)
      (Stable-Guarded worlds (Tabled page) (λ pid d h. Tabled-same page d _ (refl, refl, refl) h)
        (Tabled-stable page worlds resident))
      env alphabetic args ts λ o m e f. initial_state-Tabled m o.json_stdout o.no_log env
