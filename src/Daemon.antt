-- ===== src/Daemon.antt =====
-- src/daemon.rs: the dispatch of one parsed event to its handler.
pub mod Sessions
pub mod Fences
pub mod Bystanders
pub mod Frame
use mini_lmk.Base.{ℕ, Bool, not, ◌&&◌, if◌then◌else◌, List, [], ◌∷◌}
use mini_lmk.State.{DaemonState, World}
use mini_lmk.Kill.Pass.{evaluate_reaping_pipeline}
use mini_lmk.Events.Clock.{clock_jump_ms, apply_clock_jump}
use mini_lmk.Events.Resume.{ResumeActivityEvent, on_resume_activity}
use mini_lmk.Events.Process.{ProcStartEvent, ProcDiedEvent, on_proc_start, on_proc_died}
use mini_lmk.Events.Screen.{on_screen_toggled}

pub data LogcatEvent : Type 0 where
  resume_activity : ResumeActivityEvent → LogcatEvent
  proc_start : ProcStartEvent → LogcatEvent
  proc_died : ProcDiedEvent → LogcatEvent
  screen_toggled : Bool → LogcatEvent
  device_idle_light_step : LogcatEvent

unfoldable pub handle_event : World → LogcatEvent → ℕ → DaemonState → DaemonState
unfolding on_resume_activity on_proc_start on_proc_died on_screen_toggled evaluate_reaping_pipeline
handle_event w (resume_activity ev) now d = on_resume_activity w ev now d
handle_event w (proc_start ev) now d = on_proc_start w ev now d
handle_event w (proc_died ev) now d = on_proc_died ev now d
handle_event w (screen_toggled state) now d = on_screen_toggled state now d
handle_event w device_idle_light_step now d =
    if not d.screen_on && d.config.screen_off_harvest then evaluate_reaping_pipeline w now d else d

-- The clock step first, then the handler.
unfoldable pub dispatch_event : World → ℕ → LogcatEvent → DaemonState → DaemonState
unfolding handle_event clock_jump_ms apply_clock_jump
dispatch_event w now ev d =
    let d1 = apply_clock_jump (clock_jump_ms d.last_event_epoch now) d in
    handle_event w ev now (record d1 { last_event_epoch = now })

-- One event, when it happened, and what the system answers while it is handled.
pub record Arrival : Type 0 where
  pub world : World
  pub now : ℕ
  pub event : LogcatEvent

-- The events of a stream, one after the other.
unfoldable pub run_events : List Arrival → DaemonState → DaemonState
run_events [] d = d
run_events (a ∷ rest) d = run_events rest (dispatch_event a.world a.now a.event d)
