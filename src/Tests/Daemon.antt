-- ===== src/Tests/Daemon.antt =====
-- The theorems on src/events.rs and src/daemon.rs, at a phone and a short stream of events.
use mini_lmk.Base.{ℕ, ◌-◌, false, refl, List, [], ◌∷◌, inl, text_beq, text_eq, arith}
use mini_lmk.Base.Map.{contains, lookup}
use mini_lmk.Text.{codes}
use mini_lmk.State.{DaemonState}
use mini_lmk.Events.Clock.{clock_jump_ms, apply_clock_jump}
use mini_lmk.Events.Ages.{AllAnchored, SameAges, ages_survive_step}
use mini_lmk.Events.Resume.{on_resume_activity, ResumeActivityEvent}
use mini_lmk.Events.Recency.{Nodup, Fronted, on_resume_activity-Fronted}
use mini_lmk.Daemon.{resume_activity, proc_start, screen_toggled, Arrival, run_events}
use mini_lmk.Daemon.Fences.{Fenced}
use mini_lmk.Daemon.Bystanders.{StartNoApps, run_events-Fenced}
use mini_lmk.Tests.Fixtures.{phone, world, noon, app_one, system_app}

abbrev resumed : ResumeActivityEvent
resumed = record { pkg = app_one; component = codes "com.one/.Main" }

abbrev stream : List Arrival
stream =
    record { world = world; now = noon; event = resume_activity resumed }
    ∷ record {
      world = world;
      now = noon;
      event = proc_start (record {
        proc_name = system_app;
        pkg = system_app;
        spawn_type = codes "service";
        pid = 77;
        uid = 1000;
      });
    }
    ∷ record { world = world; now = noon; event = screen_toggled false }
    ∷ []

system-Fenced : Fenced system_app phone
unfolding lookup text_beq
system-Fenced = record { absent = refl; no_app_uid = refl; spared = tt }

stream-StartNoApps : StartNoApps system_app stream
unfolding StartNoApps text_beq
stream-StartNoApps = (tt, (refl, (tt, tt)))

run_events-Fenced_example : Fenced system_app (run_events stream phone)
run_events-Fenced_example =
    run_events-Fenced system_app stream phone stream-StartNoApps system-Fenced

phone-Nodup : Nodup phone.fg_lru
unfolding Nodup contains
phone-Nodup = (refl, tt)

on_resume_activity-Fronted_example :
    Fronted phone app_one (on_resume_activity world resumed noon phone)
on_resume_activity-Fronted_example =
    on_resume_activity-Fronted world resumed noon phone (omega arith) phone-Nodup

-- The clock was an hour ahead.
abbrev early : ℕ
early = noon - 3600000

abbrev one_app : DaemonState
one_app = record phone { alive_apps = [] }

one_app-AllAnchored : AllAnchored noon early one_app
unfolding lookup
one_app-AllAnchored = record {
  alive = λ pkg. tt;
  deaths = λ pkg. tt;
  screen_on = (omega arith, omega arith);
  screen_off = tt;
  game = tt;
  session = (omega arith, omega arith);
}

ages_survive_step_example :
    SameAges noon early one_app (apply_clock_jump (clock_jump_ms noon early) one_app)
ages_survive_step_example =
    ages_survive_step noon early (omega arith) (omega arith) (omega arith) (inl (omega arith))
      one_app one_app-AllAnchored
