-- ===== src/Tests/Reactor.antt =====
-- The theorems on the reactor of src/daemon.rs and on src/main.rs, at a small start.
use mini_lmk.Base.{
  ℕ, Bool, true, false, ◌≡◌, refl, text_beq, text_eq, number_eq, some, none, List, [], ◌∷◌, Text,
  pos, negsuc, any, arith,
}
use mini_lmk.Text.{codes}
use mini_lmk.Spawn.{child}
use mini_lmk.State.{World, Moment}
use mini_lmk.Kill.Idle.{launches}
use mini_lmk.Startup.Reload.{ConfigFiles}
use mini_lmk.Startup.Probe.{alive}
use mini_lmk.Reactor.{
  ReadReply, would_block, PollReply, Turn, Reactor, Progress, going, left, run_loop, turn,
  poll_timeout,
}
use mini_lmk.Reactor.Stops.{has_left, stop_ends}
use mini_lmk.Reactor.Waits.{turn_sleeps}
use mini_lmk.Boot.{Environment, main, with_stream, page_size_kb, Options, no_options, read_args}
use mini_lmk.Boot.Kept.{AtMain}
use mini_lmk.Procfs.{read_statm_rss_kb}
use mini_lmk.Tables.Sums.{Resident}
use mini_lmk.Tables.Kept.{Tabled}
use mini_lmk.Boot.Tables.{main-Tabled}
use mini_lmk.Boot.Observing.{Observing, Spared}
use mini_lmk.Boot.Whole.{WellRun, act_flag, main_observes, main-WellRun}
use mini_lmk.Boot.Settled.{baseline, Settled, Flushed}
use mini_lmk.Boot.Exit.{main-Flushed}
use mini_lmk.Tests.Fixtures.{phone, world, spawner}

abbrev files : ConfigFiles
files = record {
  config_file = some (codes "t_idle_sec = 60");
  exclude_file = none;
  games_file = none;
  now = 1700000000000;
}

abbrev env : Environment
env = record {
  page_size = pos 4096;
  now = 1700000000000;
  screen_state = some (codes "true");
  power_dump = none;
  meminfo = none;
  is_root = true;
  backend = none;
  devnull = child (pos 3);
  files = files;
  outputs = record {
    home_role = none;
    dialer_role = none;
    sms_role = none;
    resolve_home = none;
    input_method = none;
    wallpaper = none;
  };
  entries = [];
  logcat = record {
    spawned = some 50;
    status = alive;
    fd = pos 7;
    ready = pos 0;
    revents = 0;
    registered = true;
  };
}

abbrev reading : Turn
reading = record {
  stop = false;
  poll = PollReply.ready (
      record {
        token = 1;
        revents = 1;
        reads =
            record {
              stop = false;
              reply = ReadReply.bytes (codes "1695411709.231 1 1 I screen_toggled: 0\n");
            }
            ∷ [];
        read_end = would_block;
        files = files;
      }
      ∷ []);
  reaped = 60 ∷ [];
}

abbrev signalled : Turn
signalled = record { stop = true; poll = PollReply.interrupted; reaped = [] }

abbrev no_letters : ℕ → Bool
no_letters = λ c. false

abbrev worlds : ℕ → World
worlds = λ n. world

abbrev observe_args : List Text
observe_args = codes "--observe" ∷ codes "--json" ∷ []

no_act : any (λ arg. text_beq arg act_flag) observe_args ≡ false
unfolding text_beq
no_act = refl

main_observes_example :
    AtMain Observing
      (Spared env.logcat.spawned)
      (main no_letters worlds observe_args env (reading ∷ signalled ∷ []))
main_observes_example =
    main_observes no_letters worlds observe_args env (reading ∷ signalled ∷ []) no_act

main-WellRun_example :
    AtMain WellRun WellRun
      (main no_letters worlds (codes "--act" ∷ []) env (reading ∷ signalled ∷ []))
main-WellRun_example =
    main-WellRun no_letters worlds (codes "--act" ∷ []) env (reading ∷ signalled ∷ [])

small : (n : ℕ) (m : Moment) → Resident ((worlds n).proc m) (page_size_kb env.page_size)
unfolding read_statm_rss_kb
small n m pid = omega arith

main-Tabled_example :
    AtMain
      (Tabled (page_size_kb env.page_size))
      (Tabled (page_size_kb env.page_size))
      (main no_letters worlds (codes "--act" ∷ []) env (reading ∷ signalled ∷ []))
main-Tabled_example =
    main-Tabled no_letters worlds (codes "--act" ∷ []) env (reading ∷ signalled ∷ []) small

abbrev to_act : Options
to_act = record no_options { mode = some true }

act_read : read_args (codes "--act" ∷ []) no_options ≡ some to_act
unfolding read_args text_beq
act_read = refl

main-Flushed_example :
    AtMain
      (Settled (baseline to_act env))
      (Flushed (baseline to_act env))
      (main no_letters worlds (codes "--act" ∷ []) env (reading ∷ signalled ∷ []))
main-Flushed_example =
    main-Flushed no_letters worlds (codes "--act" ∷ []) env (reading ∷ signalled ∷ []) to_act
      act_read

abbrev reactor : Reactor
reactor = with_stream (some 50) phone

stop_ends_example :
    (has_left (run_loop no_letters worlds (signalled ∷ reading ∷ []) reactor) ≡ true)
    × (run_loop no_letters worlds (signalled ∷ reading ∷ []) reactor
        ≡ run_loop no_letters worlds (signalled ∷ []) reactor)
stop_ends_example = stop_ends no_letters worlds signalled (reading ∷ []) reactor refl

-- A child is left from before the round, and the round reads a line and asks for none.
abbrev busy : Reactor
busy = with_stream (some 50) (record phone { spawner = record spawner { reaps_pending = pos 1 } })

abbrev behind : Progress → Reactor
behind (going r) = r
behind (left e r) = r

abbrev rested : Reactor
rested = behind (turn no_letters worlds reading busy)

reading_goes : turn no_letters worlds reading busy ≡ going rested
unfolding turn text_beq
reading_goes = refl

reading_asks_nothing : launches rested.reader.daemon.trace ≡ launches busy.reader.daemon.trace
unfolding turn text_beq
reading_asks_nothing = refl

busy_waits : poll_timeout busy ≡ pos 60000
unfolding poll_timeout
busy_waits = refl

-- The line was read as an event: the screen is off.
reading_is_handled : rested.reader.daemon.screen_on ≡ false
unfolding turn text_beq
reading_is_handled = refl

turn_sleeps_example : poll_timeout rested ≡ negsuc 0
turn_sleeps_example =
    turn_sleeps no_letters worlds reading busy rested reading_goes reading_asks_nothing
