-- ===== src/Lib.antt =====
-- mini-lmk: a model of the userspace low-memory killer, and what makes it correct.
--
-- The daemon reads the lines of `logcat`. A line is parsed (src/parser.rs) into an event; the event
-- goes to its handler (src/daemon.rs, src/events.rs), which keeps the tables of processes and
-- packages, the LRU of the foreground and the anchors of the sessions, and may run a pass of the
-- eviction pipeline (src/kill.rs). A pass scans the live packages, reads `/proc` (src/procfs.rs),
-- takes the heaviest candidates, and signals their processes or asks the activity manager to kill
-- them (src/spawn.rs). The thresholds come from a file (src/config.rs). `main` (src/main.rs) puts the
-- daemon together, and `run` (src/daemon.rs) is its reactor: it sleeps in `epoll_wait`, reaps the
-- children, reads the pipe and loads the files again when they change. What happens goes to the log
-- (src/telemetry.rs), as lines of JSON or as columns.
--
-- Files:
--   Base, Base/*         tests, lists, integers and machine words, equality, maps
--   Text, Text/Number, Text/Utf8
--                        the operations of `str`, `str::parse` at the integer types, `from_utf8`
--   State                `DaemonState`, `Candidate`, `KillRecord`, the records of the telemetry, and
--                        what the daemon sees of the system (src/daemon.rs, src/kill.rs, src/main.rs)
--   Config, Config/Files `RuntimeConfig`, `parse_str`, `load_from_file`, and the files that are made at
--                        the start (src/config.rs); Config/Sane and Config/Template hold proofs
--   Procfs               `read_statm_rss_kb`, `read_oom_score_adj`, `check_mem_critical` and the other
--                        readers (src/procfs.rs)
--   Spawn, Spawn/Child   `Spawner`, `spawn_kill`, `spawn_path`, `stage`, and the child's side of
--                        `spawn_fork` and `close_inherited` (src/spawn.rs); Spawn/Argv holds proofs
--   Kill/Window, Kill/Scan, Kill/Dispatch, Kill/Pass
--                        `scan_candidates`, `dispatch_candidate`, `evaluate_reaping_pipeline`
--                        (src/kill.rs); the other files under Kill hold proofs
--   Events/Clock, Events/Summary, Events/Resume, Events/Process, Events/Screen
--                        `clock_jump_ms`, `apply_clock_jump`, `emit_bg_summary` and the handlers
--                        (src/events.rs); Events/Ages and Events/Recency hold proofs
--   Daemon               `dispatch_logcat_line` behind the parser (src/daemon.rs), and streams of
--                        events; the files under Daemon hold proofs over such streams, and what
--                        every operation keeps (Daemon/Frame)
--   Parser/*             `tokenize`, the parsers of the payloads, `parse_logcat_line` (src/parser.rs);
--                        Parser/Valid, Parser/Sound, Parser/Printed, Parser/Payload and
--                        Parser/Roundtrip hold proofs, Parser/Roundtrip/Deaths too
--   Stream               `drain_logcat_lines`, `dispatch_logcat_line` and a read of the pipe
--                        (src/daemon.rs); Stream/Chunks holds proofs
--   Telemetry            `TelemetrySink` and its rotation (src/telemetry.rs); Telemetry/Escape
--                        `escape_json`; Telemetry/History and Telemetry/Cap hold proofs
--   Startup/Probe, Startup/Reload, Startup/Seed
--                        the readers of command outputs and `probe_logcat_stream` (src/probe.rs),
--                        `reload_configs_from`,
--                        `emit_startup_record`, `seed_initial_state`, `detect_system_components`
--                        (src/daemon.rs); Startup/Equal, Startup/Announce and Startup/Exclusions hold
--                        proofs
--   Render, Render/Json  `KillRecord::to_json`, `config_reload_json` and the JSON closures of `emit_with`
--                        (src/kill.rs, src/daemon.rs, src/events.rs); the other files under Render hold
--                        proofs against a reader of JSON objects
--   Reactor              `run`, `fatal`, `reap_terminated_children` (src/daemon.rs, src/kill.rs);
--                        Reactor/Loop and Reactor/Stable say how a property of the daemon holds over a
--                        run, Reactor/Stops and Reactor/Waits hold proofs
--   Boot                 `main`, `DaemonState::new`, `spawn_logcat_stream` (src/main.rs, src/daemon.rs);
--                        the files under Boot hold proofs from the start to the exit
--   Render/Columns       `tabular_row`, `format_time_hms_ms` and the rows of the records
--                        (src/telemetry.rs, src/events.rs, src/kill.rs, src/daemon.rs)
--   Log                  the sink behind the actions of the daemon; the files under Log hold proofs on
--                        the lines of the log
--   Tables, Tables/*     proofs on the process tables (src/events.rs, src/kill.rs, src/daemon.rs)
--   Tests/*              runs at inputs of the program's tests, and the instances of the theorems
--
-- How the code is modelled:
--   * The state is passed explicitly: a handler is a function from a `DaemonState` to the next one. A
--     function of the source that is long is composed of one function for each of its parts.
--   * The effects are in the field `trace`, the latest first: a record handed to the telemetry sink
--     (as the data that both of its renderings are made of), a flush, the log switched on or off, a
--     signal with the reply of the kernel, a child asked for, and the kill of the logcat child with
--     which a shutdown ends it. The sink itself is a model of its own, over the two files of the log.
--   * What the system answers while one event is handled is the argument `World`: the files of
--     `/proc` at each moment at which they are read, the memory files, and the replies to `kill` and
--     to the launch of a child. Nothing is assumed of it, unless a theorem says so.
--   * Hash maps and sets are association lists and lists, whose order stands for the order of the
--     iteration. Strings are lists of code points, and what is read from
--     the pipe or written to the log is a list of bytes.
--   * `u32`, `u64`, `i32` and `i64` wrap around where the source adds or multiplies without a check,
--     as the release profile has it; `usize` has 64 bits. Saturating and checked operations are
--     written out.
--   * `f32` (`f32_at_least`: whether a text is a number that is at least a percentage) and the Unicode
--     property Alphabetic are arguments, and so are `localtime_r` and the printing of `f64` with one
--     decimal, where rows are made.
--   * What the kernel answers to one round of the reactor is one `Turn`: the entries of `epoll_wait`, the
--     reads of the pipe, the reaped children, and whether a stop signal came in. A run is over a list of
--     rounds, and `main` is over such a list and an `Environment`, what the start finds.
--   * Every loop of the program is structural recursion, and needs no fuel. The decimal digits of a
--     number, and the readers that the JSON is checked against, have fuel: a number has fewer digits
--     than its successor counts, and a text is as long as it is.
--   * The Rust runtime opens descriptors 0 to 2 before `main`, so that `/dev/null` gets one from 3 on
--     (a hypothesis of the theorem on the child's files).
--
-- Not modelled: the creation of the epoll and inotify instances, the usage text, the banner and the
-- notices on the standard error; the opening and reading of files and the running of commands, whose
-- outcomes are arguments; the buffer of the log's writer, whose content counts as written; the copy of
-- the environment for the child and the creation of directories; the hash function; the programs under
-- tools and benches, which measure and are not part of the daemon. They are system calls and
-- presentation, or do not bear on the decisions that the theorems are about.
pub mod Base
pub mod Text
pub mod Spawn
pub mod Procfs
pub mod Config
pub mod State
pub mod Kill
pub mod Events
pub mod Daemon
pub mod Parser
pub mod Telemetry
pub mod Render
pub mod Log
pub mod Stream
pub mod Reactor
pub mod Boot
pub mod Startup
pub mod Tables
mod Tests
