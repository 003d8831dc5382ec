-- ===== src/Kill/Dispatch.antt =====
-- src/kill.rs, `dispatch_candidate` and what it calls: the choice of the method, the signals, the
-- fallback to the activity manager, and the record of the decision.
use mini_lmk.Base.{
  ℕ, Bool, true, false, not, ◌&&◌, Option, none, some, List, [], ◌∷◌, if◌then◌else◌, Text, ℤ, pos,
  leb_ℤ, all, is_some_and, map_or, eqb_ℤ, text_eq,
}
use mini_lmk.Base.Map.{modify, remove}
use mini_lmk.Procfs.{read_oom_score_adj, proc_is_app_uid}
use mini_lmk.Spawn.{Launch, Launched, spawn_kill, not_dispatched}
use mini_lmk.State.{
  DaemonState, Candidate, Method, sigkill, ams, Reason, game_mode_escalation, low_memory_escalation,
  idle_expired, KillEvent, kill, kill_skipped, simulated_kill, KillRecord, kill_decision, KillReply,
  done, esrch, denied, emit, flush, signal, launch, perform, World, ProcFs, at_signal,
  sigkill_min_adj,
}

-- `KillRecord::spawn_skipped`
unfoldable pub spawn_skipped : KillRecord → Bool
spawn_skipped r = map_or r.spawn_errno true (λ n. eqb_ℤ n not_dispatched)

-- The event of `kill_telemetry_parts`.
unfoldable pub kill_event : Bool → Bool → KillEvent
kill_event true false = kill
kill_event true true = kill_skipped
kill_event false ams_protected = simulated_kill

unfoldable pub kill_method : Bool → Bool → ℤ → Method
kill_method is_root ams_protected oom_adj =
    if is_root && not ams_protected && leb_ℤ sigkill_min_adj oom_adj then sigkill else ams

unfoldable pub reason_of : Bool → Bool → Reason
reason_of is_game is_low_mem =
    if is_game
    then game_mode_escalation
    else if is_low_mem
    then low_memory_escalation
    else idle_expired

-- The check of one process, right before the signals.
unfoldable pub confirmed_pid : ProcFs → ℕ → Bool
unfolding read_oom_score_adj proc_is_app_uid
confirmed_pid proc pid =
    proc_is_app_uid (proc.uid pid)
    && is_some_and (read_oom_score_adj (proc.oom_score_adj pid)) (λ adj. leb_ℤ sigkill_min_adj adj)

abbrev pub accepted : KillReply → Bool
accepted done = true
accepted esrch = true
accepted denied = false

-- `all` stops at the first signal that is refused.
unfoldable pub signal_all : (ℕ → KillReply) → List ℕ → DaemonState → Bool × DaemonState
signal_all reply [] d = (true, d)
signal_all reply (pid ∷ pids) d =
    let d' = perform (signal pid (reply pid)) d in
    let rest = signal_all reply pids d' in if accepted (reply pid) then rest else (false, d')

abbrev pub log_request : Option Launched → DaemonState → DaemonState
log_request none d = d
log_request (some l) d = perform (launch l) d

-- The state after a dispatch, `spawn_errno`, and the method that the record names.
abbrev pub Outcome : Type 0
Outcome = DaemonState × Option ℤ × Method

-- `self.spawner.spawn_kill(&cand.pkg)`
unfoldable pub kill_by_ams : Launch → Text → DaemonState → Outcome
unfolding spawn_kill
kill_by_ams reply pkg d =
    let (s, n, request) = spawn_kill d.spawner pkg reply in
    (log_request request (record d { spawner = s }), some n, ams)

unfoldable pub kill_by_signal : World → ℕ → Candidate → DaemonState → Outcome
unfolding confirmed_pid signal_all kill_by_ams
kill_by_signal w k cand d =
    let confirmed = all (confirmed_pid (w.proc (at_signal k))) cand.live_pids in
    let attempt = signal_all (w.kill_reply k) cand.live_pids d in
    let (signalled, d') = if confirmed then attempt else (false, d) in
    if signalled then (d', some (pos 0), sigkill) else kill_by_ams (w.launch_reply k) cand.pkg d'

unfoldable pub dispatch_by : Method → World → ℕ → Candidate → DaemonState → Outcome
unfolding kill_by_signal kill_by_ams
dispatch_by sigkill w k cand d = kill_by_signal w k cand d
dispatch_by ams w k cand d = kill_by_ams (w.launch_reply k) cand.pkg d

unfoldable pub attempt_kill : World → ℕ → Candidate → ℤ → Bool → DaemonState → Outcome
unfolding kill_method dispatch_by
attempt_kill w k cand oom_adj ams_protected d =
    let method = kill_method d.is_root ams_protected oom_adj in
    if not d.act_mode
    then (d, none, method)
    else if ams_protected
    then (d, some not_dispatched, method)
    else dispatch_by method w k cand d

-- A protected package is touched, so that it gives way in the next pass; any other is forgotten.
unfoldable pub settle : Bool → Text → ℕ → DaemonState → DaemonState
settle true pkg now d = record d { alive_apps = modify pkg (λ _. now) d.alive_apps }
settle false pkg now d = record d { alive_apps = remove pkg d.alive_apps }

unfoldable pub kill_record :
    Candidate → ℕ → ℤ → Bool → Bool → Reason → Option ℤ → Method → KillRecord
unfolding kill_event
kill_record cand now oom_adj act_mode ams_protected reason errno method = record {
  ts = now;
  event = kill_event act_mode ams_protected;
  pkg = cand.pkg;
  pids = cand.live_pids;
  rss_freed_est_kb = cand.total_rss_kb;
  reason = reason;
  idle_sec = cand.idle_sec;
  lru_pos = cand.lru_pos;
  spawn_errno = errno;
  oom_score_adj = oom_adj;
  ams_protected = ams_protected;
  method = method;
}

unfoldable pub dispatch_candidate :
    World → ℕ → Candidate → ℕ → ℤ → Bool → Bool → Bool → DaemonState → DaemonState
unfolding attempt_kill kill_record reason_of settle
dispatch_candidate w k cand now oom_adj ams_protected is_game is_low_mem d =
    let (d', errno, method) = attempt_kill w k cand oom_adj ams_protected d in
    let reason = reason_of is_game is_low_mem in
    let r = kill_record cand now oom_adj d.act_mode ams_protected reason errno method in
    settle ams_protected cand.pkg now (perform flush (perform (emit (kill_decision r)) d'))
