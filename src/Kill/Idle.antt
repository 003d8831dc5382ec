-- ===== src/Kill/Idle.antt =====
-- src/kill.rs and src/spawn.rs: the spawner changes only with a child that was asked for.
use mini_lmk.Base.{
  ℕ, suc, ◌≤◌, Bool, true, false, not, ◌≡◌, refl, ◌∙◌, Option, none, some, List, [], ◌∷◌, ℤ, Text,
  arith, Bool-cases, inl, inr, all, if_keeps, take,
}
use mini_lmk.Spawn.{
  Backend, std, fork, Spawner, Launch, Launched, cmd_path, kill_args, not_dispatched, count_reap,
  spawn_kill, spawn_path, spawn_with, spawn_std, spawn_fork,
}
use mini_lmk.State.{
  DaemonState, Candidate, World, Action, KillReply, emit, flush, signal, launch, perform,
  kill_decision, Method, sigkill, ams, at_signal,
}
use mini_lmk.Kill.Scan.{reconcile, scan_loop, scan_candidates}
use mini_lmk.Kill.Dispatch.{
  confirmed_pid, accepted, signal_all, log_request, kill_by_ams, kill_by_signal, dispatch_by,
  attempt_kill, settle, dispatch_candidate, kill_method, kill_record, reason_of, Outcome,
}
use mini_lmk.Kill.Pass.{
  handle_candidate, dispatch_all, evaluate_reaping_pipeline, fg_is_game, low_mem,
}

-- How many children were asked for.
abbrev pub launches : List Action → ℕ
launches [] = 0
launches (launch l ∷ t) = suc (launches t)
launches (a ∷ t) = launches t

-- The children asked for are at least as many, and if they are as many, the spawner is the same.
pub record Idle (d e : DaemonState) : Type 0 where
  pub more : launches d.trace ≤ launches e.trace
  pub idle : launches e.trace ≡ launches d.trace → e.spawner ≡ d.spawner

pub Idle-same :
    (d e : DaemonState) → e.spawner ≡ d.spawner → launches e.trace ≡ launches d.trace → Idle d e
Idle-same d e s l = record { more = omega arith; idle = λ h. s }

pub Idle-trans : (d e f : DaemonState) → Idle d e → Idle e f → Idle d f
Idle-trans d e f h k =
    let a = h.more in
    let b = k.more in
    record { more = omega arith; idle = λ x. k.idle (omega arith) ∙ h.idle (omega arith) }

unasked_with :
    (b : Backend) (s : Spawner) (pkg : Text) (reply : Launch)
    → (spawn_with b s cmd_path kill_args (some pkg) reply).request ≡ none
    → (let o = spawn_with b s cmd_path kill_args (some pkg) reply in
        count_reap o.result o.spawner ≡ s)
unfolding spawn_with spawn_std spawn_fork
unasked_with std s pkg reply h = ground arith
unasked_with fork s pkg reply h = ground arith

-- A kill that asks for no child leaves the spawner as it was.
unasked :
    (s : Spawner) (pkg : Text) (reply : Launch)
    → (spawn_kill s pkg reply).2 ≡ none
    → (spawn_kill s pkg reply).0 ≡ s
unfolding spawn_kill spawn_path
unasked s pkg reply h = ground (arith, unasked_with s.backend s pkg reply)

signal_all-Idle :
    (reply : ℕ → KillReply) (pids : List ℕ) (d : DaemonState) → Idle d (signal_all reply pids d).1
unfolding signal_all
signal_all-Idle reply [] d = Idle-same d d refl refl
signal_all-Idle reply (pid ∷ pids) d =
    let d' = perform (signal pid (reply pid)) d in
    let one = Idle-same d d' refl refl in
    elim (Bool-cases (accepted (reply pid))) [
      | inl e ↦
          rw e (Idle-trans d d' (signal_all reply pids d').1 one (signal_all-Idle reply pids d'))
      | inr e ↦ rw e one
    ]

log_request-Idle :
    (request : Option Launched) (s : Spawner) (d : DaemonState)
    → (request ≡ none → s ≡ d.spawner)
    → Idle d (log_request request (record d { spawner = s }))
log_request-Idle none s d h = Idle-same d _ (h refl) refl
log_request-Idle (some l) s d h = record { more = omega arith; idle = λ e. absurd (omega arith) }

kill_by_ams-Idle :
    (reply : Launch) (pkg : Text) (d : DaemonState) → Idle d (kill_by_ams reply pkg d).0
unfolding kill_by_ams
kill_by_ams-Idle reply pkg d =
    log_request-Idle (spawn_kill d.spawner pkg reply).2 (spawn_kill d.spawner pkg reply).0 d
      (unasked d.spawner pkg reply)

kill_by_signal-Idle :
    (w : World) (k : ℕ) (c : Candidate) (d : DaemonState) → Idle d (kill_by_signal w k c d).0
unfolding kill_by_signal
kill_by_signal-Idle w k c d =
    elim (Bool-cases (all (confirmed_pid (w.proc (at_signal k))) c.live_pids)) [
      | inr no_conf ↦ rw no_conf (kill_by_ams-Idle (w.launch_reply k) c.pkg d)
      | inl conf ↦
          let sent = signal_all-Idle (w.kill_reply k) c.live_pids d in
          let d' = (signal_all (w.kill_reply k) c.live_pids d).1 in
          elim (Bool-cases (signal_all (w.kill_reply k) c.live_pids d).0) [
            | inl s ↦ rw (conf, s) sent
            | inr s ↦
                rw (conf, s) (Idle-trans d d' _ sent (kill_by_ams-Idle (w.launch_reply k) c.pkg d'))
          ]
    ]

dispatch_by-Idle :
    (m : Method) (w : World) (k : ℕ) (c : Candidate) (d : DaemonState)
    → Idle d (dispatch_by m w k c d).0
unfolding dispatch_by
dispatch_by-Idle sigkill w k c d = kill_by_signal-Idle w k c d
dispatch_by-Idle ams w k c d = kill_by_ams-Idle (w.launch_reply k) c.pkg d

attempt_kill-Idle :
    (w : World) (k : ℕ) (c : Candidate) (adj : ℤ) (protected : Bool) (d : DaemonState)
    → Idle d (attempt_kill w k c adj protected d).0
unfolding attempt_kill
attempt_kill-Idle w k c adj protected d =
    let P = λ (o : Outcome). Idle d o.0 in
    let still = Idle-same d d refl refl in
    let m = kill_method d.is_root protected adj in
    if_keeps P (not d.act_mode) (d, none, m) _ still
      (if_keeps P protected (d, some not_dispatched, m) (dispatch_by m w k c d) still
        (dispatch_by-Idle m w k c d))

settle-Idle :
    (protected : Bool) (pkg : Text) (now : ℕ) (d : DaemonState)
    → Idle d (settle protected pkg now d)
unfolding settle
settle-Idle true pkg now d = Idle-same d _ refl refl
settle-Idle false pkg now d = Idle-same d _ refl refl

dispatch_candidate-Idle :
    (w : World) (k : ℕ) (c : Candidate) (now : ℕ) (adj : ℤ) (protected is_game is_low_mem : Bool)
    (d : DaemonState)
    → Idle d (dispatch_candidate w k c now adj protected is_game is_low_mem d)
unfolding dispatch_candidate
dispatch_candidate-Idle w k c now adj protected is_game is_low_mem d =
    let o = attempt_kill w k c adj protected d in
    let r = kill_record c now adj d.act_mode protected (reason_of is_game is_low_mem) o.1 o.2 in
    let e = perform flush (perform (emit (kill_decision r)) o.0) in
    Idle-trans d o.0 _ (attempt_kill-Idle w k c adj protected d)
      (Idle-trans o.0 e _ (Idle-same o.0 e refl refl) (settle-Idle protected c.pkg now e))

dispatch_all-Idle :
    (w : World) (now k : ℕ) (is_game is_low_mem : Bool) (cs : List Candidate) (d : DaemonState)
    → Idle d (dispatch_all w now k is_game is_low_mem cs d)
unfolding dispatch_all handle_candidate
dispatch_all-Idle w now k is_game is_low_mem [] d = Idle-same d d refl refl
dispatch_all-Idle w now k is_game is_low_mem (c ∷ cs) d =
    let d' = handle_candidate w now k is_game is_low_mem c d in
    Idle-trans d d' _ (dispatch_candidate-Idle w k c now _ _ is_game is_low_mem d)
      (dispatch_all-Idle w now (suc k) is_game is_low_mem cs d')

pub evaluate-Idle :
    (w : World) (now : ℕ) (d : DaemonState) → Idle d (evaluate_reaping_pipeline w now d)
unfolding evaluate_reaping_pipeline scan_candidates reconcile
evaluate-Idle w now d =
    let s = scan_loop w d now (fg_is_game d) (low_mem w d) in
    let d' = reconcile s d in
    Idle-trans d d' _ (Idle-same d d' refl refl) (
      dispatch_all-Idle w now 0 (fg_is_game d) (low_mem w d)
        (take d.config.max_kills_per_pass (scan_candidates w d now (fg_is_game d) (low_mem w d)).0)
        d')
