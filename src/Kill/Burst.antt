-- ===== src/Kill/Burst.antt =====
-- src/kill.rs, `evaluate_reaping_pipeline`: how many decisions a pass makes.
use mini_lmk.Base.{
  ℕ, suc, ◌+◌, Bool, true, false, ◌≡◌, refl, ◌∙◌, ap, Option, none, some, List, [], ◌∷◌, ℤ, Text,
  length, length-take, min, arith, Bool-cases, inl, inr,
}
use mini_lmk.Spawn.{Launched, Launch, spawn_kill}
use mini_lmk.State.{
  DaemonState, Candidate, World, Action, KillReply, emit, signal, perform, kill_decision, Method,
  sigkill, ams,
}
use mini_lmk.Kill.Scan.{scan_candidates, reconcile}
use mini_lmk.Kill.Dispatch.{
  accepted, signal_all, log_request, kill_by_ams, kill_by_signal, dispatch_by, attempt_kill, settle,
  dispatch_candidate, kill_method,
}
use mini_lmk.Kill.Pass.{handle_candidate, dispatch_all, evaluate_reaping_pipeline}
use mini_lmk.Kill.Effects.{pass_candidates}

abbrev pub decision_weight : Action → ℕ
decision_weight (emit (kill_decision r)) = 1
decision_weight _ = 0

-- The decisions that a trace records.
abbrev pub decisions : List Action → ℕ
decisions [] = 0
decisions (a ∷ t) = decision_weight a + decisions t

signal_all-decisions :
    (reply : ℕ → KillReply) (pids : List ℕ) (d : DaemonState)
    → decisions (signal_all reply pids d).1.trace ≡ decisions d.trace
unfolding signal_all
signal_all-decisions reply [] d = refl
signal_all-decisions reply (pid ∷ pids) d = elim (Bool-cases (accepted (reply pid))) [
  | inl e ↦
      rw e (omega (arith, signal_all-decisions reply pids (perform (signal pid (reply pid)) d)))
  | inr e ↦ rw e (omega arith)
]

log_request-decisions :
    (request : Option Launched) (d : DaemonState)
    → decisions (log_request request d).trace ≡ decisions d.trace
log_request-decisions none d = refl
log_request-decisions (some l) d = omega arith

kill_by_ams-decisions :
    (reply : Launch) (pkg : Text) (d : DaemonState)
    → decisions (kill_by_ams reply pkg d).0.trace ≡ decisions d.trace
unfolding kill_by_ams
kill_by_ams-decisions reply pkg d = log_request-decisions (spawn_kill d.spawner pkg reply).2 _

kill_by_signal-decisions :
    (w : World) (k : ℕ) (c : Candidate) (d : DaemonState)
    → decisions (kill_by_signal w k c d).0.trace ≡ decisions d.trace
unfolding kill_by_signal
kill_by_signal-decisions w k c d = ground (
  arith,
  signal_all-decisions (w.kill_reply k) c.live_pids d,
  kill_by_ams-decisions (w.launch_reply k) c.pkg d,
  kill_by_ams-decisions (w.launch_reply k) c.pkg (signal_all (w.kill_reply k) c.live_pids d).1,
)

dispatch_by-decisions :
    (m : Method) (w : World) (k : ℕ) (c : Candidate) (d : DaemonState)
    → decisions (dispatch_by m w k c d).0.trace ≡ decisions d.trace
unfolding dispatch_by
dispatch_by-decisions sigkill w k c d = kill_by_signal-decisions w k c d
dispatch_by-decisions ams w k c d = kill_by_ams-decisions (w.launch_reply k) c.pkg d

attempt_kill-decisions :
    (w : World) (k : ℕ) (c : Candidate) (adj : ℤ) (protected : Bool) (d : DaemonState)
    → decisions (attempt_kill w k c adj protected d).0.trace ≡ decisions d.trace
unfolding attempt_kill
attempt_kill-decisions w k c adj protected d =
    ground (arith, dispatch_by-decisions (kill_method d.is_root protected adj) w k c d)

settle-trace :
    (protected : Bool) (pkg : Text) (now : ℕ) (d : DaemonState)
    → (settle protected pkg now d).trace ≡ d.trace
unfolding settle
settle-trace true pkg now d = refl
settle-trace false pkg now d = refl

handle_candidate-decisions :
    (w : World) (now k : ℕ) (is_game is_low_mem : Bool) (c : Candidate) (d : DaemonState)
    → decisions (handle_candidate w now k is_game is_low_mem c d).trace ≡ suc (decisions d.trace)
unfolding handle_candidate dispatch_candidate
handle_candidate-decisions w now k is_game is_low_mem c d =
    rw settle-trace (omega (arith, attempt_kill-decisions w k c _ _ d))

dispatch_all-decisions :
    (w : World) (now k : ℕ) (is_game is_low_mem : Bool) (cs : List Candidate) (d : DaemonState)
    → decisions (dispatch_all w now k is_game is_low_mem cs d).trace ≡ length cs + decisions d.trace
unfolding dispatch_all
dispatch_all-decisions w now k is_game is_low_mem [] d = omega arith
dispatch_all-decisions w now k is_game is_low_mem (c ∷ cs) d = omega (
  arith,
  dispatch_all-decisions w now (suc k) is_game is_low_mem cs
      (handle_candidate w now k is_game is_low_mem c d),
  handle_candidate-decisions w now k is_game is_low_mem c d,
)

-- A pass records as many decisions as its scan has candidates, but no more than the configured
-- burst.
pub evaluate-decisions :
    (w : World) (now : ℕ) (d : DaemonState)
    → decisions (evaluate_reaping_pipeline w now d).trace
      ≡ min d.config.max_kills_per_pass (length (pass_candidates w now d)) + decisions d.trace
unfolding evaluate_reaping_pipeline scan_candidates reconcile
evaluate-decisions w now d =
    dispatch_all-decisions w now 0 _ _ _ _
    ∙ ap (λ n. n + decisions d.trace) (length-take d.config.max_kills_per_pass _)
