-- ===== src/Kill/Rehearsal.antt =====
-- src/kill.rs, `evaluate_reaping_pipeline`, in observe mode and in act mode.
use mini_lmk.Base.{
  ℕ, suc, Bool, true, false, ◌≡◌, refl, ◌∙◌, ap, sym, List, [], ◌∷◌, ℤ, pos, Text, all, take, ltb_ℤ,
  Option, none, some, Bool-cases, inl, inr,
}
use mini_lmk.Spawn.{Launch, Launched, Spawner, fork, spawn_kill}
use mini_lmk.State.{
  DaemonState, is_excluded, Candidate, World, Method, sigkill, ams, KillReply, signal, perform,
  at_gate, at_signal,
}
use mini_lmk.Kill.Scan.{
  Scan, note, examine, scan_apps, measure, sort_by_rss, empty_scan, scan_candidates, reconcile,
  scan_loop,
}
use mini_lmk.Base.Map.{Map}
use mini_lmk.Kill.Dispatch.{
  accepted, signal_all, log_request, kill_by_ams, kill_by_signal, dispatch_by, attempt_kill, settle,
  dispatch_candidate, kill_method, confirmed_pid,
}
use mini_lmk.Kill.Pass.{
  gate_adj, handle_candidate, dispatch_all, evaluate_reaping_pipeline, fg_is_game, low_mem,
}

-- The state without the mode, the spawner and the trace.
unfoldable pub books : DaemonState → DaemonState
books d = record d {
  act_mode = false;
  trace = [];
  spawner = record {
    backend = fork;
    note = false;
    devnull = pos 0;
    devnull_errno = pos 0;
    name_buf = [];
    reaps_pending = pos 0;
  };
}

signal_all-books :
    (reply : ℕ → KillReply) (pids : List ℕ) (d : DaemonState)
    → books (signal_all reply pids d).1 ≡ books d
unfolding books signal_all
signal_all-books reply [] d = refl
signal_all-books reply (pid ∷ pids) d = elim (Bool-cases (accepted (reply pid))) [
  | inl e ↦ rw e (signal_all-books reply pids (perform (signal pid (reply pid)) d))
  | inr e ↦ rw e refl
]

log_request-books :
    (request : Option Launched) (s : Spawner) (d : DaemonState)
    → books (log_request request (record d { spawner = s })) ≡ books d
unfolding books
log_request-books none s d = refl
log_request-books (some l) s d = refl

kill_by_ams-books :
    (reply : Launch) (pkg : Text) (d : DaemonState) → books (kill_by_ams reply pkg d).0 ≡ books d
unfolding kill_by_ams
kill_by_ams-books reply pkg d =
    log_request-books (spawn_kill d.spawner pkg reply).2 (spawn_kill d.spawner pkg reply).0 d

-- The signals, or their fallback behind whatever state they left.
kill_by_signal-books :
    (w : World) (k : ℕ) (c : Candidate) (d : DaemonState)
    → books (kill_by_signal w k c d).0 ≡ books d
unfolding kill_by_signal
kill_by_signal-books w k c d =
    let sent = signal_all-books (w.kill_reply k) c.live_pids d in
    let d' = (signal_all (w.kill_reply k) c.live_pids d).1 in
    let back = kill_by_ams-books (w.launch_reply k) c.pkg in
    elim (Bool-cases (all (confirmed_pid (w.proc (at_signal k))) c.live_pids)) [
      | inr e ↦ rw e (back d)
      | inl e ↦ elim (Bool-cases (signal_all (w.kill_reply k) c.live_pids d).0) [
        | inl s ↦ rw (e, s) sent
        | inr s ↦ rw (e, s) (back d' ∙ sent)
      ]
    ]

dispatch_by-books :
    (m : Method) (w : World) (k : ℕ) (c : Candidate) (d : DaemonState)
    → books (dispatch_by m w k c d).0 ≡ books d
unfolding dispatch_by
dispatch_by-books sigkill w k c d = kill_by_signal-books w k c d
dispatch_by-books ams w k c d = kill_by_ams-books (w.launch_reply k) c.pkg d

pub attempt_kill-books :
    (w : World) (k : ℕ) (c : Candidate) (adj : ℤ) (protected : Bool) (d : DaemonState)
    → books (attempt_kill w k c adj protected d).0 ≡ books d
unfolding attempt_kill
attempt_kill-books w k c adj protected d = elim (Bool-cases d.act_mode) [
  | inr e ↦ simp e refl
  | inl e ↦ elim (Bool-cases protected) [
    | inl p ↦ simp (e, p) refl
    | inr p ↦ simp (e, p) (dispatch_by-books (kill_method d.is_root false adj) w k c d)
  ]
]

-- A dispatch leaves the table of the live packages alone.
pub attempt_kill-alive_apps :
    (w : World) (k : ℕ) (c : Candidate) (adj : ℤ) (protected : Bool) (d : DaemonState)
    → (attempt_kill w k c adj protected d).0.alive_apps ≡ d.alive_apps
unfolding books
attempt_kill-alive_apps w k c adj protected d =
    ap (λ x. x.alive_apps) (attempt_kill-books w k c adj protected d)

settle-books :
    (protected : Bool) (pkg : Text) (now : ℕ) (d : DaemonState)
    → books (settle protected pkg now d) ≡ settle protected pkg now (books d)
unfolding books settle
settle-books true pkg now d = refl
settle-books false pkg now d = refl

-- What a candidate does to the books, by the books alone.
abbrev rehearse : World → ℕ → ℕ → Candidate → DaemonState → DaemonState
rehearse w now k c d =
    settle (ltb_ℤ (gate_adj (w.proc (at_gate k)) c.live_pids) d.config.min_oom_score_adj) c.pkg now
      d

handle_candidate-books :
    (w : World) (now k : ℕ) (is_game is_low_mem : Bool) (c : Candidate) (d : DaemonState)
    → books (handle_candidate w now k is_game is_low_mem c d) ≡ rehearse w now k c (books d)
unfolding handle_candidate dispatch_candidate books
handle_candidate-books w now k is_game is_low_mem c d =
    settle-books _ c.pkg now _ ∙ ap (settle _ c.pkg now) (attempt_kill-books w k c _ _ d)

rehearse_all : World → ℕ → ℕ → List Candidate → DaemonState → DaemonState
rehearse_all w now k [] d = d
rehearse_all w now k (c ∷ cs) d = rehearse_all w now (suc k) cs (rehearse w now k c d)

dispatch_all-books :
    (w : World) (now k : ℕ) (is_game is_low_mem : Bool) (cs : List Candidate) (d : DaemonState)
    → books (dispatch_all w now k is_game is_low_mem cs d) ≡ rehearse_all w now k cs (books d)
unfolding dispatch_all rehearse_all
dispatch_all-books w now k is_game is_low_mem [] d = refl
dispatch_all-books w now k is_game is_low_mem (c ∷ cs) d =
    dispatch_all-books w now (suc k) is_game is_low_mem cs
      (handle_candidate w now k is_game is_low_mem c d)
    ∙ ap (rehearse_all w now (suc k) cs) (handle_candidate-books w now k is_game is_low_mem c d)

-- The scan reads the books alone.
scan_apps-books :
    (w : World) (d : DaemonState) (now depth t_idle : ℕ) (apps : Map Text ℕ) (s : Scan)
    → scan_apps w d now depth t_idle apps s ≡ scan_apps w (books d) now depth t_idle apps s
unfolding scan_apps books is_excluded measure
scan_apps-books w d now depth t_idle [] s = refl
scan_apps-books w d now depth t_idle ((pkg, last_active) ∷ apps) s =
    scan_apps-books w d now depth t_idle apps
      (note pkg (examine w d now depth t_idle pkg last_active) s)

abbrev rehearse_pass : World → ℕ → DaemonState → DaemonState
rehearse_pass w now d =
    let s = scan_loop w d now (fg_is_game d) (low_mem w d) in
    rehearse_all w now 0 (take d.config.max_kills_per_pass (sort_by_rss s.candidates))
      (reconcile s d)

scan_loop-books :
    (w : World) (now : ℕ) (is_game is_low_mem : Bool) (d : DaemonState)
    → scan_loop w d now is_game is_low_mem ≡ scan_loop w (books d) now is_game is_low_mem
unfolding scan_loop books
scan_loop-books w now is_game is_low_mem d = scan_apps-books w d now _ _ d.alive_apps empty_scan

reconcile-books : (s : Scan) (d : DaemonState) → books (reconcile s d) ≡ reconcile s (books d)
unfolding reconcile books
reconcile-books s d = refl

rehearse_from : World → ℕ → DaemonState → Scan → DaemonState
rehearse_from w now d s =
    rehearse_all w now 0 (take d.config.max_kills_per_pass (sort_by_rss s.candidates))
      (reconcile s d)

dispatch-books :
    (w : World) (now : ℕ) (is_game is_low_mem : Bool) (s : Scan) (d : DaemonState)
    → books (
        dispatch_all w now 0 is_game is_low_mem
          (take d.config.max_kills_per_pass (sort_by_rss s.candidates))
          (reconcile s d))
      ≡ rehearse_from w now (books d) s
unfolding rehearse_from books
dispatch-books w now is_game is_low_mem s d =
    dispatch_all-books w now 0 is_game is_low_mem _ (reconcile s d)
    ∙ ap (rehearse_all w now 0 _) (reconcile-books s d)

evaluate-books :
    (w : World) (now : ℕ) (d : DaemonState)
    → books (evaluate_reaping_pipeline w now d)
      ≡ rehearse_from w now (books d) (scan_loop w (books d) now (fg_is_game d) (low_mem w d))
unfolding evaluate_reaping_pipeline scan_candidates
evaluate-books w now d =
    dispatch-books w now (fg_is_game d) (low_mem w d)
      (scan_loop w d now (fg_is_game d) (low_mem w d)) d
    ∙ ap (rehearse_from w now (books d)) (scan_loop-books w now (fg_is_game d) (low_mem w d) d)

-- Two daemons that differ at most in the mode, in the spawner and in what they
-- have done so far differ in nothing else after a pass: observe mode does the bookkeeping of act
-- mode.
pub observe_rehearses_act :
    (w : World) (now : ℕ) (d e : DaemonState)
    → books d ≡ books e
    → books (evaluate_reaping_pipeline w now d) ≡ books (evaluate_reaping_pipeline w now e)
unfolding books
observe_rehearses_act w now d e h =
    evaluate-books w now d
    ∙ ap (λ x. rehearse_from w now x (scan_loop w x now (fg_is_game x) (low_mem w x))) h
    ∙ sym (evaluate-books w now e)
