-- ===== src/Kill/Effects.antt =====
-- src/kill.rs, `evaluate_reaping_pipeline` and `dispatch_candidate`: the signals, the children and the
-- records of a pass.
use mini_lmk.Base.{
  ℕ, suc, Bool, true, false, ◌≡◌, refl, sym, ap, ◌∙◌, List, [], ◌∷◌, inl, inr, In, In-take, subst,
  leb_ℤ, ltb_ℤ,
}
use mini_lmk.Spawn.{Launched}
use mini_lmk.Spawn.Argv.{kill_argv}
use mini_lmk.State.{
  DaemonState, Candidate, World, Action, LogRecord, kill_decision, emit, flush, log_switch, signal,
  launch, kill_child, at_gate, at_signal, sigkill_min_adj,
}
use mini_lmk.Kill.Frame.{overlay, Runs, Runs-silent, Runs-trans}
use mini_lmk.Kill.Scan.{Scan, reconcile, scan_loop, scan_candidates}
use mini_lmk.Kill.Dispatch.{confirmed_pid}
use mini_lmk.Kill.Signals.{dispatch_candidate-Runs}
use mini_lmk.Kill.Pass.{
  gate_adj, handle_candidate, dispatch_all, evaluate_reaping_pipeline, fg_is_game, low_mem,
}

-- The gate lets the candidate through.
abbrev pub Unprotected : World → DaemonState → ℕ → Candidate → Type 0
Unprotected w d k c =
    ltb_ℤ (gate_adj (w.proc (at_gate k)) c.live_pids) d.config.min_oom_score_adj ≡ false

-- Why a process may be signalled.
pub record MaySignal (w : World) (d : DaemonState) (cands : List Candidate) (pid : ℕ) : Type 0 where
  pub acting : d.act_mode ≡ true
  pub root : d.is_root ≡ true
  pub cand : Candidate
  pub is_cand : In cand cands
  pub is_live : In pid cand.live_pids
  pub place : ℕ
  pub gate : leb_ℤ sigkill_min_adj (gate_adj (w.proc (at_gate place)) cand.live_pids) ≡ true
  pub unprotected : Unprotected w d place cand
  pub confirmed : confirmed_pid (w.proc (at_signal place)) pid ≡ true

-- Why a child may be asked for.
pub record MayLaunch (w : World) (d : DaemonState) (cands : List Candidate) (l : Launched)
    : Type 0 where
  pub acting : d.act_mode ≡ true
  pub cand : Candidate
  pub is_cand : In cand cands
  pub place : ℕ
  pub unprotected : Unprotected w d place cand
  pub argv_is : l.argv ≡ kill_argv cand.pkg

-- A pass records decisions only, each on a candidate.
abbrev pub MayRecord : List Candidate → LogRecord → Type 0
MayRecord cands (kill_decision r) =
    (c : Candidate) × In c cands × (r.pkg ≡ c.pkg) × (r.pids ≡ c.live_pids)
MayRecord cands _ = ⊥

abbrev pub Allowed : World → DaemonState → List Candidate → Action → Type 0
Allowed w d cands (emit r) = MayRecord cands r
Allowed w d cands flush = Unit
Allowed w d cands (log_switch on) = ⊥
Allowed w d cands (signal pid reply) = MaySignal w d cands pid
Allowed w d cands (launch l) = MayLaunch w d cands l
Allowed w d cands (kill_child pid) = ⊥

module _ (w : World) (d0 : DaemonState) (cands : List Candidate) where
  handle_candidate-Runs :
      (now k : ℕ) (is_game is_low_mem : Bool) (c : Candidate) (d : DaemonState)
      → In c cands
      → d ≡ overlay d0 d
      → Runs (Allowed w d0 cands) d (handle_candidate w now k is_game is_low_mem c d)
  unfolding handle_candidate
  handle_candidate-Runs now k is_game is_low_mem c d i f =
      dispatch_candidate-Runs (Allowed w d0 cands) w k c now _ _ is_game is_low_mem d
        (λ r e f. (c, i, e, f)) tt
        λ on free.
          let acting : d0.act_mode ≡ true = sym (ap (λ x. x.act_mode) f) ∙ on in
          let unprotected : Unprotected w d0 k c = subst (λ x. Unprotected w x k c) f free in
          record {
            to_launch = λ l e. record {
              acting = acting;
              cand = c;
              is_cand = i;
              place = k;
              unprotected = unprotected;
              argv_is = e;
            };
            to_signal = λ pid live conf root adj. record {
              acting = acting;
              root = sym (ap (λ x. x.is_root) f) ∙ root;
              cand = c;
              is_cand = i;
              is_live = live;
              place = k;
              gate = adj;
              unprotected = unprotected;
              confirmed = conf;
            };
          }

  dispatch_all-Runs :
      (now k : ℕ) (is_game is_low_mem : Bool) (cs : List Candidate) (d : DaemonState)
      → ((c : Candidate) → In c cs → In c cands)
      → d ≡ overlay d0 d
      → Runs (Allowed w d0 cands) d (dispatch_all w now k is_game is_low_mem cs d)
  unfolding dispatch_all
  dispatch_all-Runs now k is_game is_low_mem [] d sub f = Runs-silent _ d d refl refl
  dispatch_all-Runs now k is_game is_low_mem (c ∷ cs) d sub f =
      let d' = handle_candidate w now k is_game is_low_mem c d in
      let step = handle_candidate-Runs now k is_game is_low_mem c d (sub c (inl refl)) f in
      Runs-trans _ d d' _ step (
        dispatch_all-Runs now (suc k) is_game is_low_mem cs d' (λ x i. sub x (inr i))
          (step.frame ∙ ap (λ x. overlay x d') f))

reconcile-Runs : (P : Action → Type 0) (s : Scan) (d : DaemonState) → Runs P d (reconcile s d)
unfolding reconcile
reconcile-Runs P s d = Runs-silent P d _ refl refl

-- The candidates of the pass that `evaluate_reaping_pipeline` makes.
abbrev pub pass_candidates : World → ℕ → DaemonState → List Candidate
pass_candidates w now d = (scan_candidates w d now (fg_is_game d) (low_mem w d)).0

-- A pass changes the process tables, the spawner and the trace at most. Each signal that it sends
-- is sent in act mode and as root, to a live process of a candidate of its scan whose lowest
-- `oom_score_adj` at the gate is at least 900 and the configured minimum, and whose own score and
-- uid were confirmed right before. Each child that it asks for is the command that kills the
-- package of a candidate, in act mode, above the configured minimum. Each record that it emits is
-- the decision on a candidate.
pub evaluate-Allowed :
    (w : World) (now : ℕ) (d : DaemonState)
    → Runs (Allowed w d (pass_candidates w now d)) d (evaluate_reaping_pipeline w now d)
unfolding evaluate_reaping_pipeline scan_candidates
evaluate-Allowed w now d =
    let s = scan_loop w d now (fg_is_game d) (low_mem w d) in
    let d' = reconcile s d in
    let start = reconcile-Runs (Allowed w d (pass_candidates w now d)) s d in
    Runs-trans _ d d' _ start (
      dispatch_all-Runs w d (pass_candidates w now d) now 0 (fg_is_game d) (low_mem w d) _ d'
        (λ c i. In-take c d.config.max_kills_per_pass _ i) start.frame)
