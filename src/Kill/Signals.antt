-- ===== src/Kill/Signals.antt =====
-- src/kill.rs: the actions that a dispatch adds to the trace, by the way that it takes.
use mini_lmk.Base.{
  ℕ, Bool, true, false, ◌≡◌, refl, Option, none, some, List, [], ◌∷◌, ℤ, Text, arith, Bool-cases,
  inl, inr, In, leb_ℤ, all, all-In,
}
use mini_lmk.Spawn.{Spawner, Launch, Launched, spawn_kill}
use mini_lmk.Spawn.Argv.{kill_argv, spawn_kill-argv}
use mini_lmk.State.{
  DaemonState, Candidate, World, Action, KillReply, KillRecord, emit, flush, signal, launch,
  perform, kill_decision, Method, sigkill, ams, at_signal, sigkill_min_adj,
}
use mini_lmk.Kill.Frame.{Runs, Runs-silent, Runs-one, Runs-trans}
use mini_lmk.Kill.Dispatch.{
  confirmed_pid, accepted, signal_all, log_request, kill_by_ams, kill_by_signal, dispatch_by,
  attempt_kill, settle, dispatch_candidate, kill_method, kill_record, reason_of,
}

-- What the two ways of killing `c` at place `k` may do, for a property `P` of actions.
pub record Permits (P : Action → Type 0) (w : World) (k : ℕ) (c : Candidate) (root : Bool) (adj : ℤ)
    : Type 0 where
  pub to_launch : (l : Launched) → l.argv ≡ kill_argv c.pkg → P (launch l)
  pub to_signal :
      (pid : ℕ)
      → In pid c.live_pids
      → confirmed_pid (w.proc (at_signal k)) pid ≡ true
      → root ≡ true
      → leb_ℤ sigkill_min_adj adj ≡ true
      → P (signal pid (w.kill_reply k pid))

module _ (P : Action → Type 0) where
  signal_all-Runs :
      (reply : ℕ → KillReply) (pids : List ℕ) (d : DaemonState)
      → ((pid : ℕ) → In pid pids → P (signal pid (reply pid)))
      → Runs P d (signal_all reply pids d).1
  unfolding signal_all
  signal_all-Runs reply [] d h = Runs-silent P d d refl refl
  signal_all-Runs reply (pid ∷ pids) d h =
      let d' = perform (signal pid (reply pid)) d in
      let one = Runs-one P (signal pid (reply pid)) d d' refl refl (h pid (inl refl)) in
      let rest = signal_all-Runs reply pids d' (λ p i. h p (inr i)) in
      elim (Bool-cases (accepted (reply pid))) [
        | inl e ↦ rw e (Runs-trans P d d' (signal_all reply pids d').1 one rest)
        | inr e ↦ rw e one
      ]

  log_request-Runs :
      (request : Option Launched) (s : Spawner) (d : DaemonState)
      → ((l : Launched) → request ≡ some l → P (launch l))
      → Runs P d (log_request request (record d { spawner = s }))
  log_request-Runs none s d h = Runs-silent P d _ refl refl
  log_request-Runs (some l) s d h = Runs-one P (launch l) d _ refl refl (h l refl)

  kill_by_ams-Runs :
      (reply : Launch) (pkg : Text) (d : DaemonState)
      → ((l : Launched) → l.argv ≡ kill_argv pkg → P (launch l))
      → Runs P d (kill_by_ams reply pkg d).0
  unfolding kill_by_ams
  kill_by_ams-Runs reply pkg d h =
      log_request-Runs (spawn_kill d.spawner pkg reply).2 (spawn_kill d.spawner pkg reply).0 d
        (λ l e. h l (spawn_kill-argv d.spawner pkg reply l e))

  kill_by_signal-Runs :
      (w : World) (k : ℕ) (c : Candidate) (d : DaemonState)
      → ((l : Launched) → l.argv ≡ kill_argv c.pkg → P (launch l))
      → ((pid : ℕ)
          → In pid c.live_pids
          → confirmed_pid (w.proc (at_signal k)) pid ≡ true
          → P (signal pid (w.kill_reply k pid)))
      → Runs P d (kill_by_signal w k c d).0
  unfolding kill_by_signal
  kill_by_signal-Runs w k c d hl hs =
      elim (Bool-cases (all (confirmed_pid (w.proc (at_signal k))) c.live_pids)) [
        | inr no_conf ↦ rw no_conf (kill_by_ams-Runs (w.launch_reply k) c.pkg d hl)
        | inl conf ↦
            let sent = signal_all-Runs (w.kill_reply k) c.live_pids d (λ pid i.
              hs pid i (all-In (confirmed_pid (w.proc (at_signal k))) pid c.live_pids conf i)) in
            let d' = (signal_all (w.kill_reply k) c.live_pids d).1 in
            elim (Bool-cases (signal_all (w.kill_reply k) c.live_pids d).0) [
              | inl s ↦ rw (conf, s) sent
              | inr s ↦
                  rw (conf, s)
                    (Runs-trans P d d' _ sent (kill_by_ams-Runs (w.launch_reply k) c.pkg d' hl))
            ]
      ]

  settle-Runs :
      (protected : Bool) (pkg : Text) (now : ℕ) (d : DaemonState)
      → Runs P d (settle protected pkg now d)
  unfolding settle
  settle-Runs true pkg now d = Runs-silent P d _ refl refl
  settle-Runs false pkg now d = Runs-silent P d _ refl refl

  dispatch_by-Runs :
      (m : Method) (w : World) (k : ℕ) (c : Candidate) (root protected : Bool) (adj : ℤ)
      (d : DaemonState)
      → kill_method root protected adj ≡ m
      → Permits P w k c root adj
      → Runs P d (dispatch_by m w k c d).0
  unfolding dispatch_by kill_method
  dispatch_by-Runs ams w k c root protected adj d e h =
      kill_by_ams-Runs (w.launch_reply k) c.pkg d h.to_launch
  dispatch_by-Runs sigkill w k c root protected adj d e h =
      kill_by_signal-Runs w k c d h.to_launch
        (λ pid i conf. h.to_signal pid i conf (ground arith) (ground arith))

  pub attempt_kill-Runs :
      (w : World) (k : ℕ) (c : Candidate) (adj : ℤ) (protected : Bool) (d : DaemonState)
      → (d.act_mode ≡ true → protected ≡ false → Permits P w k c d.is_root adj)
      → Runs P d (attempt_kill w k c adj protected d).0
  unfolding attempt_kill
  attempt_kill-Runs w k c adj protected d h = elim (Bool-cases d.act_mode) [
    | inr off ↦ simp off (Runs-silent P d d refl refl)
    | inl on ↦ elim (Bool-cases protected) [
      | inl kept ↦ simp (on, kept) (Runs-silent P d d refl refl)
      | inr free ↦
          simp (on, free)
            (dispatch_by-Runs (kill_method d.is_root false adj) w k c d.is_root false adj d refl
              (h on free))
    ]
  ]

  pub dispatch_candidate-Runs :
      (w : World) (k : ℕ) (c : Candidate) (now : ℕ) (adj : ℤ) (protected is_game is_low_mem : Bool)
      (d : DaemonState)
      → ((r : KillRecord) → r.pkg ≡ c.pkg → r.pids ≡ c.live_pids → P (emit (kill_decision r)))
      → P flush
      → (d.act_mode ≡ true → protected ≡ false → Permits P w k c d.is_root adj)
      → Runs P d (dispatch_candidate w k c now adj protected is_game is_low_mem d)
  unfolding dispatch_candidate kill_record
  dispatch_candidate-Runs w k c now adj protected is_game is_low_mem d he hf h =
      let o = attempt_kill w k c adj protected d in
      let r = kill_record c now adj d.act_mode protected (reason_of is_game is_low_mem) o.1 o.2 in
      let e1 = perform (emit (kill_decision r)) o.0 in
      let e2 = perform flush e1 in
      Runs-trans P d o.0 _ (attempt_kill-Runs w k c adj protected d h) (
        Runs-trans P o.0 e1 _
          (Runs-one P (emit (kill_decision r)) o.0 e1 refl refl (he r refl refl))
          (Runs-trans P e1 e2 _ (Runs-one P flush e1 e2 refl refl hf)
            (settle-Runs protected c.pkg now e2)))
