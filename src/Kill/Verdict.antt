-- ===== src/Kill/Verdict.antt =====
-- src/kill.rs, `dispatch_candidate` and `KillRecord`: what a record says of the dispatch behind it.
use mini_lmk.Base.{
  ℕ, Bool, true, false, not, ◌||◌, ◌≡◌, refl, Option, some, List, [], ◌∷◌, ℤ, pos, ◌≤ℤ◌, Text,
  eqb_ℤ, map_or, arith, all,
}
use mini_lmk.Spawn.{Launch, not_dispatched}
use mini_lmk.Spawn.Argv.{ErrnoIsNatural, spawn_kill-recorded}
use mini_lmk.State.{
  DaemonState, Candidate, World, KillReply, signal, perform, Method, sigkill, ams, Reason,
  at_signal,
}
use mini_lmk.Kill.Dispatch.{
  accepted, signal_all, kill_by_ams, kill_by_signal, dispatch_by, attempt_kill, kill_record,
  spawn_skipped, kill_method, confirmed_pid,
}

-- The two numbers of a state and of a system by which a refused dispatch is recorded are errnos.
pub record ErrnosAreNatural (w : World) (d : DaemonState) : Type 0 where
  pub replies : (k : ℕ) → ErrnoIsNatural (w.launch_reply k)
  pub devnull : pos 0 ≤ℤ d.spawner.devnull_errno

signal_all-all :
    (reply : ℕ → KillReply) (pids : List ℕ) (d : DaemonState)
    → (signal_all reply pids d).0 ≡ all (λ p. accepted (reply p)) pids
unfolding signal_all
signal_all-all reply [] d = refl
signal_all-all reply (pid ∷ pids) d =
    ground (arith, signal_all-all reply pids (perform (signal pid (reply pid)) d))

signal_all-spawner :
    (reply : ℕ → KillReply) (pids : List ℕ) (d : DaemonState)
    → (signal_all reply pids d).1.spawner ≡ d.spawner
unfolding signal_all
signal_all-spawner reply [] d = refl
signal_all-spawner reply (pid ∷ pids) d =
    ground (arith, signal_all-spawner reply pids (perform (signal pid (reply pid)) d))

-- `spawn_errno` of an outcome says that there was no dispatch.
abbrev says_skipped : Option ℤ → Bool
says_skipped o = map_or o true (λ n. eqb_ℤ n not_dispatched)

kill_by_ams-says :
    (reply : Launch) (pkg : Text) (d : DaemonState)
    → ErrnoIsNatural reply
    → pos 0 ≤ℤ d.spawner.devnull_errno
    → says_skipped (kill_by_ams reply pkg d).1 ≡ false
unfolding kill_by_ams
kill_by_ams-says reply pkg d h k = spawn_kill-recorded d.spawner pkg reply h k

kill_by_signal-says :
    (w : World) (k : ℕ) (c : Candidate) (d : DaemonState)
    → ErrnosAreNatural w d
    → says_skipped (kill_by_signal w k c d).1 ≡ false
unfolding kill_by_signal
kill_by_signal-says w k c d h = ground (
  arith,
  kill_by_ams-says (w.launch_reply k) c.pkg d (h.replies k) h.devnull,
  kill_by_ams-says (w.launch_reply k) c.pkg (signal_all (w.kill_reply k) c.live_pids d).1
      (h.replies k) (rw (signal_all-spawner (w.kill_reply k) c.live_pids d) h.devnull),
)

dispatch_by-says :
    (m : Method) (w : World) (k : ℕ) (c : Candidate) (d : DaemonState)
    → ErrnosAreNatural w d
    → says_skipped (dispatch_by m w k c d).1 ≡ false
unfolding dispatch_by
dispatch_by-says sigkill w k c d h = kill_by_signal-says w k c d h
dispatch_by-says ams w k c d h = kill_by_ams-says (w.launch_reply k) c.pkg d (h.replies k) h.devnull

-- Where the system's errnos are natural numbers, the record of a decision says `spawn_skipped` just
-- when the daemon observes only or the gate protects the package: never of a dispatch that was
-- attempted, and always where there was none.
pub spawn_skipped_exact :
    (w : World) (k : ℕ) (c : Candidate) (now : ℕ) (adj : ℤ) (protected : Bool) (reason : Reason)
    (d : DaemonState)
    → ErrnosAreNatural w d
    → spawn_skipped (
        kill_record c now adj d.act_mode protected reason
          (attempt_kill w k c adj protected d).1
          (attempt_kill w k c adj protected d).2)
      ≡ (not d.act_mode || protected)
unfolding attempt_kill spawn_skipped kill_record
spawn_skipped_exact w k c now adj protected reason d h =
    ground (arith, dispatch_by-says (kill_method d.is_root protected adj) w k c d h)

kill_by_signal-method :
    (w : World) (k : ℕ) (c : Candidate) (d : DaemonState)
    → (kill_by_signal w k c d).2 ≡ sigkill
    → ((kill_by_signal w k c d).1 ≡ some (pos 0))
      × (all (confirmed_pid (w.proc (at_signal k))) c.live_pids ≡ true)
      × (all (λ p. accepted (w.kill_reply k p)) c.live_pids ≡ true)
unfolding kill_by_signal kill_by_ams
kill_by_signal-method w k c d h = ground (arith, signal_all-all (w.kill_reply k) c.live_pids d)

-- In act mode an unprotected package is recorded as killed by signal only if the daemon is root,
-- the score at the gate is at least 900, every live process was confirmed, and every signal was
-- delivered or met a process that was gone; the record then says that the dispatch succeeded.
pub sigkill_is_honest :
    (w : World) (k : ℕ) (c : Candidate) (adj : ℤ) (d : DaemonState)
    → d.act_mode ≡ true
    → (attempt_kill w k c adj false d).2 ≡ sigkill
    → (d.is_root ≡ true)
      × (pos 900 ≤ℤ adj)
      × ((attempt_kill w k c adj false d).1 ≡ some (pos 0))
      × (all (confirmed_pid (w.proc (at_signal k))) c.live_pids ≡ true)
      × (all (λ p. accepted (w.kill_reply k p)) c.live_pids ≡ true)
unfolding attempt_kill kill_method dispatch_by kill_by_ams
sigkill_is_honest w k c adj d on h =
    let m = kill_by_signal-method w k c d in
    (ground arith, ground arith, ground (arith, m), ground (arith, m), ground (arith, m))
