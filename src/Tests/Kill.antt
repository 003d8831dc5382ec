-- ===== src/Tests/Kill.antt =====
-- The theorems on src/kill.rs, at a phone whose two background apps have been idle long enough.
use mathlib.Core.List.{Perm}
use mini_lmk.Base.{
  ◌+◌, ◌≤◌, min, true, false, ◌≡◌, refl, [], ◌∷◌, All, In, inl, pos, ◌≤ℤ◌, all, some, length, arith,
  In-All, text_beq, text_eq,
}
use mini_lmk.Base.Map.{contains, lookup}
use mini_lmk.State.{
  DaemonState, Candidate, usize_max, idle_expired, sigkill, at_signal, is_excluded,
}
use mini_lmk.Kill.Window.{effective_lru_depth, t_idle_effective_sec}
use mini_lmk.Kill.Scan.{scan_candidates, scan_loop, measure, scan_pid, position_from}
use mini_lmk.Kill.Dispatch.{attempt_kill, kill_record, spawn_skipped, confirmed_pid, accepted}
use mini_lmk.Kill.Pass.{evaluate_reaping_pipeline}
use mini_lmk.Kill.Ceilings.{thresholds_tighten}
use mini_lmk.Kill.Eligible.{Eligible, Passes, candidate_for}
use mini_lmk.Kill.Order.{
  Descending, scan_candidates-Descending, scan_candidates-Eligible, scan_candidates_complete,
}
use mini_lmk.Kill.Frame.{Runs}
use mini_lmk.Kill.Effects.{Allowed, pass_candidates, evaluate-Allowed}
use mini_lmk.Kill.Burst.{decisions, evaluate-decisions}
use mini_lmk.Kill.Verdict.{ErrnosAreNatural, spawn_skipped_exact, sigkill_is_honest}
use mini_lmk.Kill.Rehearsal.{books, observe_rehearses_act}
use mini_lmk.Tests.Fixtures.{phone, world, noon, app_one}

abbrev one : Candidate
one = candidate_for world phone noon app_one 1700000000000

one_measured : measure world phone app_one ≡ record { total = 200; live = 11 ∷ []; dead = [] }
unfolding measure scan_pid text_beq lookup
one_measured = refl

idle_limit : t_idle_effective_sec phone noon false false ≡ 180
unfolding t_idle_effective_sec text_beq lookup
idle_limit = refl

depth_limit : effective_lru_depth phone ≡ 3
unfolding effective_lru_depth
depth_limit = refl

one_unlisted : position_from 0 app_one phone.fg_lru ≡ usize_max
unfolding position_from text_beq
one_unlisted = refl

one_free : is_excluded phone app_one ≡ false
unfolding is_excluded text_beq contains
one_free = refl

one-Passes :
    Passes world phone noon
      (effective_lru_depth phone)
      (t_idle_effective_sec phone noon false false)
      app_one
      1700000000000
one-Passes = record {
  not_excluded = one_free;
  beyond_lru = omega (arith, depth_limit, one_unlisted);
  idle_enough = omega (arith, idle_limit);
  live_ne_nil = rw one_measured (ground arith);
  rss_pos = rw one_measured (omega arith);
}

scan_candidates_complete_example : In one (scan_candidates world phone noon false false).0
scan_candidates_complete_example =
    scan_candidates_complete world phone noon false false app_one 1700000000000 (inl refl)
      one-Passes

scan_candidates-Eligible_example :
    All
      (Eligible world phone noon
        (effective_lru_depth phone)
        (t_idle_effective_sec phone noon false false))
      (scan_candidates world phone noon false false).0
scan_candidates-Eligible_example = scan_candidates-Eligible world phone noon false false

scan_candidates-Descending_example :
    Descending (scan_candidates world phone noon false false).0
    × Perm
        (scan_candidates world phone noon false false).0
        (scan_loop world phone noon false false).candidates
scan_candidates-Descending_example = scan_candidates-Descending world phone noon false false

one-Eligible :
    Eligible world phone noon
      (effective_lru_depth phone)
      (t_idle_effective_sec phone noon false false)
      one
one-Eligible =
    In-All _ one (scan_candidates world phone noon false false).0
      (scan_candidates-Eligible world phone noon false false)
      (scan_candidates_complete world phone noon false false app_one 1700000000000 (inl refl)
        one-Passes)

thresholds_tighten_example :
    (t_idle_effective_sec phone noon false true ≤ 180)
    × (10 ≤ t_idle_effective_sec phone noon false true)
    × (effective_lru_depth phone ≤ 3)
    × (1 ≤ effective_lru_depth phone)
    × (t_idle_effective_sec phone noon true true ≤ t_idle_effective_sec phone noon false true)
    × (t_idle_effective_sec phone noon false true ≤ t_idle_effective_sec phone noon false true)
thresholds_tighten_example = thresholds_tighten phone noon false true

evaluate-Allowed_example :
    Runs
      (Allowed world phone (pass_candidates world noon phone))
      phone
      (evaluate_reaping_pipeline world noon phone)
evaluate-Allowed_example = evaluate-Allowed world noon phone

evaluate-decisions_example :
    decisions (evaluate_reaping_pipeline world noon phone).trace
    ≡ min 2 (length (pass_candidates world noon phone)) + 0
evaluate-decisions_example = evaluate-decisions world noon phone

phone-ErrnosAreNatural : ErrnosAreNatural world phone
phone-ErrnosAreNatural = record { replies = λ k. tt; devnull = omega arith }

spawn_skipped_exact_example :
    spawn_skipped (
      kill_record one noon
        (pos 905)
        true
        false
        idle_expired
        (attempt_kill world 0 one (pos 905) false phone).1
        (attempt_kill world 0 one (pos 905) false phone).2)
    ≡ false
spawn_skipped_exact_example =
    spawn_skipped_exact world 0 one noon (pos 905) false idle_expired phone phone-ErrnosAreNatural

one_signalled : (attempt_kill world 0 one (pos 905) false phone).2 ≡ sigkill
unfolding attempt_kill measure scan_pid text_beq lookup
one_signalled = refl

sigkill_is_honest_example :
    (true ≡ true)
    × (pos 900 ≤ℤ pos 905)
    × ((attempt_kill world 0 one (pos 905) false phone).1 ≡ some (pos 0))
    × (all (confirmed_pid (world.proc (at_signal 0))) one.live_pids ≡ true)
    × (all (λ p. accepted (world.kill_reply 0 p)) one.live_pids ≡ true)
sigkill_is_honest_example = sigkill_is_honest world 0 one (pos 905) phone refl one_signalled

abbrev rehearsal : DaemonState
rehearsal = record phone { act_mode = false }

same_books : books phone ≡ books rehearsal
unfolding books
same_books = refl

observe_rehearses_act_example :
    books (evaluate_reaping_pipeline world noon phone)
    ≡ books (evaluate_reaping_pipeline world noon rehearsal)
observe_rehearses_act_example = observe_rehearses_act world noon phone rehearsal same_books
