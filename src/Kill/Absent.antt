-- ===== src/Kill/Absent.antt =====
-- src/kill.rs, for a package that is not in `alive_apps`.
use mini_lmk.Base.{
  ℕ, suc, Bool, true, false, ◌≡◌, ◌≢◌, ap, subst, none, List, [], ◌∷◌, Text, text_eq, take, In, inl,
  inr, arith, In-All,
}
use mini_lmk.Base.Map.{Map, lookup, remove, modify, lookup-remove, lookup-modify, beq_refl}
use mini_lmk.State.{DaemonState, Candidate, World}
use mini_lmk.Kill.Scan.{drop_pkgs, reconcile, sort_by_rss, scan_loop, scan_candidates}
use mini_lmk.Kill.Dispatch.{settle, dispatch_candidate}
use mini_lmk.Kill.Rehearsal.{attempt_kill-alive_apps}
use mini_lmk.Kill.Order.{scan_candidates-Eligible}
use mini_lmk.Kill.Pass.{
  handle_candidate, dispatch_all, evaluate_reaping_pipeline, fg_is_game, low_mem,
}
use mini_lmk.Kill.Effects.{pass_candidates}

module _ (p : Text) where
  -- The package has no entry.
  abbrev pub Absent : {V : Type 0} → Map Text V → Type 0
  Absent m = lookup p m ≡ none

  Absent-remove : {V : Type 0} (pkg : Text) (m : Map Text V) → Absent m → Absent (remove pkg m)
  Absent-remove pkg m h = ground (arith, lookup-remove pkg p m)

  Absent-modify :
      {V : Type 0} (pkg : Text) (f : V → V) (m : Map Text V) → Absent m → Absent (modify pkg f m)
  Absent-modify pkg f m h = ground (arith, lookup-modify pkg p f m)

  drop_pkgs-Absent :
      {V : Type 0} (pkgs : List Text) (m : Map Text V) → Absent m → Absent (drop_pkgs pkgs m)
  unfolding drop_pkgs
  drop_pkgs-Absent [] m h = h
  drop_pkgs-Absent (pkg ∷ pkgs) m h = drop_pkgs-Absent pkgs (remove pkg m) (Absent-remove pkg m h)

  settle-Absent :
      (protected : Bool) (pkg : Text) (now : ℕ) (d : DaemonState)
      → Absent d.alive_apps
      → Absent (settle protected pkg now d).alive_apps
  unfolding settle
  settle-Absent true pkg now d h = Absent-modify pkg (λ _. now) d.alive_apps h
  settle-Absent false pkg now d h = Absent-remove pkg d.alive_apps h

  handle_candidate-Absent :
      (w : World) (now k : ℕ) (is_game is_low_mem : Bool) (c : Candidate) (d : DaemonState)
      → Absent d.alive_apps
      → Absent (handle_candidate w now k is_game is_low_mem c d).alive_apps
  unfolding handle_candidate dispatch_candidate
  handle_candidate-Absent w now k is_game is_low_mem c d h =
      settle-Absent _ c.pkg now _ (rw (attempt_kill-alive_apps w k c) h)

  dispatch_all-Absent :
      (w : World) (now k : ℕ) (is_game is_low_mem : Bool) (cs : List Candidate) (d : DaemonState)
      → Absent d.alive_apps
      → Absent (dispatch_all w now k is_game is_low_mem cs d).alive_apps
  unfolding dispatch_all
  dispatch_all-Absent w now k is_game is_low_mem [] d h = h
  dispatch_all-Absent w now k is_game is_low_mem (c ∷ cs) d h =
      dispatch_all-Absent w now (suc k) is_game is_low_mem cs
        (handle_candidate w now k is_game is_low_mem c d)
        (handle_candidate-Absent w now k is_game is_low_mem c d h)

  pub evaluate-Absent :
      (w : World) (now : ℕ) (d : DaemonState)
      → Absent d.alive_apps
      → Absent (evaluate_reaping_pipeline w now d).alive_apps
  unfolding evaluate_reaping_pipeline scan_candidates reconcile
  evaluate-Absent w now d h =
      let s = scan_loop w d now (fg_is_game d) (low_mem w d) in
      dispatch_all-Absent w now 0 (fg_is_game d) (low_mem w d)
        (take d.config.max_kills_per_pass (sort_by_rss s.candidates)) (reconcile s d)
        (drop_pkgs-Absent s.dead_pkgs d.alive_apps h)

  -- An entry of a table is found by its key.
  In-Absent : {V : Type 0} (v : V) (m : Map Text V) → Absent m → In (p, v) m → ⊥
  unfolding lookup
  In-Absent v [] h i = i
  In-Absent v ((j, u) ∷ m) h (inl e) = cc (h, ap (λ x. x.0) e, beq_refl p)
  In-Absent v ((j, u) ∷ m) h (inr i) = In-Absent v m (ground arith) i

  pub candidate-ne :
      (w : World) (now : ℕ) (d : DaemonState) (c : Candidate)
      → Absent d.alive_apps
      → In c (pass_candidates w now d)
      → c.pkg ≢ p
  candidate-ne w now d c h i e =
      let el = In-All _ c (pass_candidates w now d) (scan_candidates-Eligible w d now _ _) i in
      In-Absent el.last_active d.alive_apps h
        (subst (λ x. In (x, el.last_active) d.alive_apps) e el.alive)
