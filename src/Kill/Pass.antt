-- ===== src/Kill/Pass.antt =====
-- src/kill.rs, `evaluate_reaping_pipeline`.
use mini_lmk.Base.{
  ℕ, suc, Bool, none, some, List, [], ◌∷◌, ℤ, pos, ltb_ℤ, min_ℤ, take, text_eq, is_some_and,
}
use mini_lmk.Base.Map.{contains}
use mini_lmk.Procfs.{read_oom_score_adj, check_mem_critical}
use mini_lmk.State.{DaemonState, Candidate, ProcFs, World, at_gate}
use mini_lmk.Kill.Scan.{scan_candidates}
use mini_lmk.Kill.Dispatch.{dispatch_candidate}

abbrev pub adj_or_zero : ProcFs → ℕ → ℤ
adj_or_zero proc pid = elim (read_oom_score_adj (proc.oom_score_adj pid)) [
  | none ↦ pos 0
  | some adj ↦ adj
]

-- `map(..).min()` from a first value.
unfoldable pub min_adj_from : ProcFs → ℤ → List ℕ → ℤ
unfolding read_oom_score_adj
min_adj_from proc acc [] = acc
min_adj_from proc acc (pid ∷ pids) = min_adj_from proc (min_ℤ acc (adj_or_zero proc pid)) pids

unfoldable pub gate_adj : ProcFs → List ℕ → ℤ
unfolding min_adj_from
gate_adj proc [] = pos 0
gate_adj proc (pid ∷ pids) = min_adj_from proc (adj_or_zero proc pid) pids

unfoldable pub handle_candidate :
    World → ℕ → ℕ → Bool → Bool → Candidate → DaemonState → DaemonState
unfolding gate_adj dispatch_candidate
handle_candidate w now k is_game is_low_mem cand d =
    let oom_adj = gate_adj (w.proc (at_gate k)) cand.live_pids in
    let ams_protected = ltb_ℤ oom_adj d.config.min_oom_score_adj in
    dispatch_candidate w k cand now oom_adj ams_protected is_game is_low_mem d

-- The candidates in order, each with its position.
unfoldable pub dispatch_all :
    World → ℕ → ℕ → Bool → Bool → List Candidate → DaemonState → DaemonState
unfolding handle_candidate
dispatch_all w now k is_game is_low_mem [] d = d
dispatch_all w now k is_game is_low_mem (c ∷ cs) d =
    dispatch_all w now (suc k) is_game is_low_mem cs
      (handle_candidate w now k is_game is_low_mem c d)

abbrev pub fg_is_game : DaemonState → Bool
fg_is_game d = is_some_and d.current_fg (λ p. contains p d.games)

abbrev pub low_mem : World → DaemonState → Bool
low_mem w d = check_mem_critical w.f32_at_least w.pressure w.meminfo d.config.mem_critical_percent

unfoldable pub evaluate_reaping_pipeline : World → ℕ → DaemonState → DaemonState
unfolding scan_candidates dispatch_all check_mem_critical
evaluate_reaping_pipeline w now d =
    let is_game = fg_is_game d in
    let is_low_mem = low_mem w d in
    let (candidates, d') = scan_candidates w d now is_game is_low_mem in
    dispatch_all w now 0 is_game is_low_mem (take d.config.max_kills_per_pass candidates) d'
