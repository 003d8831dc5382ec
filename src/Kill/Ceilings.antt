-- ===== src/Kill/Ceilings.antt =====
-- src/kill.rs, `scan_candidates`: the thresholds of a pass against the configured ones.
use mini_lmk.Base.{ℕ, ◌≤◌, min, Bool, true, arith}
use mini_lmk.State.{DaemonState}
use mini_lmk.Kill.Window.{effective_lru_depth, t_idle_effective_sec}

-- Whatever the screen, the foreground and the memory do, a pass waits no longer than the configured
-- idle time, and no less than the lesser of that and ten seconds; it protects no more packages of
-- the LRU than configured, and no less than the lesser of that and one; and under a game or memory
-- pressure no wait is shorter than the one it asks for.
pub thresholds_tighten :
    (d : DaemonState) (now : ℕ) (is_game is_low_mem : Bool)
    → (t_idle_effective_sec d now is_game is_low_mem ≤ d.config.t_idle_sec)
      × (min d.config.t_idle_sec 10 ≤ t_idle_effective_sec d now is_game is_low_mem)
      × (effective_lru_depth d ≤ d.config.lru_protect_depth)
      × (min d.config.lru_protect_depth 1 ≤ effective_lru_depth d)
      × (t_idle_effective_sec d now true is_low_mem ≤ t_idle_effective_sec d now is_game is_low_mem)
      × (t_idle_effective_sec d now is_game true ≤ t_idle_effective_sec d now is_game is_low_mem)
unfolding t_idle_effective_sec effective_lru_depth
thresholds_tighten d now is_game is_low_mem =
    (ground arith, ground arith, ground arith, ground arith, ground arith, ground arith)
