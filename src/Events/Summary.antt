-- ===== src/Events/Summary.antt =====
-- src/events.rs, `emit_bg_summary`.
use mini_lmk.Base.{ℕ, ◌&&◌, ◌==◌, if◌then◌else◌}
use mini_lmk.State.{DaemonState, no_stats, bg_summary, emit, perform}

unfoldable pub emit_bg_summary : ℕ → ℕ → DaemonState → DaemonState
emit_bg_summary now interval_sec d =
    if d.session_stats.bg_spawns == 0 && d.session_stats.bg_deaths == 0
    then d
    else record (perform (emit (bg_summary now interval_sec d.session_stats)) d) {
      session_stats = no_stats;
      session_start = now;
    }
