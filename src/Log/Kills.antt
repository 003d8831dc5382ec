-- ===== src/Log/Kills.antt =====
-- src/kill.rs, `evaluate_reaping_pipeline`, and src/telemetry.rs: the lines that a pass leaves in the
-- log.
use mini_lmk.Base.{true, ◌≡◌, List, Text, length, All, In}
use mini_lmk.State.{Candidate, KillRecord, kill_decision, Action}
use mini_lmk.Kill.Burst.{decisions}
use mini_lmk.Log.{line_of}
use mini_lmk.Log.Lines.{told, stays_on}

-- The line of the decision on a candidate.
abbrev pub DecisionOn : List Candidate → Text → Type 0
DecisionOn cands line =
    (r : KillRecord) × (line ≡ line_of (kill_decision r))
    × ((c : Candidate) × In c cands × (r.pkg ≡ c.pkg) × (r.pids ≡ c.live_pids))

-- What the actions of a pass leave in the log.
record Tells (cands : List Candidate) (new : List Action) : Type 0 where
  on : stays_on new ≡ true
  count : length (told new) ≡ decisions new
  lines : All (DecisionOn cands) (told new)
