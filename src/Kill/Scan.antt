-- ===== src/Kill/Scan.antt =====
-- src/kill.rs, `scan_candidates`: one turn of the loop for each package, the reconciliation of the
-- process tables behind it, and the order by resident set.
use mini_lmk.Base.{
  ℕ, suc, Bool, ◌||◌, none, some, List, [], ◌∷◌, ◌++◌, ltb, leb, ◌==◌, if◌then◌else◌, Text,
  text_beq, is_empty, retain, add_u64, text_eq, number_eq,
}
use mini_lmk.Base.Map.{Map, lookup, contains, remove, modify}
use mini_lmk.Procfs.{read_statm_rss_kb}
use mini_lmk.State.{DaemonState, Candidate, ProcFs, World, in_scan, usize_max, is_excluded}
use mini_lmk.Kill.Window.{effective_lru_depth, t_idle_effective_sec, seconds_since}

-- `iter().position(|x| x == pkg).unwrap_or(usize::MAX)`, from the index of the first element.
unfoldable pub position_from : ℕ → Text → List Text → ℕ
position_from i pkg [] = usize_max
position_from i pkg (x ∷ xs) = if text_beq x pkg then i else position_from (suc i) pkg xs

-- The processes of one package: their sum, and the live and the dead ones.
pub record Pids : Type 0 where
  pub total : ℕ
  pub live : List ℕ
  pub dead : List ℕ

unfoldable pub scan_pid : ProcFs → ℕ → ℕ → Pids → Pids
unfolding read_statm_rss_kb
scan_pid proc page pid p =
    let rss = read_statm_rss_kb (proc.statm pid) page in
    if ltb 0 rss
    then record p { total = add_u64 p.total rss; live = p.live ++ pid ∷ [] }
    else record p { dead = p.dead ++ pid ∷ [] }

unfoldable pub scan_pids : ProcFs → ℕ → List ℕ → Pids → Pids
scan_pids proc page [] p = p
scan_pids proc page (pid ∷ pids) p = scan_pids proc page pids (scan_pid proc page pid p)

abbrev pub pids_of : DaemonState → Text → List ℕ
pids_of d pkg = elim (lookup pkg d.pkg_to_pids) [ none ↦ [] | some pids ↦ pids ]

-- The processes of a package, as its turn of the loop reads them.
unfoldable pub measure : World → DaemonState → Text → Pids
unfolding scan_pids
measure w d pkg =
    scan_pids (w.proc (in_scan pkg)) d.page_size_kb (pids_of d pkg)
      (record { total = 0; live = []; dead = [] })

-- What one turn of the loop finds: nothing, a dead package, or a candidate.
pub data Finding : Type 0 where
  skipped : Finding
  exited : List ℕ → Finding
  found : Candidate → List ℕ → Finding

unfoldable pub judge : Text → ℕ → ℕ → Pids → Finding
judge pkg idle lru_pos p =
    if is_empty p.live || p.total == 0
    then exited p.dead
    else found
        (record {
          pkg = pkg;
          live_pids = p.live;
          total_rss_kb = p.total;
          idle_sec = idle;
          lru_pos = lru_pos;
        })
        p.dead

unfoldable pub examine : World → DaemonState → ℕ → ℕ → ℕ → Text → ℕ → Finding
unfolding judge
examine w d now depth t_idle pkg last_active =
    if is_excluded d pkg
    then skipped
    else if ltb (position_from 0 pkg d.fg_lru) depth
    then skipped
    else if ltb (seconds_since now last_active) t_idle
    then skipped
    else judge pkg (seconds_since now last_active) (position_from 0 pkg d.fg_lru) (measure w d pkg)

pub record Scan : Type 0 where
  pub candidates : List Candidate
  pub dead_pids : List ℕ
  pub dead_pkgs : List Text

unfoldable pub note : Text → Finding → Scan → Scan
note pkg skipped s = s
note pkg (exited dead) s = record s {
  dead_pids = s.dead_pids ++ dead;
  dead_pkgs = s.dead_pkgs ++ pkg ∷ [];
}
note pkg (found c dead) s = record s {
  dead_pids = s.dead_pids ++ dead;
  candidates = s.candidates ++ c ∷ [];
}

unfoldable pub scan_apps : World → DaemonState → ℕ → ℕ → ℕ → Map Text ℕ → Scan → Scan
unfolding examine note
scan_apps w d now depth t_idle [] s = s
scan_apps w d now depth t_idle ((pkg, last_active) ∷ apps) s =
    scan_apps w d now depth t_idle apps (note pkg (examine w d now depth t_idle pkg last_active) s)

unfoldable pub drop_pids : List ℕ → Map ℕ Text → Map ℕ Text
drop_pids [] m = m
drop_pids (pid ∷ pids) m = drop_pids pids (remove pid m)

unfoldable pub drop_pkgs : {V : Type 0} → List Text → Map Text V → Map Text V
drop_pkgs [] m = m
drop_pkgs (pkg ∷ pkgs) m = drop_pkgs pkgs (remove pkg m)

unfoldable pub keep_live : List Candidate → Map Text (List ℕ) → Map Text (List ℕ)
keep_live [] m = m
keep_live (c ∷ cs) m = keep_live cs (modify c.pkg (retain (λ p. contains p c.live_pids)) m)

unfoldable pub reconcile : Scan → DaemonState → DaemonState
unfolding drop_pids drop_pkgs keep_live
reconcile s d = record d {
  pid_to_pkg = drop_pids s.dead_pids d.pid_to_pkg;
  alive_apps = drop_pkgs s.dead_pkgs d.alive_apps;
  pkg_to_pids = keep_live s.candidates (drop_pkgs s.dead_pkgs d.pkg_to_pids);
}

-- `sort_by_key` is stable: among equals the one that stood first stays first.
unfoldable pub sorted_insert : Candidate → List Candidate → List Candidate
sorted_insert c [] = c ∷ []
sorted_insert c (x ∷ xs) =
    if leb x.total_rss_kb c.total_rss_kb then c ∷ x ∷ xs else x ∷ sorted_insert c xs

unfoldable pub sort_by_rss : List Candidate → List Candidate
unfolding sorted_insert
sort_by_rss [] = []
sort_by_rss (c ∷ cs) = sorted_insert c (sort_by_rss cs)

abbrev pub empty_scan : Scan
empty_scan = record { candidates = []; dead_pids = []; dead_pkgs = [] }

-- The loop over `alive_apps`, with the two thresholds computed once.
unfoldable pub scan_loop : World → DaemonState → ℕ → Bool → Bool → Scan
unfolding scan_apps effective_lru_depth t_idle_effective_sec
scan_loop w d now is_game is_low_mem =
    scan_apps w d now (effective_lru_depth d) (t_idle_effective_sec d now is_game is_low_mem)
      d.alive_apps empty_scan

unfoldable pub scan_candidates :
    World → DaemonState → ℕ → Bool → Bool → List Candidate × DaemonState
unfolding scan_loop reconcile sort_by_rss
scan_candidates w d now is_game is_low_mem =
    let s = scan_loop w d now is_game is_low_mem in (sort_by_rss s.candidates, reconcile s d)
