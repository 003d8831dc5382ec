-- ===== src/Tables/Pass.antt =====
-- src/kill.rs, `evaluate_reaping_pipeline`: the two process tables behind a pass.
use mini_lmk.Base.{
  ℕ, suc, Bool, true, false, not, ◌||◌, ◌≡◌, refl, sym, subst, ap, none, List, [], ◌∷◌, ◌++◌, ◌==◌,
  ==_iff, if◌then◌else◌, Text, text_eq, number_eq, text_beq, text_beq_iff, arith, Bool-cases,
  Option-cases, inl, inr, if_keeps, All, retain, ℤ, take,
}
use mini_lmk.Base.Map.{Map, lookup, remove, modify, contains, lookup-remove, lookup-modify}
use mini_lmk.State.{DaemonState, Candidate, World, emit, flush, kill_decision, perform}
use mini_lmk.Events.Process.{pids_or_none}
use mini_lmk.Kill.Scan.{
  pids_of, Scan, scan_loop, scan_candidates, drop_pids, drop_pkgs, keep_live, reconcile, empty_scan,
}
use mini_lmk.Kill.Dispatch.{attempt_kill, kill_record, reason_of, settle, dispatch_candidate}
use mini_lmk.Kill.Pass.{
  handle_candidate, dispatch_all, evaluate_reaping_pipeline, fg_is_game, low_mem,
}
use mini_lmk.Kill.Rehearsal.{books, attempt_kill-books}
use mini_lmk.Tables.{Filed, Filed-same}
use mini_lmk.Tables.Reconciled.{Covered, SumsAreHonest, Covers, contains-append, scan_apps-Covers}

lookup-drop_pids :
    (q : ℕ) (ds : List ℕ) (m : Map ℕ Text)
    → lookup q (drop_pids ds m) ≡ (if contains q ds then none else lookup q m)
unfolding drop_pids contains
lookup-drop_pids q [] m = refl
lookup-drop_pids q (x ∷ ds) m =
    ground (arith, lookup-drop_pids q ds (remove x m), lookup-remove x q m)

pub lookup-drop_pkgs :
    (p : Text) (ps : List Text) (m : Map Text (List ℕ))
    → lookup p (drop_pkgs ps m) ≡ (if contains p ps then none else lookup p m)
unfolding drop_pkgs contains
lookup-drop_pkgs p [] m = refl
lookup-drop_pkgs p (x ∷ ps) m =
    ground (arith, lookup-drop_pkgs p ps (remove x m), lookup-remove x p m)

pub pids_of-lookup :
    (d : DaemonState) (p : Text) → pids_of d p ≡ pids_or_none (lookup p d.pkg_to_pids)
pids_of-lookup d p = elim (Option-cases (lookup p d.pkg_to_pids)) [
  | inl e ↦ rw (e, pids_of) refl
  | inr (ps, e) ↦ rw (e, pids_of) refl
]

All-contains :
    (P : Text → Type 0) (p : Text) (xs : List Text) → All P xs → contains p xs ≡ true → P p
unfolding contains
All-contains P p [] h c = ground (arith, c)
All-contains P p (x ∷ xs) h c = elim (Bool-cases (text_beq x p)) [
  | inl e ↦ subst P ((text_beq_iff x p).0 e) h.0
  | inr e ↦ All-contains P p xs h.1 (ground (arith, c, e))
]

no_pid : (q : ℕ) → contains q [] ≡ true → ⊥
unfolding contains
no_pid q h = ground (arith, h)

contains-retain :
    (q : ℕ) (keep : ℕ → Bool) (xs : List ℕ)
    → contains q xs ≡ true
    → keep q ≡ true
    → contains q (retain keep xs) ≡ true
unfolding contains
contains-retain q keep [] h k = ground (arith, h)
contains-retain q keep (x ∷ xs) h k = elim (Bool-cases (x == q)) [
  | inl e ↦
      let same : keep x ≡ true = subst (λ y. keep y ≡ true) (sym ((==_iff x q).0 e)) k in
      rw (same, e) refl
  | inr e ↦
      let more = contains-retain q keep xs (ground (arith, h, e)) k in
      if_keeps (λ ys. contains q ys ≡ true) (keep x) _ _ (ground (arith, more)) more
]

-- What one candidate keeps.
kept :
    (q : ℕ) (p : Text) (c : Candidate) (m : Map Text (List ℕ))
    → (not (text_beq c.pkg p) || contains q c.live_pids) ≡ true
    → contains q (pids_or_none (lookup p m)) ≡ true
    → contains q (pids_or_none (lookup p (modify c.pkg (retain (λ x. contains x c.live_pids)) m)))
      ≡ true
kept q p c m a h = elim (Bool-cases (text_beq c.pkg p)) [
  | inr e ↦ rw (lookup-modify c.pkg p (retain (λ x. contains x c.live_pids)) m, e) h
  | inl e ↦ elim (Option-cases (lookup p m)) [
    | inl f ↦ elim (no_pid q (rw f at h)) [ ]
    | inr (ps, f) ↦
        rw (lookup-modify c.pkg p (retain (λ x. contains x c.live_pids)) m, e, f)
          (contains-retain q (λ x. contains x c.live_pids) ps (rw f at h) (ground (arith, a, e)))
  ]
]

-- A package with a process that did not die is none of the dead ones.
alive_pkg :
    (d : DaemonState) (s : Scan) (q : ℕ) (p : Text)
    → contains q s.dead_pids ≡ false
    → contains q (pids_of d p) ≡ true
    → Covers d s
    → contains p s.dead_pkgs ≡ false
alive_pkg d s q p n own c = elim (Bool-cases (contains p s.dead_pkgs)) [
  | inr e ↦ e
  | inl e ↦
      let all_dead =
        All-contains (λ x. Covered (pids_of d x) s.dead_pids) p s.dead_pkgs c.dead e q in
      ground (arith, all_dead, n, own)
]

-- A process of a package that every candidate of this package has among its live ones stays filed.
keep_live-keeps :
    (q : ℕ) (p : Text) (cs : List Candidate) (m : Map Text (List ℕ))
    → All (λ c. (not (text_beq c.pkg p) || contains q c.live_pids) ≡ true) cs
    → contains q (pids_or_none (lookup p m)) ≡ true
    → contains q (pids_or_none (lookup p (keep_live cs m))) ≡ true
unfolding keep_live
keep_live-keeps q p [] m a h = h
keep_live-keeps q p (c ∷ cs) m a h =
    keep_live-keeps q p cs (modify c.pkg (retain (λ x. contains x c.live_pids)) m) a.1
      (kept q p c m a.0 h)

-- The candidates of a scan keep the living among their processes.
cands_keep :
    (d : DaemonState) (dead : List ℕ) (q : ℕ) (p : Text) (cs : List Candidate)
    → contains q dead ≡ false
    → contains q (pids_of d p) ≡ true
    → All (λ c. Covered (pids_of d c.pkg) (c.live_pids ++ dead)) cs
    → All (λ c. (not (text_beq c.pkg p) || contains q c.live_pids) ≡ true) cs
cands_keep d dead q p [] n h a = tt
cands_keep d dead q p (c ∷ cs) n h a = (
  elim (Bool-cases (text_beq c.pkg p)) [
    | inr e ↦ ground (arith, e)
    | inl e ↦
        let own : contains q (pids_of d c.pkg) ≡ true =
          subst (λ x. contains q (pids_of d x) ≡ true) (sym ((text_beq_iff c.pkg p).0 e)) h in
        ground (arith, a.0 q, own, n, contains-append q c.live_pids dead)
  ],
  cands_keep d dead q p cs n h a.1,
)

reconcile-Filed : (d : DaemonState) (s : Scan) → Covers d s → Filed d → Filed (reconcile s d)
unfolding reconcile
reconcile-Filed d s c h q = elim (Bool-cases (contains q s.dead_pids)) [
  | inl e ↦ rw (lookup-drop_pids q s.dead_pids d.pid_to_pkg, e) refl
  | inr e ↦ elim (Option-cases (lookup q d.pid_to_pkg)) [
    | inl f ↦ rw (lookup-drop_pids q s.dead_pids d.pid_to_pkg, e, f) refl
    | inr (p, f) ↦
        let filed_q = h q in
        let owned : contains q (pids_or_none (lookup p d.pkg_to_pids)) ≡ true = rw f at filed_q in
        let own : contains q (pids_of d p) ≡ true = rw (pids_of-lookup d p) owned in
        rw (lookup-drop_pids q s.dead_pids d.pid_to_pkg, e, f)
          (keep_live-keeps q p s.candidates (drop_pkgs s.dead_pkgs d.pkg_to_pids)
            (cands_keep d s.dead_pids q p s.candidates e own c.cands)
            (rw (lookup-drop_pkgs p s.dead_pkgs d.pkg_to_pids, alive_pkg d s q p e own c) owned))
  ]
]

pub attempt_kill-tables :
    (w : World) (k : ℕ) (c : Candidate) (adj : ℤ) (protected : Bool) (d : DaemonState)
    → ((attempt_kill w k c adj protected d).0.pid_to_pkg ≡ d.pid_to_pkg)
      × ((attempt_kill w k c adj protected d).0.pkg_to_pids ≡ d.pkg_to_pids)
unfolding books
attempt_kill-tables w k c adj protected d =
    let b = attempt_kill-books w k c adj protected d in
    (ap (λ x. x.pid_to_pkg) b, ap (λ x. x.pkg_to_pids) b)

settle-Filed :
    (protected : Bool) (pkg : Text) (now : ℕ) (d : DaemonState)
    → Filed d
    → Filed (settle protected pkg now d)
unfolding settle
settle-Filed true pkg now d h = h
settle-Filed false pkg now d h = h

dispatch_candidate-Filed :
    (w : World) (k : ℕ) (c : Candidate) (now : ℕ) (adj : ℤ) (protected is_game is_low_mem : Bool)
    (d : DaemonState)
    → Filed d
    → Filed (dispatch_candidate w k c now adj protected is_game is_low_mem d)
unfolding dispatch_candidate
dispatch_candidate-Filed w k c now adj protected is_game is_low_mem d h =
    let t = attempt_kill-tables w k c adj protected d in
    let (d', errno, method) = attempt_kill w k c adj protected d in
    let r =
      kill_record c now adj d.act_mode protected (reason_of is_game is_low_mem) errno method in
    let e = perform flush (perform (emit (kill_decision r)) d') in
    settle-Filed protected c.pkg now e (Filed-same d e t.0 t.1 h)

dispatch_all-Filed :
    (w : World) (now k : ℕ) (is_game is_low_mem : Bool) (cs : List Candidate) (d : DaemonState)
    → Filed d
    → Filed (dispatch_all w now k is_game is_low_mem cs d)
unfolding dispatch_all handle_candidate
dispatch_all-Filed w now k is_game is_low_mem [] d h = h
dispatch_all-Filed w now k is_game is_low_mem (c ∷ cs) d h =
    dispatch_all-Filed w now (suc k) is_game is_low_mem cs
      (handle_candidate w now k is_game is_low_mem c d)
      (dispatch_candidate-Filed w k c now _ _ is_game is_low_mem d h)

-- Where the sums of the resident sets of a package do not wrap around to 0: if every process that the
-- first table gives to a package stands among the processes of that package, so it is behind a pass.
pub evaluate-Filed :
    (w : World) (now : ℕ) (d : DaemonState)
    → SumsAreHonest w d
    → Filed d
    → Filed (evaluate_reaping_pipeline w now d)
unfolding evaluate_reaping_pipeline scan_candidates scan_loop
evaluate-Filed w now d honest h =
    let is_game = fg_is_game d in
    let is_low_mem = low_mem w d in
    let s = scan_loop w d now is_game is_low_mem in
    let c : Covers d s =
      scan_apps-Covers w d honest now _ _ d.alive_apps empty_scan
        (record { dead = tt; cands = tt }) in
    dispatch_all-Filed w now 0 is_game is_low_mem
      (take d.config.max_kills_per_pass (scan_candidates w d now is_game is_low_mem).0)
      (reconcile s d) (reconcile-Filed d s c h)
