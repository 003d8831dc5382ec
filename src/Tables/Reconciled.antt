-- ===== src/Tables/Reconciled.antt =====
-- src/kill.rs, `scan_candidates`: the two process tables behind the reconciliation of a scan.
use mini_lmk.Base.{
  ℕ, true, not, ◌||◌, ◌≡◌, refl, ◌∙◌, List, [], ◌∷◌, ◌++◌, ◌==◌, Text, text_eq, number_eq, arith,
  Bool-cases, inl, inr, if_keeps, is_empty, All, All-append, ltb,
}
use mini_lmk.Base.Map.{Map, contains}
use mini_lmk.State.{DaemonState, World, ProcFs, is_excluded}
use mini_lmk.Kill.Window.{seconds_since}
use mini_lmk.Kill.Scan.{
  Pids, position_from, scan_pid, scan_pids, pids_of, measure, Finding, skipped, exited, found,
  judge, examine, Scan, note, scan_apps,
}

-- Every process of the first list stands in the second.
abbrev pub Covered : List ℕ → List ℕ → Type 0
Covered xs ys = (q : ℕ) → (not (contains q xs) || contains q ys) ≡ true

pub contains-append :
    (q : ℕ) (xs ys : List ℕ) → contains q (xs ++ ys) ≡ (contains q xs || contains q ys)
unfolding contains
contains-append q [] ys = refl
contains-append q (x ∷ xs) ys = ground (arith, contains-append q xs ys)

scan_pid-covers :
    (proc : ProcFs) (page pid : ℕ) (p : Pids) (q : ℕ)
    → (contains q (scan_pid proc page pid p).live || contains q (scan_pid proc page pid p).dead)
      ≡ (pid == q || contains q p.live || contains q p.dead)
unfolding scan_pid contains
scan_pid-covers proc page pid p q =
    ground (arith, contains-append q p.live (pid ∷ []), contains-append q p.dead (pid ∷ []))

scan_pids-covers :
    (proc : ProcFs) (page : ℕ) (pids : List ℕ) (p : Pids) (q : ℕ)
    → (contains q (scan_pids proc page pids p).live || contains q (scan_pids proc page pids p).dead)
      ≡ (contains q pids || contains q p.live || contains q p.dead)
unfolding scan_pids contains
scan_pids-covers proc page [] p q = refl
scan_pids-covers proc page (pid ∷ pids) p q = ground (
  arith,
  scan_pids-covers proc page pids (scan_pid proc page pid p) q,
  scan_pid-covers proc page pid p q,
)

measure-covers :
    (w : World) (d : DaemonState) (pkg : Text) (q : ℕ)
    → (contains q (measure w d pkg).live || contains q (measure w d pkg).dead)
      ≡ contains q (pids_of d pkg)
unfolding measure contains
measure-covers w d pkg q = scan_pids-covers _ _ (pids_of d pkg) _ q ∙ ground arith

-- A package whose sum of resident sets is 0 has no live process: the sum does not wrap around to 0.
abbrev pub SumsAreHonest : World → DaemonState → Type 0
SumsAreHonest w d =
    (pkg : Text)
    → (is_empty (measure w d pkg).live || (measure w d pkg).total == 0)
      ≡ is_empty (measure w d pkg).live

-- What a scan knows of the processes of its packages.
pub record Covers (d : DaemonState) (s : Scan) : Type 0 where
  pub dead : All (λ pkg. Covered (pids_of d pkg) s.dead_pids) s.dead_pkgs
  pub cands : All (λ c. Covered (pids_of d c.pkg) (c.live_pids ++ s.dead_pids)) s.candidates

Covered-more : (xs ys zs : List ℕ) → Covered xs ys → Covered xs (ys ++ zs)
Covered-more xs ys zs h q = ground (arith, h q, contains-append q ys zs)

Covered-more_behind : (xs ls ys zs : List ℕ) → Covered xs (ls ++ ys) → Covered xs (ls ++ (ys ++ zs))
Covered-more_behind xs ls ys zs h q =
    ground (
      arith,
      h q,
      contains-append q ls ys,
      contains-append q ls (ys ++ zs),
      contains-append q ys zs,
    )

Covered-behind : (xs ys zs : List ℕ) → Covered xs zs → Covered xs (ys ++ zs)
Covered-behind xs ys zs h q = ground (arith, h q, contains-append q ys zs)

Covered-between : (xs ls ys zs : List ℕ) → Covered xs (ls ++ zs) → Covered xs (ls ++ (ys ++ zs))
Covered-between xs ls ys zs h q =
    ground (
      arith,
      h q,
      contains-append q ls zs,
      contains-append q ls (ys ++ zs),
      contains-append q ys zs,
    )

-- Without a live process, the dead ones are all.
dead_covers :
    (live dead pids : List ℕ) (q : ℕ)
    → is_empty live ≡ true
    → (contains q live || contains q dead) ≡ contains q pids
    → (not (contains q pids) || contains q dead) ≡ true
unfolding contains
dead_covers [] dead pids q e h = ground (arith, h)
dead_covers (x ∷ live) dead pids q e h = ground (arith, e)

-- What one turn of the loop knows.
abbrev Knows : DaemonState → Text → Finding → Type 0
Knows d pkg skipped = Unit
Knows d pkg (exited dead) = Covered (pids_of d pkg) dead
Knows d pkg (found c dead) = Covered (pids_of d c.pkg) (c.live_pids ++ dead)

module _ (w : World) (d : DaemonState) (honest : SumsAreHonest w d) where
  judge-Knows :
      (pkg : Text) (idle lru_pos : ℕ) → Knows d pkg (judge pkg idle lru_pos (measure w d pkg))
  unfolding judge
  judge-Knows pkg idle lru_pos =
      let p = measure w d pkg in
      elim (Bool-cases (is_empty p.live)) [
        | inl e ↦
            rw (honest pkg, e)
              (λ q. dead_covers p.live p.dead (pids_of d pkg) q e (measure-covers w d pkg q))
        | inr e ↦
            rw (honest pkg, e)
              (λ q. ground (arith, measure-covers w d pkg q, contains-append q p.live p.dead))
      ]

  examine-Knows :
      (now depth t_idle : ℕ) (pkg : Text) (last_active : ℕ)
      → Knows d pkg (examine w d now depth t_idle pkg last_active)
  unfolding examine
  examine-Knows now depth t_idle pkg last_active =
      if_keeps (Knows d pkg) (is_excluded d pkg) skipped _ tt (
        if_keeps (Knows d pkg) (ltb (position_from 0 pkg d.fg_lru) depth) skipped _ tt (
          if_keeps (Knows d pkg) (ltb (seconds_since now last_active) t_idle) skipped _ tt
            (judge-Knows pkg (seconds_since now last_active) (position_from 0 pkg d.fg_lru))))

  All-map :
      {A : Type 0} (P Q : A → Type 0) (xs : List A) → ((a : A) → P a → Q a) → All P xs → All Q xs
  All-map P Q [] f h = tt
  All-map P Q (x ∷ xs) f h = (f x h.0, All-map P Q xs f h.1)

  note-Covers :
      (pkg : Text) (f : Finding) (s : Scan) → Knows d pkg f → Covers d s → Covers d (note pkg f s)
  unfolding note
  note-Covers pkg skipped s k h = h
  note-Covers pkg (exited dead) s k h = record {
    dead =
        All-append (λ x. Covered (pids_of d x) (s.dead_pids ++ dead)) s.dead_pkgs (pkg ∷ [])
          (All-map _ _ s.dead_pkgs (λ x c. Covered-more (pids_of d x) s.dead_pids dead c) h.dead)
          (Covered-behind (pids_of d pkg) s.dead_pids dead k, tt);
    cands =
        All-map _ _ s.candidates
          (λ c k. Covered-more_behind (pids_of d c.pkg) c.live_pids s.dead_pids dead k) h.cands;
  }
  note-Covers pkg (found c dead) s k h = record {
    dead = All-map _ _ s.dead_pkgs (λ x c. Covered-more (pids_of d x) s.dead_pids dead c) h.dead;
    cands =
        All-append (λ x. Covered (pids_of d x.pkg) (x.live_pids ++ (s.dead_pids ++ dead)))
          s.candidates (c ∷ [])
          (All-map _ _ s.candidates
            (λ c k. Covered-more_behind (pids_of d c.pkg) c.live_pids s.dead_pids dead k) h.cands)
          (Covered-between (pids_of d c.pkg) c.live_pids s.dead_pids dead k, tt);
  }

  pub scan_apps-Covers :
      (now depth t_idle : ℕ) (apps : Map Text ℕ) (s : Scan)
      → Covers d s
      → Covers d (scan_apps w d now depth t_idle apps s)
  unfolding scan_apps
  scan_apps-Covers now depth t_idle [] s h = h
  scan_apps-Covers now depth t_idle ((pkg, last_active) ∷ apps) s h =
      scan_apps-Covers now depth t_idle apps
        (note pkg (examine w d now depth t_idle pkg last_active) s)
        (note-Covers pkg (examine w d now depth t_idle pkg last_active) s
          (examine-Knows now depth t_idle pkg last_active) h)
