-- ===== src/Kill/Eligible.antt =====
-- src/kill.rs, `scan_candidates`: which packages the scan returns.
use mini_lmk.Base.{
  ℕ, zero, suc, ◌+◌, ◌≤◌, ◌<◌, true, false, ◌≡◌, ◌≢◌, refl, sym, List, [], ◌∷◌, arith, All,
  All-append, In, In-append_left, In-append_right, subst, Text, text_beq, text_eq, Bool-cases, inl,
  inr, take,
}
use mini_lmk.Base.Map.{Map, contains}
use mini_lmk.State.{DaemonState, Candidate, World, is_excluded}
use mini_lmk.Kill.Window.{seconds_since}
use mini_lmk.Kill.Scan.{
  position_from, Pids, measure, Finding, skipped, exited, found, judge, examine, Scan, note,
  scan_apps,
}

-- What the scan has verified of a candidate, against the state at the start of the pass.
pub record Eligible (w : World) (d : DaemonState) (now depth t_idle : ℕ) (c : Candidate)
    : Type 0 where
  pub last_active : ℕ
  pub alive : In (c.pkg, last_active) d.alive_apps
  pub not_excluded : is_excluded d c.pkg ≡ false
  pub pos_is : c.lru_pos ≡ position_from 0 c.pkg d.fg_lru
  pub beyond_lru : depth ≤ c.lru_pos
  pub idle_is : c.idle_sec ≡ seconds_since now last_active
  pub idle_enough : t_idle ≤ c.idle_sec
  pub live_is : c.live_pids ≡ (measure w d c.pkg).live
  pub rss_is : c.total_rss_kb ≡ (measure w d c.pkg).total
  pub live_ne_nil : c.live_pids ≢ []
  pub rss_pos : 0 < c.total_rss_kb

-- The candidate that the loop builds.
abbrev pub candidate_for : World → DaemonState → ℕ → Text → ℕ → Candidate
candidate_for w d now pkg last_active = record {
  pkg = pkg;
  live_pids = (measure w d pkg).live;
  total_rss_kb = (measure w d pkg).total;
  idle_sec = seconds_since now last_active;
  lru_pos = position_from 0 pkg d.fg_lru;
}

judge-found :
    (pkg : Text) (idle lru_pos : ℕ) (p : Pids) {c : Candidate} {dead : List ℕ}
    → judge pkg idle lru_pos p ≡ found c dead
    → (c ≡ record {
      pkg = pkg;
      live_pids = p.live;
      total_rss_kb = p.total;
      idle_sec = idle;
      lru_pos = lru_pos;
    })
      × (p.live ≢ [])
      × (0 < p.total)
unfolding judge
judge-found pkg idle lru_pos p h = (ground arith, ground arith, ground arith)

module _ (w : World) (d : DaemonState) (now depth t_idle : ℕ) where
  examine-found :
      (pkg : Text) (last_active : ℕ) {c : Candidate} {dead : List ℕ}
      → examine w d now depth t_idle pkg last_active ≡ found c dead
      → (is_excluded d pkg ≡ false)
        × (depth ≤ position_from 0 pkg d.fg_lru)
        × (t_idle ≤ seconds_since now last_active)
        × (judge pkg
              (seconds_since now last_active)
              (position_from 0 pkg d.fg_lru)
              (measure w d pkg)
            ≡ found c dead)
  unfolding examine
  examine-found pkg last_active h = (ground arith, ground arith, ground arith, ground arith)

  examine-Eligible :
      (pkg : Text) (last_active : ℕ) (c : Candidate) (dead : List ℕ)
      → In (pkg, last_active) d.alive_apps
      → examine w d now depth t_idle pkg last_active ≡ found c dead
      → Eligible w d now depth t_idle c
  examine-Eligible pkg last_active c dead alive h =
      let f = examine-found pkg last_active h in
      let j = judge-found pkg _ _ (measure w d pkg) f.3 in
      subst (Eligible w d now depth t_idle) (sym j.0) (record {
        last_active = last_active;
        alive = alive;
        not_excluded = f.0;
        pos_is = refl;
        beyond_lru = f.1;
        idle_is = refl;
        idle_enough = f.2;
        live_is = refl;
        rss_is = refl;
        live_ne_nil = j.1;
        rss_pos = j.2;
      })

  note-Eligible :
      (pkg : Text) (last_active : ℕ) (s : Scan)
      → In (pkg, last_active) d.alive_apps
      → All (Eligible w d now depth t_idle) s.candidates
      → (f : Finding) → examine w d now depth t_idle pkg last_active ≡ f
      → All (Eligible w d now depth t_idle) (note pkg f s).candidates
  unfolding note
  note-Eligible pkg last_active s alive h skipped e = h
  note-Eligible pkg last_active s alive h (exited dead) e = h
  note-Eligible pkg last_active s alive h (found c dead) e =
      All-append _ s.candidates (c ∷ []) h (examine-Eligible pkg last_active c dead alive e, tt)

  pub scan_apps-Eligible :
      (apps : Map Text ℕ) (s : Scan)
      → ((a : Text × ℕ) → In a apps → In a d.alive_apps)
      → All (Eligible w d now depth t_idle) s.candidates
      → All (Eligible w d now depth t_idle) (scan_apps w d now depth t_idle apps s).candidates
  unfolding scan_apps
  scan_apps-Eligible [] s sub h = h
  scan_apps-Eligible ((pkg, last_active) ∷ apps) s sub h =
      scan_apps-Eligible apps _ (λ a i. sub a (inr i))
        (note-Eligible pkg last_active s (sub _ (inl refl)) h _ refl)

  -- Completeness: a package that passes every test is among the candidates.
  note-keeps :
      (pkg : Text) (f : Finding) (s : Scan) (c : Candidate)
      → In c s.candidates
      → In c (note pkg f s).candidates
  unfolding note
  note-keeps pkg skipped s c i = i
  note-keeps pkg (exited dead) s c i = i
  note-keeps pkg (found x dead) s c i = In-append_left c s.candidates (x ∷ []) i

  scan_apps-keeps :
      (apps : Map Text ℕ) (s : Scan) (c : Candidate)
      → In c s.candidates
      → In c (scan_apps w d now depth t_idle apps s).candidates
  unfolding scan_apps
  scan_apps-keeps [] s c i = i
  scan_apps-keeps ((pkg, last_active) ∷ apps) s c i =
      scan_apps-keeps apps _ c (note-keeps pkg _ s c i)

  -- The tests of one turn of the loop, all passed.
  pub record Passes (pkg : Text) (last_active : ℕ) : Type 0 where
    pub not_excluded : is_excluded d pkg ≡ false
    pub beyond_lru : depth ≤ position_from 0 pkg d.fg_lru
    pub idle_enough : t_idle ≤ seconds_since now last_active
    pub live_ne_nil : (measure w d pkg).live ≢ []
    pub rss_pos : 0 < (measure w d pkg).total

  examine-Passes :
      (pkg : Text) (last_active : ℕ)
      → Passes pkg last_active
      → examine w d now depth t_idle pkg last_active
        ≡ found (candidate_for w d now pkg last_active) (measure w d pkg).dead
  unfolding examine
  examine-Passes pkg last_active h = ground arith

  note-found :
      (pkg : Text) (last_active : ℕ) (s : Scan)
      → Passes pkg last_active
      → In
          (candidate_for w d now pkg last_active)
          (note pkg (examine w d now depth t_idle pkg last_active) s).candidates
  unfolding note
  note-found pkg last_active s h =
      rw (examine-Passes pkg last_active h) (In-append_right _ s.candidates _ (inl refl))

  pub scan_apps_complete :
      (apps : Map Text ℕ) (s : Scan) (pkg : Text) (last_active : ℕ)
      → In (pkg, last_active) apps
      → Passes pkg last_active
      → In
          (candidate_for w d now pkg last_active)
          (scan_apps w d now depth t_idle apps s).candidates
  unfolding scan_apps
  scan_apps_complete [] s pkg last_active i h = elim i [ ]
  scan_apps_complete (a ∷ apps) s pkg last_active (inl same) h =
      subst
        (λ q.
          In (candidate_for w d now pkg last_active)
            (scan_apps w d now depth t_idle (q ∷ apps) s).candidates)
        same (scan_apps-keeps apps _ _ (note-found pkg last_active s h))
  scan_apps_complete ((p, la) ∷ apps) s pkg last_active (inr i) h =
      scan_apps_complete apps _ pkg last_active i h

-- A package within the first `n` of a list has a position below `n`.
position_from-lt :
    (pkg : Text) (xs : List Text) (i n : ℕ)
    → contains pkg (take n xs) ≡ true
    → position_from i pkg xs < i + n
unfolding position_from contains
position_from-lt pkg xs i zero h = cc
position_from-lt pkg [] i (suc n) h = cc
position_from-lt pkg (x ∷ xs) i (suc n) h = elim (Bool-cases (text_beq x pkg)) [
  | inl e ↦ rw e (omega arith)
  | inr e ↦ rw e (omega (arith, position_from-lt pkg xs (suc i) n (ground arith)))
]

-- A candidate is none of the packages at the protected front of the LRU.
pub Eligible-spares :
    (w : World) (d : DaemonState) (now depth t_idle : ℕ) (c : Candidate)
    → Eligible w d now depth t_idle c
    → contains c.pkg (take depth d.fg_lru) ≡ false
Eligible-spares w d now depth t_idle c h =
    elim (Bool-cases (contains c.pkg (take depth d.fg_lru))) [
      | inl e ↦
          absurd (omega (arith, position_from-lt c.pkg d.fg_lru 0 depth e, h.pos_is, h.beyond_lru))
      | inr e ↦ e
    ]
