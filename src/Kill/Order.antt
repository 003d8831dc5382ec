-- ===== src/Kill/Order.antt =====
-- src/kill.rs, the end of `scan_candidates`: the sort, and the candidates that leave the scan.
use mathlib.Core.List.{Perm}
use mathlib.Core.List.Perm
use mini_lmk.Base.{
  ℕ, ◌≤◌, Bool, refl, subst, List, [], ◌∷◌, arith, leb, leb→le, Bool-cases, inl, inr, All, In, Text,
}
use mini_lmk.State.{DaemonState, Candidate, World}
use mini_lmk.Kill.Window.{effective_lru_depth, t_idle_effective_sec}
use mini_lmk.Kill.Scan.{sorted_insert, sort_by_rss, scan_loop, scan_candidates, empty_scan}
use mini_lmk.Kill.Eligible.{Eligible, Passes, candidate_for, scan_apps-Eligible, scan_apps_complete}

abbrev AtMost : ℕ → Candidate → Type 0
AtMost n c = c.total_rss_kb ≤ n

-- Each candidate is at least as heavy as all those behind it.
abbrev pub Descending : List Candidate → Type 0
Descending [] = Unit
Descending (c ∷ cs) = All (AtMost c.total_rss_kb) cs × Descending cs

AtMost-weaken : (n m : ℕ) (cs : List Candidate) → n ≤ m → All (AtMost n) cs → All (AtMost m) cs
AtMost-weaken n m [] h a = tt
AtMost-weaken n m (c ∷ cs) h a = (omega arith, AtMost-weaken n m cs h a.1)

module _ (P : Candidate → Type 0) where
  All-sorted_insert :
      (c : Candidate) (cs : List Candidate) → P c → All P cs → All P (sorted_insert c cs)
  unfolding sorted_insert
  All-sorted_insert c [] p h = (p, tt)
  All-sorted_insert c (x ∷ xs) p h = elim (Bool-cases (leb x.total_rss_kb c.total_rss_kb)) [
    | inl e ↦ rw e (p, h)
    | inr e ↦ rw e (h.0, All-sorted_insert c xs p h.1)
  ]

  pub All-sort_by_rss : (cs : List Candidate) → All P cs → All P (sort_by_rss cs)
  unfolding sort_by_rss
  All-sort_by_rss [] h = tt
  All-sort_by_rss (c ∷ cs) h = All-sorted_insert c (sort_by_rss cs) h.0 (All-sort_by_rss cs h.1)

In-sorted_insert_head : (c : Candidate) (cs : List Candidate) → In c (sorted_insert c cs)
unfolding sorted_insert
In-sorted_insert_head c [] = inl refl
In-sorted_insert_head c (x ∷ xs) = elim (Bool-cases (leb x.total_rss_kb c.total_rss_kb)) [
  | inl e ↦ rw e (inl refl)
  | inr e ↦ rw e (inr (In-sorted_insert_head c xs))
]

In-sorted_insert : (a c : Candidate) (cs : List Candidate) → In a cs → In a (sorted_insert c cs)
unfolding sorted_insert
In-sorted_insert a c [] i = elim i [ ]
In-sorted_insert a c (x ∷ xs) (inl e) = elim (Bool-cases (leb x.total_rss_kb c.total_rss_kb)) [
  | inl t ↦ rw t (inr (inl e))
  | inr t ↦ rw t (inl e)
]
In-sorted_insert a c (x ∷ xs) (inr i) = elim (Bool-cases (leb x.total_rss_kb c.total_rss_kb)) [
  | inl t ↦ rw t (inr (inr i))
  | inr t ↦ rw t (inr (In-sorted_insert a c xs i))
]

pub In-sort_by_rss : (a : Candidate) (cs : List Candidate) → In a cs → In a (sort_by_rss cs)
unfolding sort_by_rss
In-sort_by_rss a [] i = elim i [ ]
In-sort_by_rss a (c ∷ cs) (inl e) =
    subst (λ x. In a (sorted_insert x (sort_by_rss cs))) e
      (In-sorted_insert_head a (sort_by_rss cs))
In-sort_by_rss a (c ∷ cs) (inr i) = In-sorted_insert a c (sort_by_rss cs) (In-sort_by_rss a cs i)

sorted_insert-perm : (c : Candidate) (cs : List Candidate) → Perm (sorted_insert c cs) (c ∷ cs)
unfolding sorted_insert
sorted_insert-perm c [] = Perm.refl (c ∷ [])
sorted_insert-perm c (x ∷ xs) = elim (Bool-cases (leb x.total_rss_kb c.total_rss_kb)) [
  | inl e ↦ rw e (Perm.refl (c ∷ x ∷ xs))
  | inr e ↦ rw e (Perm.trans (Perm.cons x (sorted_insert-perm c xs)) (Perm.swap c x xs))
]

sort_by_rss-perm : (cs : List Candidate) → Perm (sort_by_rss cs) cs
unfolding sort_by_rss
sort_by_rss-perm [] = Perm.refl []
sort_by_rss-perm (c ∷ cs) =
    Perm.trans (sorted_insert-perm c (sort_by_rss cs)) (Perm.cons c (sort_by_rss-perm cs))

sorted_insert-Descending :
    (c : Candidate) (cs : List Candidate) → Descending cs → Descending (sorted_insert c cs)
unfolding sorted_insert
sorted_insert-Descending c [] h = (tt, tt)
sorted_insert-Descending c (x ∷ xs) h = elim (Bool-cases (leb x.total_rss_kb c.total_rss_kb)) [
  | inl e ↦
      let le = leb→le _ _ e in rw e ((le, AtMost-weaken x.total_rss_kb c.total_rss_kb xs le h.0), h)
  | inr e ↦ rw e (
    All-sorted_insert (AtMost x.total_rss_kb) c xs (ground arith) h.0,
    sorted_insert-Descending c xs h.1,
  )
]

sort_by_rss-Descending : (cs : List Candidate) → Descending (sort_by_rss cs)
unfolding sort_by_rss
sort_by_rss-Descending [] = tt
sort_by_rss-Descending (c ∷ cs) =
    sorted_insert-Descending c (sort_by_rss cs) (sort_by_rss-Descending cs)

module _ (w : World) (d : DaemonState) (now : ℕ) (is_game is_low_mem : Bool) where
  -- The candidates of a scan are a permutation of those that its loop collected, the heaviest first.
  pub scan_candidates-Descending :
      Descending (scan_candidates w d now is_game is_low_mem).0
      × Perm
          (scan_candidates w d now is_game is_low_mem).0
          (scan_loop w d now is_game is_low_mem).candidates
  unfolding scan_candidates
  scan_candidates-Descending =
      let found = (scan_loop w d now is_game is_low_mem).candidates in
      (sort_by_rss-Descending found, sort_by_rss-perm found)

  -- Every candidate of a scan is a package of `alive_apps` that is not excluded, stands behind the
  -- protected front of the LRU, has been idle long enough, and has a live process.
  pub scan_candidates-Eligible :
      All
        (Eligible w d now (effective_lru_depth d) (t_idle_effective_sec d now is_game is_low_mem))
        (scan_candidates w d now is_game is_low_mem).0
  unfolding scan_candidates scan_loop
  scan_candidates-Eligible =
      All-sort_by_rss _ _ (scan_apps-Eligible w d now _ _ d.alive_apps empty_scan (λ a i. i) tt)

  -- The scan misses none: a package of `alive_apps` that passes the tests is a candidate.
  pub scan_candidates_complete :
      (pkg : Text) (last_active : ℕ)
      → In (pkg, last_active) d.alive_apps
      → Passes w d now
          (effective_lru_depth d)
          (t_idle_effective_sec d now is_game is_low_mem)
          pkg
          last_active
      → In (candidate_for w d now pkg last_active) (scan_candidates w d now is_game is_low_mem).0
  unfolding scan_candidates scan_loop
  scan_candidates_complete pkg last_active i h =
      In-sort_by_rss _ _
        (scan_apps_complete w d now _ _ d.alive_apps empty_scan pkg last_active i h)
