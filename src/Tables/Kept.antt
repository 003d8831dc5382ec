-- ===== src/Tables/Kept.antt =====
-- src/kill.rs, `evaluate_reaping_pipeline`, and src/events.rs: the invariant of the process tables, and
-- the steps that keep it.
use mini_lmk.Base.{
  ℕ, suc, Bool, true, false, ◌≡◌, refl, sym, subst, ◌∙◌, ap, List, [], ◌∷◌, Text, text_eq, text_beq,
  number_eq, Bool-cases, Option-cases, inl, inr, take, ℤ,
}
use mini_lmk.Base.Map.{Map, lookup, insert, modify, contains, lookup-insert, lookup-modify}
use mini_lmk.State.{DaemonState, Candidate, World, Moment}
use mini_lmk.Events.Process.{pids_or_none}
use mini_lmk.Kill.Scan.{scan_loop, scan_candidates, drop_pkgs, keep_live, reconcile}
use mini_lmk.Kill.Dispatch.{settle, dispatch_candidate}
use mini_lmk.Kill.Pass.{
  handle_candidate, dispatch_all, evaluate_reaping_pipeline, fg_is_game, low_mem,
}
use mini_lmk.Kill.Effects.{evaluate-Allowed}
use mini_lmk.Tables.{Filed, Filed-same}
use mini_lmk.Tables.Pass.{lookup-drop_pkgs, pids_of-lookup, attempt_kill-tables, evaluate-Filed}
use mini_lmk.Tables.Sums.{Neat, Neat-retain, Resident, Sets, Sets-honest}

-- Every process that the first table gives to a package stands among the processes of that package,
-- which are a set of numbers of 32 bits; and the size of a page stays.
pub record Tabled (page : ℕ) (d : DaemonState) : Type 0 where
  pub filed : Filed d
  pub sets : Sets d
  pub page_is : d.page_size_kb ≡ page

abbrev pub SameTables : DaemonState → DaemonState → Type 0
SameTables d e =
    (e.pid_to_pkg ≡ d.pid_to_pkg)
    × (e.pkg_to_pids ≡ d.pkg_to_pids)
    × (e.page_size_kb ≡ d.page_size_kb)

abbrev pub SetsIn : Map Text (List ℕ) → Type 0
SetsIn m = (pkg : Text) → Neat (pids_or_none (lookup pkg m))

pub SetsIn-Sets : (d : DaemonState) → SetsIn d.pkg_to_pids → Sets d
SetsIn-Sets d h pkg = subst Neat (sym (pids_of-lookup d pkg)) (h pkg)

pub Sets-SetsIn : (d : DaemonState) → Sets d → SetsIn d.pkg_to_pids
Sets-SetsIn d h pkg = subst Neat (pids_of-lookup d pkg) (h pkg)

pub Tabled-same : (page : ℕ) (d e : DaemonState) → SameTables d e → Tabled page d → Tabled page e
Tabled-same page d e (o, p, s) h = record {
  filed = Filed-same d e o p h.filed;
  sets = SetsIn-Sets e (subst SetsIn (sym p) (Sets-SetsIn d h.sets));
  page_is = s ∙ h.page_is;
}

no_pids : Neat []
no_pids = (tt, tt)

pub SetsIn-insert :
    (pkg : Text) (pids : List ℕ) (m : Map Text (List ℕ))
    → Neat pids
    → SetsIn m
    → SetsIn (insert pkg pids m)
SetsIn-insert pkg pids m n h p = elim (Bool-cases (text_beq pkg p)) [
  | inl e ↦ rw (lookup-insert pkg p pids m, e) n
  | inr e ↦ rw (lookup-insert pkg p pids m, e) (h p)
]

pub SetsIn-modify :
    (pkg : Text) (f : List ℕ → List ℕ) (m : Map Text (List ℕ))
    → ((xs : List ℕ) → Neat xs → Neat (f xs))
    → SetsIn m
    → SetsIn (modify pkg f m)
SetsIn-modify pkg f m n h p = elim (Bool-cases (text_beq pkg p)) [
  | inr e ↦ rw (lookup-modify pkg p f m, e) (h p)
  | inl e ↦ elim (Option-cases (lookup p m)) [
    | inl g ↦ rw (lookup-modify pkg p f m, e, g) no_pids
    | inr (ps, g) ↦
        rw (lookup-modify pkg p f m, e, g) (n ps (subst (λ o. Neat (pids_or_none o)) g (h p)))
  ]
]

SetsIn-drop_pkgs : (pkgs : List Text) (m : Map Text (List ℕ)) → SetsIn m → SetsIn (drop_pkgs pkgs m)
SetsIn-drop_pkgs pkgs m h p = elim (Bool-cases (contains p pkgs)) [
  | inl e ↦ rw (lookup-drop_pkgs p pkgs m, e) no_pids
  | inr e ↦ rw (lookup-drop_pkgs p pkgs m, e) (h p)
]

SetsIn-keep_live :
    (cs : List Candidate) (m : Map Text (List ℕ)) → SetsIn m → SetsIn (keep_live cs m)
unfolding keep_live
SetsIn-keep_live [] m h = h
SetsIn-keep_live (c ∷ cs) m h =
    SetsIn-keep_live cs _ (SetsIn-modify c.pkg _ m (Neat-retain (λ x. contains x c.live_pids)) h)

settle-pids :
    (protected : Bool) (pkg : Text) (now : ℕ) (d : DaemonState)
    → (settle protected pkg now d).pkg_to_pids ≡ d.pkg_to_pids
unfolding settle
settle-pids true pkg now d = refl
settle-pids false pkg now d = refl

dispatch_candidate-pids :
    (w : World) (k : ℕ) (c : Candidate) (now : ℕ) (adj : ℤ) (protected is_game is_low_mem : Bool)
    (d : DaemonState)
    → (dispatch_candidate w k c now adj protected is_game is_low_mem d).pkg_to_pids ≡ d.pkg_to_pids
unfolding dispatch_candidate
dispatch_candidate-pids w k c now adj protected is_game is_low_mem d =
    settle-pids protected c.pkg now _ ∙ (attempt_kill-tables w k c adj protected d).1

dispatch_all-pids :
    (w : World) (now k : ℕ) (is_game is_low_mem : Bool) (cs : List Candidate) (d : DaemonState)
    → (dispatch_all w now k is_game is_low_mem cs d).pkg_to_pids ≡ d.pkg_to_pids
unfolding dispatch_all handle_candidate
dispatch_all-pids w now k is_game is_low_mem [] d = refl
dispatch_all-pids w now k is_game is_low_mem (c ∷ cs) d =
    dispatch_all-pids w now (suc k) is_game is_low_mem cs
      (handle_candidate w now k is_game is_low_mem c d)
    ∙ dispatch_candidate-pids w k c now _ _ is_game is_low_mem d

evaluate-SetsIn :
    (w : World) (now : ℕ) (d : DaemonState)
    → SetsIn d.pkg_to_pids
    → SetsIn (evaluate_reaping_pipeline w now d).pkg_to_pids
unfolding evaluate_reaping_pipeline scan_candidates reconcile
evaluate-SetsIn w now d h =
    let is_game = fg_is_game d in
    let is_low_mem = low_mem w d in
    let s = scan_loop w d now is_game is_low_mem in
    subst SetsIn
      (sym (
        dispatch_all-pids w now 0 is_game is_low_mem
          (take d.config.max_kills_per_pass (scan_candidates w d now is_game is_low_mem).0)
          (reconcile s d)))
      (SetsIn-keep_live s.candidates _ (SetsIn-drop_pkgs s.dead_pkgs d.pkg_to_pids h))

pub evaluate-Tabled :
    (page : ℕ) (w : World) (now : ℕ) (d : DaemonState)
    → ((m : Moment) → Resident (w.proc m) page)
    → Tabled page d
    → Tabled page (evaluate_reaping_pipeline w now d)
evaluate-Tabled page w now d r h =
    let e = evaluate_reaping_pipeline w now d in
    let r' = subst (λ n. (m : Moment) → Resident (w.proc m) n) (sym h.page_is) r in
    record {
      filed = evaluate-Filed w now d (Sets-honest w d r' h.sets) h.filed;
      sets = SetsIn-Sets e (evaluate-SetsIn w now d (Sets-SetsIn d h.sets));
      page_is = ap (λ x. x.page_size_kb) (evaluate-Allowed w now d).frame ∙ h.page_is;
    }
