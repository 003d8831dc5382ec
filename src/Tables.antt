-- ===== src/Tables.antt =====
-- src/events.rs and src/daemon.rs: the two process tables against each other.
pub mod Processes
pub mod Reconciled
pub mod Pass
pub mod Sums
pub mod Kept
pub mod Events
use mini_lmk.Base.{
  ℕ, Bool, true, false, not, ◌&&◌, ◌≡◌, refl, sym, ◌∙◌, Option, none, some, List, [], ◌∷◌, ◌==◌,
  if◌then◌else◌, Text, text_eq, number_eq, text_beq, text_beq_iff, subst, arith, Bool-cases,
  Option-cases, inl, inr, if_keeps, map_or, is_empty,
}
use mini_lmk.Base.Map.{
  Map, lookup, insert, remove, modify, add, discard, contains, lookup-insert, lookup-remove,
  lookup-modify, contains-add, contains-discard, beq_refl,
}
use mini_lmk.Procfs.{read_statm_rss_kb}
use mini_lmk.Text.Number.{parse_u32}
use mini_lmk.State.{DaemonState, World, on_arrival, is_pkg}
use mini_lmk.Events.Process.{
  ProcStartEvent, ProcDiedEvent, pids_or_none, index_process, count_spawn, note_intrusion,
  note_respawn, track_respawn, register_process, unlink, count_death, record_death, forget_process,
  on_proc_died, is_top,
}
use mini_lmk.Startup.Seed.{
  ProcEntry, entry_pkg, index_running, index_with, seed_entry, seed_initial_state,
}

-- A process that the first table gives to a package stands among the processes of that package in the
-- second.
abbrev pub filed : Map ℕ Text → Map Text (List ℕ) → ℕ → Bool
filed owners pids q =
    map_or (lookup q owners) true (λ pkg. contains q (pids_or_none (lookup pkg pids)))

abbrev pub Filed : DaemonState → Type 0
Filed d = (q : ℕ) → filed d.pid_to_pkg d.pkg_to_pids q ≡ true

-- What `filed` asks of one package, behind the addition of another process to some package.
filed_in :
    (pid : ℕ) (pkg : Text) (pids : Map Text (List ℕ)) (q : ℕ) (p : Text)
    → pid == q ≡ false
    → contains q (pids_or_none (lookup p pids)) ≡ true
    → contains q
        (pids_or_none (lookup p (insert pkg (add pid (pids_or_none (lookup pkg pids))) pids)))
      ≡ true
filed_in pid pkg pids q p e h = elim (Bool-cases (text_beq pkg p)) [
  | inr g ↦ rw (lookup-insert pkg p (add pid (pids_or_none (lookup pkg pids))) pids, g) h
  | inl g ↦
      rw
        (
          lookup-insert pkg p (add pid (pids_or_none (lookup pkg pids))) pids,
          g,
          contains-add pid q (pids_or_none (lookup pkg pids)),
          e,
        )
        (subst (λ x. contains q (pids_or_none (lookup x pids)) ≡ true)
          (sym ((text_beq_iff pkg p).0 g)) h)
]

-- And behind the removal of another process from some package.
discarded_in :
    (pid : ℕ) (pkg : Text) (ps : List ℕ) (pids : Map Text (List ℕ)) (q : ℕ) (p : Text)
    → pid == q ≡ false
    → lookup pkg pids ≡ some ps
    → contains q (pids_or_none (lookup p pids)) ≡ true
    → contains q (pids_or_none (lookup p (modify pkg (λ _. discard pid ps) pids))) ≡ true
discarded_in pid pkg ps pids q p e k h = elim (Bool-cases (text_beq pkg p)) [
  | inr g ↦ rw (lookup-modify pkg p (λ _. discard pid ps) pids, g) h
  | inl g ↦
      let l : lookup p pids ≡ some ps =
        subst (λ x. lookup x pids ≡ some ps) ((text_beq_iff pkg p).0 g) k in
      rw (lookup-modify pkg p (λ _. discard pid ps) pids, g, l, contains-discard pid q ps, e)
        (rw l at h)
]

pub filed-insert :
    (pid : ℕ) (pkg : Text) (owners : Map ℕ Text) (pids : Map Text (List ℕ)) (q : ℕ)
    → filed owners pids q ≡ true
    → filed (insert pid pkg owners) (insert pkg (add pid (pids_or_none (lookup pkg pids))) pids) q
      ≡ true
filed-insert pid pkg owners pids q h = elim (Bool-cases (pid == q)) [
  | inl e ↦
      rw
        (
          lookup-insert pid q pkg owners,
          e,
          lookup-insert pkg pkg (add pid (pids_or_none (lookup pkg pids))) pids,
          beq_refl pkg,
          contains-add pid q (pids_or_none (lookup pkg pids)),
          e,
        )
        refl
  | inr e ↦ elim (Option-cases (lookup q owners)) [
    | inl f ↦ rw (lookup-insert pid q pkg owners, e, f) refl
    | inr (p, f) ↦
        let h' : contains q (pids_or_none (lookup p pids)) ≡ true = rw f at h in
        rw (lookup-insert pid q pkg owners, e, f) (filed_in pid pkg pids q p e h')
  ]
]

pub filed-remove :
    (pid : ℕ) (pkg : Text) (owners : Map ℕ Text) (pids : Map Text (List ℕ)) (q : ℕ)
    → filed owners pids q ≡ true
    → filed (remove pid owners) pids q ≡ true
filed-remove pid pkg owners pids q h = elim (Bool-cases (pid == q)) [
  | inl e ↦ rw (lookup-remove pid q owners, e) refl
  | inr e ↦ rw (lookup-remove pid q owners, e) h
]

pub filed-discard :
    (pid : ℕ) (pkg : Text) (ps : List ℕ) (owners : Map ℕ Text) (pids : Map Text (List ℕ)) (q : ℕ)
    → lookup pkg pids ≡ some ps
    → filed owners pids q ≡ true
    → filed (remove pid owners) (modify pkg (λ _. discard pid ps) pids) q ≡ true
filed-discard pid pkg ps owners pids q k h = elim (Bool-cases (pid == q)) [
  | inl e ↦ rw (lookup-remove pid q owners, e) refl
  | inr e ↦ elim (Option-cases (lookup q owners)) [
    | inl f ↦ rw (lookup-remove pid q owners, e, f) refl
    | inr (p, f) ↦
        let h' : contains q (pids_or_none (lookup p pids)) ≡ true = rw f at h in
        rw (lookup-remove pid q owners, e, f) (discarded_in pid pkg ps pids q p e k h')
  ]
]

pub Filed-same :
    (d e : DaemonState)
    → e.pid_to_pkg ≡ d.pid_to_pkg
    → e.pkg_to_pids ≡ d.pkg_to_pids
    → Filed d
    → Filed e
Filed-same d e o p h q = rw (o, p) (h q)
