-- ===== src/Tables/Processes.antt =====
-- src/events.rs, `on_proc_start` and `on_proc_died`, and src/daemon.rs, `seed_initial_state`: the two
-- process tables behind them.
use mini_lmk.Base.{
  ℕ, true, not, ◌&&◌, ◌≡◌, refl, ◌∙◌, Option, none, some, List, [], ◌∷◌, if◌then◌else◌, Text,
  text_eq, number_eq, arith, Option-cases, inl, inr, if_keeps, is_empty,
}
use mini_lmk.Base.Map.{lookup, remove, modify, discard}
use mini_lmk.Procfs.{read_statm_rss_kb}
use mini_lmk.Text.Number.{parse_u32}
use mini_lmk.State.{DaemonState, World, on_arrival, is_pkg}
use mini_lmk.Events.Process.{
  ProcStartEvent, ProcDiedEvent, index_process, count_spawn, note_intrusion, note_respawn,
  track_respawn, register_process, unlink, count_death, record_death, forget_process, on_proc_died,
  is_top,
}
use mini_lmk.Startup.Seed.{
  ProcEntry, entry_pkg, index_running, index_with, seed_entry, seed_initial_state,
}
use mini_lmk.Tables.{filed, Filed, Filed-same, filed-insert, filed-remove, filed-discard}

note_respawn-Filed :
    (o : Option ℕ) (ev : ProcStartEvent) (now : ℕ) (d : DaemonState)
    → Filed d
    → Filed (note_respawn o ev now d)
unfolding note_respawn
note_respawn-Filed none ev now d h = h
note_respawn-Filed (some t) ev now d h =
    Filed-same d (note_respawn (some t) ev now d) (ground arith) (ground arith) h

index_process-Filed : (ev : ProcStartEvent) (d : DaemonState) → Filed d → Filed (index_process ev d)
unfolding index_process
index_process-Filed ev d h q = filed-insert ev.pid ev.pkg d.pid_to_pkg d.pkg_to_pids q (h q)

-- Whatever process starts: if every process that the first table gives to a package stands among the
-- processes of that package, so it is behind the registration of the start, also where the number
-- was another package's before.
pub register_process-Filed :
    (w : World) (ev : ProcStartEvent) (now : ℕ) (d : DaemonState)
    → Filed d
    → Filed (register_process w ev now d)
unfolding register_process note_intrusion count_spawn track_respawn
register_process-Filed w ev now d h =
    let rss = read_statm_rss_kb ((w.proc on_arrival).statm ev.pid) d.page_size_kb in
    let d1 = if is_pkg d.current_fg ev.pkg then d else count_spawn rss d in
    let h1 : Filed d1 =
      if_keeps Filed (is_pkg d.current_fg ev.pkg) d (count_spawn rss d) h
        (Filed-same d (count_spawn rss d) refl refl h) in
    let intrudes = d1.is_gaming && not (is_top ev.spawn_type) in
    let d2 = if intrudes then note_intrusion ev rss now d1 else d1 in
    let h2 : Filed d2 =
      if_keeps Filed intrudes (note_intrusion ev rss now d1) d1
        (Filed-same d1 (note_intrusion ev rss now d1) refl refl h1) h1 in
    let d3 = index_process ev d2 in
    let d4 = record d3 { recent_deaths = remove ev.pkg d3.recent_deaths } in
    note_respawn-Filed (lookup ev.pkg d3.recent_deaths) ev now d4
      (Filed-same d3 d4 refl refl (index_process-Filed ev d2 h2))

unlink-Filed :
    (pid : ℕ) (pkg : Text) (o : Option (List ℕ)) (d : DaemonState)
    → lookup pkg d.pkg_to_pids ≡ o
    → Filed d
    → Filed (unlink pid pkg o (record d { pid_to_pkg = remove pid d.pid_to_pkg }))
unfolding unlink
unlink-Filed pid pkg none d k h = λ q. filed-remove pid pkg d.pid_to_pkg d.pkg_to_pids q (h q)
unlink-Filed pid pkg (some ps) d k h =
    let f : (q : ℕ)
        → filed (remove pid d.pid_to_pkg) (modify pkg (λ _. discard pid ps) d.pkg_to_pids) q
          ≡ true =
      λ q. filed-discard pid pkg ps d.pid_to_pkg d.pkg_to_pids q k (h q) in
    if_keeps Filed (is_empty (discard pid ps)) _ _ f f

forget_process-Filed :
    (pid : ℕ) (pkg : Text) (now : ℕ) (d : DaemonState)
    → Filed d
    → Filed (forget_process pid pkg now d)
unfolding forget_process record_death count_death
forget_process-Filed pid pkg now d h =
    let d0 = record d { pid_to_pkg = remove pid d.pid_to_pkg } in
    let d1 = unlink pid pkg (lookup pkg d.pkg_to_pids) d0 in
    let h1 = unlink-Filed pid pkg (lookup pkg d.pkg_to_pids) d refl h in
    let d2 = if is_pkg d.current_fg pkg then d1 else count_death d1 in
    let h2 : Filed d2 =
      if_keeps Filed (is_pkg d.current_fg pkg) d1 (count_death d1) h1
        (Filed-same d1 (count_death d1) refl refl h1) in
    Filed-same d2 (record_death pkg now d2) refl refl h2

-- Whatever process dies: if every process that the first table gives to a package stands among the
-- processes of that package, so it is behind the death.
pub on_proc_died-Filed :
    (ev : ProcDiedEvent) (now : ℕ) (d : DaemonState) → Filed d → Filed (on_proc_died ev now d)
unfolding on_proc_died
on_proc_died-Filed ev now d h = elim (Option-cases (lookup ev.pid d.pid_to_pkg)) [
  | inl e ↦ rw (e, on_proc_died) h
  | inr (pkg, e) ↦ rw (e, on_proc_died) (forget_process-Filed ev.pid pkg now d h)
]

index_with-Filed :
    (pid uid : Option ℕ) (pkg : Option Text) (d : DaemonState)
    → Filed d
    → Filed (index_with pid uid pkg d)
unfolding index_with index_running
index_with-Filed (some pid) (some uid) (some pkg) d h =
    λ q. filed-insert pid pkg d.pid_to_pkg d.pkg_to_pids q (h q)
index_with-Filed none uid pkg d h = h
index_with-Filed (some pid) none pkg d h = h
index_with-Filed (some pid) (some uid) none d h = h

index_with-frame :
    (pid uid : Option ℕ) (pkg : Option Text) (d : DaemonState)
    → ((index_with pid uid pkg d).alive_apps ≡ d.alive_apps)
      × ((index_with pid uid pkg d).trace ≡ d.trace)
unfolding index_with index_running
index_with-frame (some pid) (some uid) (some pkg) d = (refl, refl)
index_with-frame none uid pkg d = (refl, refl)
index_with-frame (some pid) none pkg d = (refl, refl)
index_with-frame (some pid) (some uid) none d = (refl, refl)

-- Whatever runs at the start: the index of the running processes keeps every process that the first
-- table gives to a package among the processes of that package; and it makes no package live and
-- does nothing to the outside.
pub seed_initial_state-Filed :
    (es : List ProcEntry) (d : DaemonState)
    → Filed d
    → Filed (seed_initial_state es d)
      × ((seed_initial_state es d).alive_apps ≡ d.alive_apps)
      × ((seed_initial_state es d).trace ≡ d.trace)
unfolding seed_initial_state seed_entry
seed_initial_state-Filed [] d h = (h, refl, refl)
seed_initial_state-Filed (e ∷ es) d h =
    let pid = parse_u32 e.file_name in
    let (files, alive, trace) =
      seed_initial_state-Filed es (seed_entry e d) (index_with-Filed pid e.uid (entry_pkg e) d h) in
    let f = index_with-frame pid e.uid (entry_pkg e) d in (files, alive ∙ f.0, trace ∙ f.1)
