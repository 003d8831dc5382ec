-- ===== src/Daemon/Bystanders/Process.antt =====
-- src/events.rs, `on_proc_start` and `on_proc_died`, for one package that the tables do not hold as
-- an app.
use mini_lmk.Base.{
  ℕ, ◌-◌, false, not, if_keeps, ◌&&◌, ◌≡◌, refl, Option, none, some, List, Text, text_eq, text_beq,
  number_eq, leb, ◌||◌, Option-cases, is_some, arith, Bool-cases, inl, inr, if◌then◌else◌, is_empty,
}
use mini_lmk.Base.Map.{lookup, remove, discard, lookup-insert, lookup-remove}
use mini_lmk.State.{DaemonState, World, is_pkg, on_arrival}
use mini_lmk.Procfs.{read_statm_rss_kb}
use mini_lmk.Events.Process.{
  is_top, ProcStartEvent, ProcDiedEvent, count_spawn, note_intrusion, index_process, note_respawn,
  track_respawn, enter_alive, register_process, on_proc_start, record_death, unlink, count_death,
  forget_process, on_proc_died,
}
use mini_lmk.Daemon.Fences.{Fenced, Fenced-same, told, evaluate-Fenced}

module _ (p : Text) where
  index_process-Fenced :
      (ev : ProcStartEvent) (d : DaemonState)
      → text_beq ev.pkg p && leb 10000 ev.uid ≡ false
      → Fenced p d
      → Fenced p (index_process ev d)
  unfolding index_process
  index_process-Fenced ev d n h = record {
    absent = h.absent;
    no_app_uid = ground (arith, lookup-insert ev.pkg p ev.uid d.pkg_to_uid, h.no_app_uid);
    spared = h.spared;
  }

  note_respawn-Fenced :
      (o : Option ℕ) (ev : ProcStartEvent) (now : ℕ) (d : DaemonState)
      → Fenced p d
      → Fenced p (note_respawn o ev now d)
  unfolding note_respawn
  note_respawn-Fenced none ev now d h = h
  note_respawn-Fenced (some t) ev now d h =
      if_keeps (Fenced p) (leb (now - t) 120000) _ d (told p _ d _ tt refl refl refl h) h

  register_process-Fenced :
      (w : World) (ev : ProcStartEvent) (now : ℕ) (d : DaemonState)
      → text_beq ev.pkg p && leb 10000 ev.uid ≡ false
      → Fenced p d
      → Fenced p (register_process w ev now d)
  unfolding register_process note_intrusion count_spawn track_respawn
  register_process-Fenced w ev now d n h =
      let rss = read_statm_rss_kb ((w.proc on_arrival).statm ev.pid) d.page_size_kb in
      let d1 = if is_pkg d.current_fg ev.pkg then d else count_spawn rss d in
      let h1 : Fenced p d1 =
        if_keeps (Fenced p) (is_pkg d.current_fg ev.pkg) d (count_spawn rss d) h
          (Fenced-same p d (count_spawn rss d) refl refl refl h) in
      let intrudes = d1.is_gaming && not (is_top ev.spawn_type) in
      let d2 = if intrudes then note_intrusion ev rss now d1 else d1 in
      let h2 : Fenced p d2 =
        if_keeps (Fenced p) intrudes (note_intrusion ev rss now d1) d1
          (told p _ d1 (note_intrusion ev rss now d1) tt refl refl refl h1) h1 in
      let d3 = index_process ev d2 in
      let h3 = index_process-Fenced ev d2 n h2 in
      let d4 = record d3 { recent_deaths = remove ev.pkg d3.recent_deaths } in
      note_respawn-Fenced (lookup ev.pkg d3.recent_deaths) ev now d4
        (Fenced-same p d3 d4 refl refl refl h3)

  enter_alive-Fenced :
      (pkg : Text) (now : ℕ) (d : DaemonState)
      → text_beq pkg p ≡ false
      → Fenced p d
      → Fenced p (enter_alive pkg now d)
  unfolding enter_alive
  enter_alive-Fenced pkg now d n h =
      if_keeps (Fenced p) (is_some (lookup pkg d.alive_apps)) d _ h (record {
        absent = rw (lookup-insert pkg p now d.alive_apps, n, h.absent);
        no_app_uid = h.no_app_uid;
        spared = h.spared;
      })

  pub on_proc_start-Fenced :
      (w : World) (ev : ProcStartEvent) (now : ℕ) (d : DaemonState)
      → text_beq ev.pkg p && leb 10000 ev.uid ≡ false
      → Fenced p d
      → Fenced p (on_proc_start w ev now d)
  unfolding on_proc_start
  on_proc_start-Fenced w ev now d n h =
      let d1 = register_process w ev now d in
      let h1 = register_process-Fenced w ev now d n h in
      let d2 = enter_alive ev.pkg now d1 in
      elim (Bool-cases (leb 10000 ev.uid)) [
        | inr e ↦ rw e h1
        | inl e ↦
            let h2 = enter_alive-Fenced ev.pkg now d1 (ground arith) h1 in
            rw e (
              if_keeps (Fenced p) (is_pkg d.current_fg ev.pkg || is_top ev.spawn_type) d2 _ h2
                (evaluate-Fenced p w now d2 h2))
      ]

  unlink-Fenced :
      (pid : ℕ) (pkg : Text) (o : Option (List ℕ)) (d : DaemonState)
      → Fenced p d
      → Fenced p (unlink pid pkg o d)
  unfolding unlink
  unlink-Fenced pid pkg none d h = h
  unlink-Fenced pid pkg (some pids) d h =
      if_keeps (Fenced p) (is_empty (discard pid pids)) _ _
        (record {
          absent = ground (arith, lookup-remove pkg p d.alive_apps, h.absent);
          no_app_uid = h.no_app_uid;
          spared = h.spared;
        })
        (Fenced-same p d _ refl refl refl h)

  forget_process-Fenced :
      (pid : ℕ) (pkg : Text) (now : ℕ) (d : DaemonState)
      → Fenced p d
      → Fenced p (forget_process pid pkg now d)
  unfolding forget_process record_death count_death
  forget_process-Fenced pid pkg now d h =
      let d0 = record d { pid_to_pkg = remove pid d.pid_to_pkg } in
      let d1 = unlink pid pkg (lookup pkg d.pkg_to_pids) d0 in
      let h1 =
        unlink-Fenced pid pkg (lookup pkg d.pkg_to_pids) d0 (Fenced-same p d d0 refl refl refl h) in
      let d2 = if is_pkg d.current_fg pkg then d1 else count_death d1 in
      let h2 : Fenced p d2 =
        if_keeps (Fenced p) (is_pkg d.current_fg pkg) d1 (count_death d1) h1
          (Fenced-same p d1 (count_death d1) refl refl refl h1) in
      Fenced-same p d2 (record_death pkg now d2) refl refl refl h2

  pub on_proc_died-Fenced :
      (ev : ProcDiedEvent) (now : ℕ) (d : DaemonState)
      → Fenced p d
      → Fenced p (on_proc_died ev now d)
  unfolding on_proc_died
  on_proc_died-Fenced ev now d h = elim (Option-cases (lookup ev.pid d.pid_to_pkg)) [
    | inl e ↦ rw (e, on_proc_died) h
    | inr (pkg, e) ↦ rw (e, on_proc_died) (forget_process-Fenced ev.pid pkg now d h)
  ]
