-- ===== src/Startup/Announce.antt =====
-- src/daemon.rs, `reload_configs_from` and `emit_startup_record`: the `config_reload` records.
use mini_lmk.Base.{
  ℕ, Bool, true, false, not, ◌&&◌, ◌||◌, ◌≡◌, ◌≢◌, ◌⊎◌, refl, sym, ◌∙◌, ap, Option, none, some,
  List, [], ◌∷◌, ◌++◌, arith, Bool-cases, Option-cases, inl, inr,
}
use mini_lmk.Config.{RuntimeConfig, load_from_file}
use mini_lmk.State.{DaemonState, Action, emit, flush, config_reload, perform}
use mini_lmk.Startup.Reload.{
  ConfigFiles, apply_files, announce, want_log, must_announce, reload_configs_from,
  emit_startup_record, eqb_config,
}
use mini_lmk.Startup.Equal.{eqb_config_sound, eqb_config_differ}

-- What a `config_reload` record says: the configuration, the effective switch, and the time.
abbrev pub Announcement : Type 0
Announcement = RuntimeConfig × Bool × ℕ

abbrev pub reload_in : Action → List Announcement
reload_in (emit (config_reload c l t)) = (c, l, t) ∷ []
reload_in _ = []

-- The `config_reload` records of a trace, the latest first.
abbrev pub reloads_of : List Action → List Announcement
reloads_of [] = []
reloads_of (a ∷ t) = reload_in a ++ reloads_of t

abbrev pub held : Option Announcement → List Announcement
held none = []
held (some x) = x ∷ []

-- The record that is held, then those that were emitted, the latest first.
abbrev pub owed : DaemonState → List Announcement
owed d = held d.startup_record ++ reloads_of d.trace

-- What a load of the file would announce.
abbrev pub announcement : ConfigFiles → Bool → RuntimeConfig → Announcement
announcement f no_log cfg =
    let loaded = load_from_file f.config_file cfg in
    (loaded, loaded.log_enabled && not no_log, f.now)

announce-first :
    (now : ℕ) (d : DaemonState)
    → ((announce true now d).startup_record ≡ some (d.config, want_log d, now))
      × (reloads_of (announce true now d).trace ≡ reloads_of d.trace)
unfolding announce
announce-first now d = ground arith

announce-later :
    (now : ℕ) (d : DaemonState)
    → ((announce false now d).startup_record ≡ d.startup_record)
      × (reloads_of (announce false now d).trace ≡ (d.config, want_log d, now) ∷ reloads_of d.trace)
unfolding announce
announce-later now d = ground arith

-- The record is held for the start.
abbrev pub HeldFor : Announcement → DaemonState → DaemonState → Type 0
HeldFor x d e = (e.startup_record ≡ some x) × (reloads_of e.trace ≡ reloads_of d.trace)

-- The record is emitted.
abbrev pub Announces : Announcement → DaemonState → DaemonState → Type 0
Announces x d e =
    (e.startup_record ≡ d.startup_record) × (reloads_of e.trace ≡ x ∷ reloads_of d.trace)

-- No record is made.
abbrev pub Silent : DaemonState → DaemonState → Type 0
Silent d e = (e.startup_record ≡ d.startup_record) × (reloads_of e.trace ≡ reloads_of d.trace)

known : (q y : Bool) → q ≡ true → y ≡ true → (not q || not y) ≡ false
known q y h k = rw (h, k) refl

changed : (q y : Bool) → q ≡ false → (not q || not y) ≡ true
changed q y h = rw h refl

never : (q y : Bool) → y ≡ false → (not q || not y) ≡ true
never q y h = ground (arith, h)

must_announce-cases :
    (f : ConfigFiles) (d : DaemonState)
    → ((must_announce f d ≡ true) × (d.config_announced ≡ false))
      ⊎ (((must_announce f d ≡ true)
            × (d.config_announced ≡ true)
            × ((load_from_file f.config_file d.config) ≢ d.config))
          ⊎ ((must_announce f d ≡ false)
              × (d.config_announced ≡ true)
              × ((load_from_file f.config_file d.config) ≡ d.config)))
unfolding apply_files
must_announce-cases f d =
    let c = load_from_file f.config_file d.config in
    elim (Bool-cases d.config_announced) [
      | inr n ↦ inl (never _ _ n, n)
      | inl y ↦ elim (Bool-cases (eqb_config c d.config)) [
        | inl e ↦ inr (inr (known _ _ e y, y, eqb_config_sound c d.config e))
        | inr e ↦ inr (inl (changed _ _ e, y, eqb_config_differ c d.config e))
      ]
    ]

-- A reload loads the file over the configuration, and makes at most one `config_reload` record, with
-- the loaded configuration, the effective switch and the time of the reload: it is held for the start
-- where none was announced before, it is emitted at once where the configuration changed, and there
-- is none where the loaded configuration is the one that was announced.
pub reload_configs_from-announced :
    (f : ConfigFiles) (d : DaemonState)
    → ((d.config_announced ≡ false)
        × HeldFor (announcement f d.no_log_cli d.config) d (reload_configs_from f d))
      ⊎ (((d.config_announced ≡ true)
            × (load_from_file f.config_file d.config ≢ d.config)
            × Announces (announcement f d.no_log_cli d.config) d (reload_configs_from f d))
          ⊎ ((d.config_announced ≡ true)
              × (load_from_file f.config_file d.config ≡ d.config)
              × Silent d (reload_configs_from f d)))
unfolding reload_configs_from apply_files
reload_configs_from-announced f d =
    let d1 = record (apply_files f d) { config_announced = true } in
    elim (must_announce-cases f d) [
      | inl (m, n) ↦ inl (n, rw (m, n) (announce-first f.now d1))
      | inr (inl (m, y, c)) ↦ inr (inl (y, c, rw (m, y) (announce-later f.now d1)))
      | inr (inr (m, y, c)) ↦ inr (inr (y, c, rw m (refl, refl)))
    ]

emit_none :
    (d : DaemonState)
    → d.startup_record ≡ none
    → emit_startup_record d ≡ record d { startup_record = none }
unfolding emit_startup_record
emit_none d e = rw (e, emit_startup_record) (ap (λ o. record d { startup_record = o }) e)

emit_held :
    (d : DaemonState) (cfg : RuntimeConfig) (want : Bool) (ts : ℕ)
    → d.startup_record ≡ some (cfg, want, ts)
    → emit_startup_record d
      ≡ perform flush
          (perform (emit (config_reload cfg want ts)) (record d { startup_record = none }))
unfolding emit_startup_record
emit_held d cfg want ts e = rw (e, emit_startup_record) refl

-- The held record itself is emitted, behind those that were emitted before, and none is held any
-- more: the records, held or emitted, are the same as before and in the same order.
pub emit_startup_record-announced :
    (d : DaemonState)
    → (owed (emit_startup_record d) ≡ owed d) × ((emit_startup_record d).startup_record ≡ none)
emit_startup_record-announced d = elim (Option-cases d.startup_record) [
  | inl e ↦
      let q = emit_none d e in
      (ap owed q ∙ ap (λ o. held o ++ reloads_of d.trace) (sym e), ap (λ x. x.startup_record) q)
  | inr ((cfg, want, ts), e) ↦
      let q = emit_held d cfg want ts e in
      (ap owed q ∙ ap (λ o. held o ++ reloads_of d.trace) (sym e), ap (λ x. x.startup_record) q)
]
