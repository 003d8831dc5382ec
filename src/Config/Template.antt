-- ===== src/Config/Template.antt =====
-- src/config.rs: the template of `daemon.conf` against the defaults, and the files that are made.
use mini_lmk.Base.{
  Bool, true, false, ◌≡◌, refl, sym, subst, ap, ◌∙◌, none, some, [], ◌∷◌, ◌++◌, Text, text_eq,
  text_beq, text_beq_iff, is_some, ==_iff, arith, Bool-cases, Option-cases, inl, inr,
}
use mini_lmk.Base.Map.{lookup, lookup-insert, beq_refl}
use mini_lmk.Text.{codes}
use mini_lmk.Config.{RuntimeConfig, default_config, parse_str, load_from_file}
use mini_lmk.Config.Files.{
  ConfigPaths, from_base, default_daemon_conf, FileSystem, exists, write_new, ensure_default_file,
  ensure_default_files,
}

-- The defaults, but for the burst, whose line is commented out so that it scales with the memory.
abbrev pub defaults_but_burst : RuntimeConfig → RuntimeConfig
defaults_but_burst c = record default_config { max_kills_per_pass = c.max_kills_per_pass }

parse_str-template : (c : RuntimeConfig) → parse_str default_daemon_conf c ≡ defaults_but_burst c
unfolding parse_str text_beq
parse_str-template c = refl

text_beq_prefix : (d x y : Text) → text_beq (d ++ x) (d ++ y) ≡ text_beq x y
unfolding text_beq
text_beq_prefix [] x y = refl
text_beq_prefix (c ∷ d) x y = rw ((==_iff c c).1 refl) (text_beq_prefix d x y)

module _ (write_ok : Bool) (q content : Text) (fs : FileSystem) where
  write_new_old : exists q fs ≡ true → write_new write_ok q content fs ≡ fs
  unfolding write_new
  write_new_old h = rw h refl

  -- No file is overwritten.
  write_new-keeps :
      (p found : Text)
      → lookup p fs ≡ some found
      → lookup p (write_new write_ok q content fs) ≡ some found
  unfolding write_new
  write_new-keeps p found h = elim (Bool-cases (exists q fs)) [
    | inl e ↦ rw e h
    | inr e ↦ elim (Bool-cases write_ok) [
      | inr f ↦ rw (e, f) h
      | inl f ↦ elim (Bool-cases (text_beq q p)) [
        | inl g ↦
            let same : lookup q fs ≡ some found =
              subst (λ x. lookup x fs ≡ some found) (sym ((text_beq_iff q p).0 g)) h in
            let there : exists q fs ≡ true = ap (λ o. is_some o) same in
            absurd (ground (arith, e, there))
        | inr g ↦ rw (e, f) (rw (lookup-insert q p content fs, g) h)
      ]
    ]
  ]

-- A file at another path is none behind it, if it was none.
write_new_other :
    (write_ok : Bool) (q content p : Text) (fs : FileSystem)
    → text_beq q p ≡ false
    → lookup p (write_new write_ok q content fs) ≡ lookup p fs
unfolding write_new
write_new_other write_ok q content p fs n = elim (Bool-cases (exists q fs)) [
  | inl e ↦ rw e refl
  | inr e ↦ elim (Bool-cases write_ok) [
    | inr f ↦ rw (e, f) refl
    | inl f ↦ rw (e, f) (rw (lookup-insert q p content fs, n) refl)
  ]
]

-- Where writes succeed, there is a file behind it.
write_new-lookup :
    (q content : Text) (fs : FileSystem)
    → lookup q fs ≡ none
    → lookup q (write_new true q content fs) ≡ some content
unfolding write_new
write_new-lookup q content fs h = rw (h, lookup-insert q q content fs, beq_refl q) refl

write_new-exists :
    (q content : Text) (fs : FileSystem) → exists q (write_new true q content fs) ≡ true
write_new-exists q content fs = elim (Option-cases (lookup q fs)) [
  | inl e ↦ ap (λ o. is_some o) (write_new-lookup q content fs e)
  | inr (found, e) ↦ ap (λ o. is_some o) (write_new-keeps true q content fs q found e)
]

exists-keeps :
    (write_ok : Bool) (q content p : Text) (fs : FileSystem)
    → exists p fs ≡ true
    → exists p (write_new write_ok q content fs) ≡ true
exists-keeps write_ok q content p fs h = elim (Option-cases (lookup p fs)) [
  | inl e ↦ absurd (ground (arith, h, e))
  | inr (found, e) ↦ ap (λ o. is_some o) (write_new-keeps write_ok q content fs p found e)
]

module _ (base : Text) where
  abbrev pub paths : ConfigPaths
  paths = from_base base

  config-ne-exclude : text_beq paths.exclude_file paths.config_file ≡ false
  unfolding from_base text_beq
  config-ne-exclude =
      text_beq_prefix paths.config_dir (codes "/exclude.list") (codes "/daemon.conf")

  config-ne-games : text_beq paths.games_file paths.config_file ≡ false
  unfolding from_base text_beq
  config-ne-games = text_beq_prefix paths.config_dir (codes "/games.list") (codes "/daemon.conf")

  abbrev excludes : Text
  excludes = codes "# Package names excluded from eviction (one per line)\n"

  abbrev games : Text
  games = codes "# Game package names monitored for game session mode (one per line)\n"

  abbrev with_lists : Bool → FileSystem → FileSystem
  with_lists ok fs =
      write_new ok paths.games_file games (write_new ok paths.exclude_file excludes fs)

  ensured-keeps :
      (ok : Bool) (fs : FileSystem) (p found : Text)
      → lookup p fs ≡ some found
      → lookup p (ensure_default_files ok paths fs).1 ≡ some found
  unfolding ensure_default_files ensure_default_file
  ensured-keeps ok fs p found h =
      write_new-keeps ok paths.config_file default_daemon_conf (with_lists ok fs) p found (
        write_new-keeps ok paths.games_file games (write_new ok paths.exclude_file excludes fs) p
          found (write_new-keeps ok paths.exclude_file excludes fs p found h))

  lists_other :
      (ok : Bool) (fs : FileSystem)
      → lookup paths.config_file (with_lists ok fs) ≡ lookup paths.config_file fs
  lists_other ok fs =
      write_new_other ok paths.games_file games paths.config_file
        (write_new ok paths.exclude_file excludes fs) config-ne-games
      ∙ write_new_other ok paths.exclude_file excludes paths.config_file fs config-ne-exclude

  ensured_config :
      (fs : FileSystem)
      → lookup paths.config_file fs ≡ none
      → lookup paths.config_file (ensure_default_files true paths fs).1 ≡ some default_daemon_conf
  unfolding ensure_default_files ensure_default_file
  ensured_config fs h =
      write_new-lookup paths.config_file default_daemon_conf (with_lists true fs)
        (lists_other true fs ∙ h)

  -- Where the three files are there, nothing is done.
  ensured_again :
      (ok : Bool) (fs : FileSystem)
      → exists paths.exclude_file fs ≡ true
      → exists paths.games_file fs ≡ true
      → exists paths.config_file fs ≡ true
      → ensure_default_files ok paths fs ≡ (false, fs)
  unfolding ensure_default_files ensure_default_file
  ensured_again ok fs e g c =
      let first = write_new_old ok paths.exclude_file excludes fs e in
      let both : with_lists ok fs ≡ fs =
        ap (write_new ok paths.games_file games) first
        ∙ write_new_old ok paths.games_file games fs g in
      ap (ensure_default_file ok paths.config_file) both ∙ rw c refl

  -- Whatever files are there, none is overwritten, whether writes succeed or not; and where every
  -- write succeeds, a second call reports that it wrote nothing and changes nothing.
  pub ensure_default_files-keeps :
      (fs : FileSystem) (ok : Bool) (p found : Text)
      → lookup p fs ≡ some found
      → (lookup p (ensure_default_files ok paths fs).1 ≡ some found)
        × (ensure_default_files true paths (ensure_default_files true paths fs).1
            ≡ (false, (ensure_default_files true paths fs).1))
  unfolding ensure_default_files ensure_default_file
  ensure_default_files-keeps fs ok p found h =
      let fs1 = write_new true paths.exclude_file excludes fs in
      let fs2 = write_new true paths.games_file games fs1 in
      let last = exists-keeps true paths.config_file default_daemon_conf in
      (
        ensured-keeps ok fs p found h,
        ensured_again true (ensure_default_files true paths fs).1
            (last paths.exclude_file fs2 (
              exists-keeps true paths.games_file games paths.exclude_file fs1
                (write_new-exists paths.exclude_file excludes fs)))
            (last paths.games_file fs2 (write_new-exists paths.games_file games fs1))
            (write_new-exists paths.config_file default_daemon_conf fs2),
      )

  -- Where there is no `daemon.conf` and writes succeed, the file that is made loads as the defaults
  -- of the program, but for the burst, which stays as it was: the template says what the code does.
  pub ensure_default_files-loads :
      (fs : FileSystem) (c : RuntimeConfig)
      → lookup paths.config_file fs ≡ none
      → load_from_file (lookup paths.config_file (ensure_default_files true paths fs).1) c
        ≡ defaults_but_burst c
  unfolding load_from_file
  ensure_default_files-loads fs c h =
      ap (λ o. load_from_file o c) (ensured_config fs h) ∙ parse_str-template c
