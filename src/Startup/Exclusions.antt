-- ===== src/Startup/Exclusions.antt =====
-- src/daemon.rs, `reload_configs_from` and `detect_system_components`: the packages that are spared.
use mini_lmk.Base.{
  ℕ, Bool, true, false, not, ◌&&◌, ◌||◌, ◌≡◌, refl, ◌∙◌, ap, Option, none, some, List, [], ◌∷◌,
  if◌then◌else◌, Text, text_eq, text_beq, any, arith, Bool-cases, inl, inr,
}
use mini_lmk.Base.Map.{contains, add, contains-add}
use mini_lmk.Text.{trim, lines}
use mini_lmk.State.{DaemonState, is_pkg, is_excluded}
use mini_lmk.Startup.Reload.{
  is_entry, add_entries, load_file_lines, ConfigFiles, apply_files, announce, must_announce,
  reload_configs_from,
}

-- Some line of the list names the package.
abbrev pub names : Text → List Text → Bool
names p ls = any (λ line. is_entry line && text_beq (trim line) p) ls

abbrev pub lists : Text → Option Text → Bool
lists p none = false
lists p (some content) = names p (lines content)

contains-add_entries :
    (p : Text) (ls set : List Text)
    → contains p (add_entries ls set) ≡ (names p ls || contains p set)
unfolding add_entries
contains-add_entries p [] set = refl
contains-add_entries p (l ∷ ls) set =
    contains-add_entries p ls (if is_entry l then add (trim l) set else set)
    ∙ ground (arith, contains-add (trim l) p set)

contains-load_file_lines :
    (p : Text) (file : Option Text) → contains p (load_file_lines file) ≡ lists p file
unfolding load_file_lines contains
contains-load_file_lines p none = refl
contains-load_file_lines p (some content) = contains-add_entries p (lines content) [] ∙ ground arith

announce-excludes :
    (first_load : Bool) (now : ℕ) (d : DaemonState) (p : Text)
    → is_excluded (announce first_load now d) p ≡ is_excluded d p
unfolding announce is_excluded
announce-excludes first_load now d p = ground arith

apply_files-excludes :
    (f : ConfigFiles) (d : DaemonState) (p : Text)
    → is_excluded (apply_files f d) p
      ≡ (lists p f.exclude_file || contains p d.dynamic_exclusions || is_pkg d.current_fg p)
unfolding apply_files is_excluded
apply_files-excludes f d p =
    ap (λ b. b || contains p d.dynamic_exclusions || is_pkg d.current_fg p)
      (contains-load_file_lines p f.exclude_file)

-- Behind a reload, a package is excluded just if a line of the file of exclusions names it, or it was
-- detected as a component of the system, or it is in the foreground.
pub is_excluded-reload_configs_from :
    (f : ConfigFiles) (d : DaemonState) (p : Text)
    → is_excluded (reload_configs_from f d) p
      ≡ (lists p f.exclude_file || contains p d.dynamic_exclusions || is_pkg d.current_fg p)
unfolding reload_configs_from is_excluded
is_excluded-reload_configs_from f d p =
    let e = apply_files-excludes f d p in
    elim (Bool-cases (must_announce f d)) [
      | inl m ↦ rw m (
          announce-excludes (not d.config_announced) f.now
            (record (apply_files f d) { config_announced = true }) p
          ∙ e)
      | inr m ↦ rw m e
    ]
