-- ===== src/Startup/Seed.antt =====
-- src/daemon.rs, `seed_initial_state` and `detect_system_components`. The entries of `/proc` and the
-- outputs of the commands are arguments.
use mini_lmk.Base.{
  ℕ, Bool, not, ◌&&◌, Option, none, some, List, [], ◌∷◌, ◌==◌, if◌then◌else◌, Text, text_eq,
  text_beq, number_eq, is_empty, all,
}
use mini_lmk.Base.Map.{lookup, insert, add}
use mini_lmk.Text.{
  codes, trim, lines, starts_with, contains_char, split_once, before_char, is_digit,
}
use mini_lmk.Text.Number.{parse_u32}
use mini_lmk.Text.Utf8.{from_utf8}
use mini_lmk.State.{DaemonState}
use mini_lmk.Events.Process.{pids_or_none}
use mini_lmk.Startup.Probe.{parse_resolve_activity_pkg}

-- One entry of `/proc`: its name, its owner, and the bytes of its `cmdline`.
pub record ProcEntry : Type 0 where
  pub file_name : Text
  pub uid : Option ℕ
  pub cmdline : Option (List ℕ)

unfoldable pub until_nul : List ℕ → List ℕ
until_nul [] = []
until_nul (b ∷ bs) = if b == 0 then [] else b ∷ until_nul bs

-- The package of a command line, if it is one of an app.
unfoldable pub cmdline_pkg : List ℕ → Option Text
unfolding until_nul from_utf8 trim contains_char starts_with before_char
cmdline_pkg bytes = elim (from_utf8 (until_nul bytes)) [
  | none ↦ none
  | some s ↦
      let raw = trim s in
      let pkg = trim (before_char b':' raw) in
      if contains_char b'.' raw
        && not (starts_with (codes "/") raw)
        && not (starts_with (codes "-") raw)
        && not (starts_with (codes "-") pkg)
      then some pkg
      else none
]

-- The process tables, but not `alive_apps`; the uid is that of the last process.
unfoldable pub index_running : ℕ → ℕ → Text → DaemonState → DaemonState
index_running pid uid pkg d = record d {
  pid_to_pkg = insert pid pkg d.pid_to_pkg;
  pkg_to_pids = insert pkg (add pid (pids_or_none (lookup pkg d.pkg_to_pids))) d.pkg_to_pids;
  pkg_to_uid = insert pkg uid d.pkg_to_uid;
}

abbrev pub nonempty_bytes : Option (List ℕ) → Option (List ℕ)
nonempty_bytes none = none
nonempty_bytes (some []) = none
nonempty_bytes (some (b ∷ bs)) = some (b ∷ bs)

unfoldable pub index_with : Option ℕ → Option ℕ → Option Text → DaemonState → DaemonState
unfolding index_running
index_with (some pid) (some uid) (some pkg) d = index_running pid uid pkg d
index_with _ _ _ d = d

abbrev pub entry_pkg : ProcEntry → Option Text
entry_pkg e = elim (nonempty_bytes e.cmdline) [ none ↦ none | some bytes ↦ cmdline_pkg bytes ]

unfoldable pub seed_entry : ProcEntry → DaemonState → DaemonState
unfolding parse_u32 cmdline_pkg index_with
seed_entry e d = index_with (parse_u32 e.file_name) e.uid (entry_pkg e) d

unfoldable pub seed_initial_state : List ProcEntry → DaemonState → DaemonState
unfolding seed_entry
seed_initial_state [] d = d
seed_initial_state (e ∷ es) d = seed_initial_state es (seed_entry e d)

-- The outputs of the commands that succeeded.
pub record SystemOutputs : Type 0 where
  pub home_role : Option Text
  pub dialer_role : Option Text
  pub sms_role : Option Text
  pub resolve_home : Option Text
  pub input_method : Option Text
  pub wallpaper : Option Text

abbrev pub is_holder : Text → Bool
is_holder pkg =
    not (is_empty pkg)
    && not (text_beq pkg (codes "null"))
    && not (contains_char b' ' pkg)
    && contains_char b'.' pkg
    && not (starts_with (codes "No holder") pkg)
    && not (starts_with (codes "Error") pkg)
    && not (starts_with (codes "-") pkg)

unfoldable pub holder_lines : List Text → List Text
unfolding trim contains_char starts_with
holder_lines [] = []
holder_lines (line ∷ ls) =
    let rest = holder_lines ls in if is_holder (trim line) then trim line ∷ rest else rest

unfoldable pub role_holders : Option Text → List Text
unfolding holder_lines lines
role_holders none = []
role_holders (some stdout) = holder_lines (lines stdout)

unfoldable pub add_all : List Text → List Text → List Text
unfolding add
add_all [] set = set
add_all (pkg ∷ pkgs) set = add_all pkgs (add pkg set)

-- A number and a colon in front of a component are the user that it belongs to.
unfoldable pub unpeel : Text → Text
unfolding split_once contains_char
unpeel s = elim (split_once b':' s) [
  | none ↦ s
  | some (prefix, rest) ↦ if contains_char b'.' rest && all is_digit prefix then rest else s
]

unfoldable pub setting_pkg : Option Text → List Text
unfolding trim starts_with unpeel before_char contains_char
setting_pkg none = []
setting_pkg (some stdout) =
    let s = trim stdout in
    let pkg = trim (before_char b'/' (unpeel s)) in
    if not (is_empty s)
      && not (starts_with (codes "null") s)
      && not (is_empty pkg)
      && contains_char b'.' pkg
      && not (contains_char b' ' pkg)
      && not (starts_with (codes "-") pkg)
    then pkg ∷ []
    else []

unfoldable pub fallback_home : Option Text → List Text
unfolding parse_resolve_activity_pkg
fallback_home none = []
fallback_home (some stdout) = elim (parse_resolve_activity_pkg stdout) [
  | none ↦ []
  | some pkg ↦ pkg ∷ []
]

-- The launcher is asked for again only if no holder of its role was found.
unfoldable pub detect_system_components : SystemOutputs → DaemonState → DaemonState
unfolding role_holders fallback_home setting_pkg add_all
detect_system_components o d =
    let home = role_holders o.home_role in
    let roles =
      add_all (role_holders o.sms_role) (add_all (role_holders o.dialer_role) (add_all home [])) in
    let homes = if is_empty home then add_all (fallback_home o.resolve_home) roles else roles in
    record d {
      dynamic_exclusions =
          add_all (setting_pkg o.wallpaper) (add_all (setting_pkg o.input_method) homes);
    }
