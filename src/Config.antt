-- ===== src/Config.antt =====
-- src/config.rs: the runtime configuration and its parser.
pub mod Sane
pub mod Files
pub mod Template
use mini_lmk.Base.{
  ℕ, Bool, true, false, ◌||◌, Option, none, some, List, [], ◌∷◌, max, if◌then◌else◌, Text, ℤ, pos,
  min_ℤ, max_ℤ, text_beq, is_empty,
}
use mini_lmk.Text.{codes, trim, split_once, before_char, lines, starts_with}
use mini_lmk.Text.Number.{parse_u64, parse_usize, parse_i32}

pub record RuntimeConfig : Type 0 where
  pub t_idle_sec : ℕ
  pub lru_protect_depth : ℕ
  pub mem_critical_percent : ℕ
  pub fg_lru_max_depth : ℕ
  pub screen_off_harvest : Bool
  pub max_kills_per_pass : ℕ
  pub min_oom_score_adj : ℤ
  pub log_enabled : Bool

-- `RuntimeConfig::default`
abbrev pub default_config : RuntimeConfig
default_config = record {
  t_idle_sec = 180;
  lru_protect_depth = 3;
  mem_critical_percent = 10;
  fg_lru_max_depth = 10;
  screen_off_harvest = true;
  max_kills_per_pass = 2;
  min_oom_score_adj = pos 900;
  log_enabled = true;
}

unfoldable pub parse_bool : Text → Option Bool
parse_bool s =
    if text_beq s (codes "true")
    then some true
    else if text_beq s (codes "false")
    then some false
    else none

-- The new value of a field: the parsed one, or the one that was there.
abbrev pub or_keep {ℓ} : {A : Type ℓ} → Option A → A → A
or_keep none old = old
or_keep (some new) old = new

-- `i32::clamp(500, 900)`
abbrev pub clamp_adj : ℤ → ℤ
clamp_adj n = max_ℤ (pos 500) (min_ℤ (pos 900) n)

abbrev pub floor_kills : Option ℕ → Option ℕ
floor_kills none = none
floor_kills (some n) = some (max n 1)

abbrev pub clamped : Option ℤ → Option ℤ
clamped none = none
clamped (some n) = some (clamp_adj n)

-- The keys of the file.
pub data Key : Type 0 where
  t_idle_sec lru_protect_depth mem_critical_percent fg_lru_max_depth : Key
  screen_off_harvest max_kills_per_pass min_oom_score_adj log_enabled : Key

abbrev pub key_text : Key → Text
key_text Key.t_idle_sec = codes "t_idle_sec"
key_text Key.lru_protect_depth = codes "lru_protect_depth"
key_text Key.mem_critical_percent = codes "mem_critical_percent"
key_text Key.fg_lru_max_depth = codes "fg_lru_max_depth"
key_text Key.screen_off_harvest = codes "screen_off_harvest"
key_text Key.max_kills_per_pass = codes "max_kills_per_pass"
key_text Key.min_oom_score_adj = codes "min_oom_score_adj"
key_text Key.log_enabled = codes "log_enabled"

abbrev all_keys : List Key
all_keys =
    Key.t_idle_sec ∷ Key.lru_protect_depth ∷ Key.mem_critical_percent ∷ Key.fg_lru_max_depth
    ∷ Key.screen_off_harvest ∷ Key.max_kills_per_pass ∷ Key.min_oom_score_adj ∷ Key.log_enabled ∷ []

unfoldable pub find_key : Text → List Key → Option Key
find_key s [] = none
find_key s (k ∷ ks) = if text_beq s (key_text k) then some k else find_key s ks

-- One arm of the `match` on the key.
unfoldable pub assign : Key → Text → RuntimeConfig → RuntimeConfig
unfolding parse_bool parse_u64 parse_usize parse_i32
assign Key.t_idle_sec v c = record c { t_idle_sec = or_keep (parse_u64 v) c.t_idle_sec }
assign Key.lru_protect_depth v c = record c {
  lru_protect_depth = or_keep (parse_usize v) c.lru_protect_depth;
}
assign Key.mem_critical_percent v c = record c {
  mem_critical_percent = or_keep (parse_u64 v) c.mem_critical_percent;
}
assign Key.fg_lru_max_depth v c = record c {
  fg_lru_max_depth = or_keep (parse_usize v) c.fg_lru_max_depth;
}
assign Key.screen_off_harvest v c = record c {
  screen_off_harvest = or_keep (parse_bool v) c.screen_off_harvest;
}
assign Key.max_kills_per_pass v c = record c {
  max_kills_per_pass = or_keep (floor_kills (parse_usize v)) c.max_kills_per_pass;
}
assign Key.min_oom_score_adj v c = record c {
  min_oom_score_adj = or_keep (clamped (parse_i32 v)) c.min_oom_score_adj;
}
assign Key.log_enabled v c = record c { log_enabled = or_keep (parse_bool v) c.log_enabled }

-- The key and the value text of a line, if it holds an assignment to a known key.
unfoldable pub read_line : Text → Option (Key × Text)
unfolding trim starts_with split_once before_char find_key
read_line raw =
    let line = trim raw in
    if is_empty line || starts_with (codes "#") line then none else elim (split_once b'=' line) [
      | none ↦ none
      | some (k, v) ↦ elim (find_key (trim k) all_keys) [
        | none ↦ none
        | some key ↦ some (key, trim (before_char b'#' v))
      ]
    ]

unfoldable pub apply_line : Text → RuntimeConfig → RuntimeConfig
unfolding read_line assign
apply_line raw c = elim (read_line raw) [ none ↦ c | some (key, v) ↦ assign key v c ]

unfoldable pub apply_lines : List Text → RuntimeConfig → RuntimeConfig
unfolding apply_line
apply_lines [] c = c
apply_lines (line ∷ rest) c = apply_lines rest (apply_line line c)

unfoldable pub parse_str : Text → RuntimeConfig → RuntimeConfig
unfolding apply_lines lines
parse_str text c = apply_lines (lines text) c

-- A file that cannot be read changes nothing.
unfoldable pub load_from_file : Option Text → RuntimeConfig → RuntimeConfig
unfolding parse_str
load_from_file none c = c
load_from_file (some text) c = parse_str text c
