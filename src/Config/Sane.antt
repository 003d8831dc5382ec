-- ===== src/Config/Sane.antt =====
-- src/config.rs, `parse_str`: the ranges of the two clamped keys.
use mini_lmk.Base.{
  ℕ, true, ◌≡◌, ◌≤◌, Option, none, some, List, [], ◌∷◌, Text, ℤ, pos, negsuc, leb_ℤ, arith,
  Option-cases, inl, inr,
}
use mini_lmk.Text.{lines}
use mini_lmk.Text.Number.{parse_i32, parse_usize}
use mini_lmk.Config.{
  RuntimeConfig, Key, read_line, assign, apply_line, apply_lines, parse_str, clamped, floor_kills,
  or_keep, load_from_file,
}

pub record Sane (c : RuntimeConfig) : Type 0 where
  pub adj_low : leb_ℤ (pos 500) c.min_oom_score_adj ≡ true
  pub adj_high : leb_ℤ c.min_oom_score_adj (pos 900) ≡ true
  pub kills : 1 ≤ c.max_kills_per_pass

clamp_adj-low :
    (o : Option ℤ) (n : ℤ)
    → leb_ℤ (pos 500) n ≡ true
    → leb_ℤ (pos 500) (or_keep (clamped o) n) ≡ true
clamp_adj-low none n h = h
clamp_adj-low (some (pos m)) n h = ground arith
clamp_adj-low (some (negsuc m)) n h = ground arith

clamp_adj-high :
    (o : Option ℤ) (n : ℤ)
    → leb_ℤ n (pos 900) ≡ true
    → leb_ℤ (or_keep (clamped o) n) (pos 900) ≡ true
clamp_adj-high none n h = h
clamp_adj-high (some (pos m)) n h = ground arith
clamp_adj-high (some (negsuc m)) n h = ground arith

floor_kills-pos : (o : Option ℕ) (n : ℕ) → 1 ≤ n → 1 ≤ or_keep (floor_kills o) n
floor_kills-pos none n h = h
floor_kills-pos (some m) n h = omega arith

assign-Sane : (k : Key) (v : Text) (c : RuntimeConfig) → Sane c → Sane (assign k v c)
unfolding assign
assign-Sane Key.t_idle_sec v c h = record {
  adj_low = h.adj_low;
  adj_high = h.adj_high;
  kills = h.kills;
}
assign-Sane Key.lru_protect_depth v c h = record {
  adj_low = h.adj_low;
  adj_high = h.adj_high;
  kills = h.kills;
}
assign-Sane Key.mem_critical_percent v c h = record {
  adj_low = h.adj_low;
  adj_high = h.adj_high;
  kills = h.kills;
}
assign-Sane Key.fg_lru_max_depth v c h = record {
  adj_low = h.adj_low;
  adj_high = h.adj_high;
  kills = h.kills;
}
assign-Sane Key.screen_off_harvest v c h = record {
  adj_low = h.adj_low;
  adj_high = h.adj_high;
  kills = h.kills;
}
assign-Sane Key.log_enabled v c h = record {
  adj_low = h.adj_low;
  adj_high = h.adj_high;
  kills = h.kills;
}
assign-Sane Key.max_kills_per_pass v c h = record {
  adj_low = h.adj_low;
  adj_high = h.adj_high;
  kills = floor_kills-pos (parse_usize v) c.max_kills_per_pass h.kills;
}
assign-Sane Key.min_oom_score_adj v c h = record {
  adj_low = clamp_adj-low (parse_i32 v) c.min_oom_score_adj h.adj_low;
  adj_high = clamp_adj-high (parse_i32 v) c.min_oom_score_adj h.adj_high;
  kills = h.kills;
}

apply_line-Sane : (raw : Text) (c : RuntimeConfig) → Sane c → Sane (apply_line raw c)
unfolding apply_line
apply_line-Sane raw c h = elim (Option-cases (read_line raw)) [
  | inl e ↦ rw (e, apply_line) h
  | inr ((k, v), e) ↦ rw (e, apply_line) (assign-Sane k v c h)
]

apply_lines-Sane : (ls : List Text) (c : RuntimeConfig) → Sane c → Sane (apply_lines ls c)
unfolding apply_lines
apply_lines-Sane [] c h = h
apply_lines-Sane (l ∷ ls) c h = apply_lines-Sane ls (apply_line l c) (apply_line-Sane l c h)

-- Whatever a configuration file says, and whether or not it can be read: if the minimal
-- `oom_score_adj` was between 500 and 900 and a pass could kill at least one package, this is so
-- after the file is loaded.
pub load_from_file-Sane :
    (file : Option Text) (c : RuntimeConfig) → Sane c → Sane (load_from_file file c)
unfolding load_from_file parse_str
load_from_file-Sane none c h = h
load_from_file-Sane (some text) c h = apply_lines-Sane (lines text) c h
