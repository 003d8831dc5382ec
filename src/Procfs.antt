-- ===== src/Procfs.antt =====
-- src/procfs.rs: what the daemon reads from `/proc`. The text of one `read` is an argument, `none`
-- where the open, the read or the decoding fails.
use mini_lmk.Base.{
  ℕ, ◌*◌, ◌/◌, ◌%◌, Bool, true, false, ◌&&◌, Option, none, some, List, [], ◌∷◌, leb, ltb, ◌==◌,
  if◌then◌else◌, Text, ℤ, is_some_and, map_or, get_elem?, two_64, ◌>>=◌,
}
use mini_lmk.Text.{codes, trim, split_ascii_whitespace, lines, strip_prefix, starts_with}
use mini_lmk.Text.Number.{parse_u64, parse_i32}

-- `pages * page_size_kb` wraps around at 64 bits.
unfoldable pub read_statm_rss_kb : Option Text → ℕ → ℕ
unfolding split_ascii_whitespace parse_u64
read_statm_rss_kb content page_size_kb =
    map_or (do s ← content; word ← get_elem? (split_ascii_whitespace s) 1; parse_u64 word) 0
      (λ pages. (pages * page_size_kb) % two_64)

unfoldable pub read_oom_score_adj : Option Text → Option ℤ
unfolding trim parse_i32
read_oom_score_adj content = do s ← content; parse_i32 (trim s)

-- The uid is the owner of the directory `/proc/<pid>`, if the process is there.
unfoldable pub proc_is_app_uid : Option ℕ → Bool
proc_is_app_uid uid = is_some_and uid (λ u. leb 10000 u)

abbrev pub first_number : Text → ℕ
first_number rest =
    map_or (do word ← get_elem? (split_ascii_whitespace rest) 0; parse_u64 word) 0 (λ n. n)

unfoldable pub meminfo_line : Text → ℕ × ℕ → ℕ × ℕ
unfolding strip_prefix split_ascii_whitespace parse_u64
meminfo_line line (total, avail) = elim (strip_prefix (codes "MemTotal:") line) [
  | some rest ↦ (first_number rest, avail)
  | none ↦ elim (strip_prefix (codes "MemAvailable:") line) [
    | some rest ↦ (total, first_number rest)
    | none ↦ (total, avail)
  ]
]

-- The loop ends as soon as both numbers are known.
unfoldable pub meminfo_lines : List Text → ℕ × ℕ → ℕ × ℕ
unfolding meminfo_line
meminfo_lines [] acc = acc
meminfo_lines (line ∷ rest) acc =
    let acc' = meminfo_line line acc in
    elim (ltb 0 acc'.0 && ltb 0 acc'.1) [ true ↦ acc' | false ↦ meminfo_lines rest acc' ]

unfoldable pub read_meminfo_kb : Option Text → ℕ × ℕ
unfolding meminfo_lines lines
read_meminfo_kb none = (0, 0)
read_meminfo_kb (some s) = meminfo_lines (lines s) (0, 0)

unfoldable pub find : (Text → Bool) → List Text → Option Text
find p [] = none
find p (x ∷ xs) = if p x then some x else find p xs

-- The text of the number behind `avg10=` on the first line that begins with `some `.
unfoldable pub psi_some_avg10_text : Text → Option Text
unfolding find lines starts_with split_ascii_whitespace strip_prefix
psi_some_avg10_text contents = do
  line ← find (λ l. starts_with (codes "some ") l) (lines contents)
  word ← find (λ w. starts_with (codes "avg10=") w) (split_ascii_whitespace line)
  strip_prefix (codes "avg10=") word

-- `f32` is an argument: whether a text is a number and whether that is at least a percentage. It
-- answers `none` where the text is no number.
unfoldable pub parse_psi_some_avg10 : (Text → ℕ → Option Bool) → ℕ → Text → Option Bool
unfolding psi_some_avg10_text
parse_psi_some_avg10 at_least percent contents = do
  v ← psi_some_avg10_text contents
  at_least v percent

unfoldable pub check_mem_critical : (Text → ℕ → Option Bool) → Option Text → Option Text → ℕ → Bool
unfolding parse_psi_some_avg10 read_meminfo_kb
check_mem_critical at_least pressure meminfo percent =
    let (total, avail) = read_meminfo_kb meminfo in
    if percent == 0
    then false
    else elim (do s ← pressure; parse_psi_some_avg10 at_least percent s) [
      | some reached ↦ reached
      | none ↦
          if ltb 0 total then ltb ((avail * 100) % two_64) ((total * percent) % two_64) else false
    ]

unfoldable pub read_total_ram_mb : Option Text → ℕ
unfolding read_meminfo_kb
read_total_ram_mb meminfo =
    let (total, _) = read_meminfo_kb meminfo in if ltb 0 total then total / 1024 else 4096
