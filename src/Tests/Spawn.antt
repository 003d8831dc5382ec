-- ===== src/Tests/Spawn.antt =====
-- The theorems on src/spawn.rs, src/config.rs and src/parser.rs, at inputs of the program's tests.
use mini_lmk.Base.{◌<◌, false, ◌≡◌, refl, inr, some, Text, pos, text_beq, arith, two_64}
use mini_lmk.Text.{codes, contains_char}
use mini_lmk.Config.{default_config, load_from_file}
use mini_lmk.Config.Sane.{Sane, load_from_file-Sane}
use mini_lmk.Spawn.{spawn_kill, child, fork, Launched}
use mini_lmk.Spawn.Argv.{kill_argv, spawn_kill-argv, Accounted, spawn_kill_accounts}
use mini_lmk.Daemon.{proc_died}
use mini_lmk.Parser.Line.{parse_logcat_line}
use mini_lmk.Parser.Valid.{ValidEvent}
use mini_lmk.Parser.Sound.{parse_logcat_line-Valid}
use mini_lmk.Tests.Fixtures.{spawner, app_one}

abbrev asked : Launched
asked = record { launcher = fork; argv = kill_argv app_one }

one_asked : (spawn_kill spawner app_one (child (pos 7))).2 ≡ some asked
unfolding spawn_kill
one_asked = refl

spawn_kill-argv_example : asked.argv ≡ kill_argv app_one
spawn_kill-argv_example = spawn_kill-argv spawner app_one (child (pos 7)) asked one_asked

one_clean : contains_char 0 app_one ≡ false
unfolding contains_char
one_clean = refl

spawn_kill_accounts_example :
    Accounted spawner (child (pos 7)) (spawn_kill spawner app_one (child (pos 7)))
spawn_kill_accounts_example =
    spawn_kill_accounts spawner app_one (child (pos 7)) one_clean (inr refl)

default-Sane : Sane default_config
default-Sane = record { adj_low = refl; adj_high = refl; kills = omega arith }

load_from_file-Sane_example :
    Sane
      (load_from_file (some (codes "max_kills_per_pass = 0\nmin_oom_score_adj = 2")) default_config)
load_from_file-Sane_example =
    load_from_file-Sane (some (codes "max_kills_per_pass = 0\nmin_oom_score_adj = 2"))
      default_config default-Sane

abbrev died : Text
died = codes "1695411709.231  2415  2415 I am_proc_died: [0,12763,com.ex.app,900,kill]"

died_read :
    parse_logcat_line (λ _. false) died ≡ some (1695411709231, proc_died (record { pid = 12763 }))
unfolding parse_logcat_line text_beq
died_read = refl

parse_logcat_line-Valid_example :
    (1695411709231 < two_64) × ValidEvent (proc_died (record { pid = 12763 }))
parse_logcat_line-Valid_example =
    parse_logcat_line-Valid (λ _. false) died 1695411709231 (proc_died (record { pid = 12763 }))
      died_read
