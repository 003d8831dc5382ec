-- ===== src/Tests/Parsing.antt =====
-- Inputs of the tests in src/parser.rs and src/config.rs.
use mini_lmk.Base.{text_beq, ◌≡◌, refl, some, none, false, true, pos, Text, arith}
use mini_lmk.Text.{codes, is_whitespace}
use mini_lmk.Render.Json.{show_ℕ}
use mini_lmk.Parser.Names.{is_proc_name, package_of}
use mini_lmk.Parser.Start.{parse_proc_start}
use mini_lmk.Parser.Printed.{is_plain, Plain}
use mini_lmk.Parser.Died.{parse_proc_died}
use mini_lmk.Parser.Roundtrip.Deaths.{printed_death, parse_proc_died-printed}
use mini_lmk.Parser.Roundtrip.{printed_start, parse_proc_start-printed}
use mini_lmk.Config.{default_config, parse_str}
use mini_lmk.Parser.Line.{parse_epoch_ms, parse_logcat_line}
use mini_lmk.Parser.Activity.{parse_resume_activity}
use mini_lmk.Daemon.{proc_start, proc_died}

epoch_fraction : parse_epoch_ms (codes "1695411709.23") ≡ some 1695411709230
unfolding parse_epoch_ms
epoch_fraction = refl

epoch_overflow : parse_epoch_ms (codes "18446744073709551615") ≡ none
unfolding parse_epoch_ms
epoch_overflow = refl

intent_component :
    parse_resume_activity (codes "[0,1,12,{act=a.b, cmp=com.ex.app/.Main flg=0x1}]")
    ≡ some (record { pkg = codes "com.ex.app"; component = codes "com.ex.app/.Main" })
unfolding parse_resume_activity
intent_component = refl

died_line :
    parse_logcat_line
      (λ _. false)
      (codes "1695411709.231  2415  2415 I am_proc_died: [0,12763,com.ex.app,900,kill background]")
    ≡ some (1695411709231, proc_died (record { pid = 12763 }))
unfolding parse_logcat_line text_beq
died_line = refl

start_line :
    parse_logcat_line
      (λ _. false)
      (codes
        "1695411709.231  2415  2415 I am_proc_start: [0,12763,10130,com.ex.app:svc,service,{com.ex.app/.S}]")
    ≡ some (
      1695411709231,
      proc_start (record {
        proc_name = codes "com.ex.app:svc";
        pkg = codes "com.ex.app";
        spawn_type = codes "service";
        pid = 12763;
        uid = 10130;
      }),
    )
unfolding parse_logcat_line text_beq
start_line = refl

conf :
    parse_str
      (codes
        "# x\n t_idle_sec = 60 # c\nmin_oom_score_adj=300\nmax_kills_per_pass = 0\nlog_enabled = no\n")
      default_config
    ≡ record default_config { t_idle_sec = 60; min_oom_score_adj = pos 500; max_kills_per_pass = 1 }
unfolding parse_str text_beq
conf = refl

abbrev service_name : Text
service_name = codes "com.ex.app:svc"

abbrev service : Text
service = codes "service"

printed_line :
    printed_start 0 12763 10130 service_name service (codes "{com.ex.app/.S}]")
    ≡ codes "[0,12763,10130,com.ex.app:svc,service,{com.ex.app/.S}]"
unfolding show_ℕ
printed_line = refl

service_name-Plain : Plain service_name
unfolding is_plain is_whitespace
service_name-Plain = refl

service-Plain : Plain service
unfolding is_plain is_whitespace
service-Plain = refl

service_name_is_name : is_proc_name service_name ≡ true
unfolding is_proc_name
service_name_is_name = refl

service_pkg_is_name : is_proc_name (package_of service_name) ≡ true
unfolding is_proc_name package_of
service_pkg_is_name = refl

parse_proc_start-printed_example :
    parse_proc_start
      (λ _. false)
      (printed_start 0 12763 10130 service_name service (codes "{com.ex.app/.S}]"))
    ≡ some (record {
      proc_name = service_name;
      pkg = package_of service_name;
      spawn_type = service;
      pid = 12763;
      uid = 10130;
    })
parse_proc_start-printed_example =
    parse_proc_start-printed (λ _. false) 0 12763 10130 service_name service
      (codes "{com.ex.app/.S}]") (omega arith) (omega arith) (omega arith) service_name-Plain
      service-Plain service_name_is_name service_pkg_is_name

parse_proc_died-printed_example :
    parse_proc_died (printed_death 10 12763 service_name (codes "900,kill]"))
    ≡ some (record { pid = 12763 })
parse_proc_died-printed_example =
    parse_proc_died-printed 10 12763 service_name (codes "900,kill]") (omega arith) (omega arith)
      service_name-Plain service_name_is_name
