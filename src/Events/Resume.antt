-- ===== src/Events/Resume.antt =====
-- src/events.rs, `on_resume_activity`, one function for each of its parts.
use mini_lmk.Base.{
  ℕ, ◌-◌, ◌/◌, Bool, true, false, not, ◌&&◌, Option, none, some, List, [], ◌∷◌, ltb, leb,
  if◌then◌else◌, Text, text_beq, text_eq, length, map_or, is_some_and,
}
use mini_lmk.Base.Map.{lookup, insert, contains}
use mini_lmk.State.{
  DaemonState, World, fg_switch, game_session_start, game_session_end, emit, perform, is_pkg,
}
use mini_lmk.Events.Summary.{emit_bg_summary}
use mini_lmk.Kill.Pass.{evaluate_reaping_pipeline}

pub record ResumeActivityEvent : Type 0 where
  pub pkg : Text
  pub component : Text

abbrev pub known_app_uid : DaemonState → Text → Bool
known_app_uid d pkg = is_some_and (lookup pkg d.pkg_to_uid) (λ uid. leb 10000 uid)

-- The package that leaves the foreground is stamped with the time; the number is how long it had
-- been there, where it had a stamp.
unfoldable pub stamp : Text → ℕ → DaemonState → ℕ × DaemonState
stamp prev now d =
    let d' = record d { alive_apps = insert prev now d.alive_apps } in
    elim (lookup prev d.alive_apps) [ none ↦ (0, d') | some anchor ↦ (now - anchor, d') ]

unfoldable pub leave : Option Text → Text → ℕ → DaemonState → ℕ × DaemonState
unfolding stamp
leave none pkg now d = (0, d)
leave (some prev) pkg now d =
    if not (text_beq prev pkg) && known_app_uid d prev then stamp prev now d else (0, d)

-- `position` and `remove`: the first occurrence goes.
unfoldable pub remove_first : Text → List Text → List Text
remove_first pkg [] = []
remove_first pkg (x ∷ xs) = if text_beq x pkg then xs else x ∷ remove_first pkg xs

-- A package that was in the foreground for less than half a second leaves the LRU.
unfoldable pub drop_trampoline : Option Text → ℕ → List Text → List Text
unfolding remove_first
drop_trampoline none dur lru = lru
drop_trampoline (some prev) dur lru =
    if ltb 0 dur && ltb dur 500 then remove_first prev lru else lru

unfoldable pub pop_back : List Text → List Text
pop_back [] = []
pop_back (x ∷ []) = []
pop_back (x ∷ y ∷ xs) = x ∷ pop_back (y ∷ xs)

unfoldable pub push_capped : ℕ → Text → List Text → List Text
unfolding pop_back
push_capped max_depth pkg lru =
    let pushed = pkg ∷ lru in if ltb max_depth (length pushed) then pop_back pushed else pushed

-- The package moves to the front of the LRU, or enters it there.
unfoldable pub touch_lru : ℕ → Text → List Text → List Text
unfolding remove_first push_capped contains
touch_lru max_depth pkg lru =
    if contains pkg lru then pkg ∷ remove_first pkg lru else push_capped max_depth pkg lru

unfoldable pub game_step : Bool → Bool → Text → ℕ → DaemonState → DaemonState
game_step true false pkg now d =
    perform (emit (game_session_start now pkg))
      (record d { game_session_start = some now; game_intrusion_count = 0 })
game_step false true pkg now d =
    let duration_sec = map_or d.game_session_start 0 (λ s. (now - s) / 1000) in
    record (perform (emit (game_session_end now duration_sec d.game_intrusion_count)) d) {
      game_session_start = none;
    }
game_step is_game was_gaming pkg now d = d

unfoldable pub update_game : Text → ℕ → DaemonState → DaemonState
unfolding game_step contains
update_game pkg now d =
    let is_game = contains pkg d.games in
    game_step is_game d.is_gaming pkg now (record d { is_gaming = is_game })

-- Everything in front of the evaluation.
unfoldable pub switch_foreground : ResumeActivityEvent → ℕ → DaemonState → DaemonState
unfolding leave emit_bg_summary drop_trampoline touch_lru update_game
switch_foreground ev now d =
    let prev = d.current_fg in
    let (dur, d1) = leave prev ev.pkg now (record d { current_fg = none }) in
    let d2 = emit_bg_summary now ((now - d1.session_start) / 1000) d1 in
    let lru = drop_trampoline prev dur d2.fg_lru in
    let d3 = record d2 { fg_lru = touch_lru d2.config.fg_lru_max_depth ev.pkg lru } in
    let d4 = update_game ev.pkg now d3 in
    perform (emit (fg_switch now ev.pkg ev.component prev dur d4.is_gaming))
      (record d4 { current_fg = some ev.pkg })

unfoldable pub on_resume_activity : World → ResumeActivityEvent → ℕ → DaemonState → DaemonState
unfolding switch_foreground evaluate_reaping_pipeline
on_resume_activity w ev now d =
    let d' = switch_foreground ev now d in
    if is_pkg d.current_fg ev.pkg then d' else evaluate_reaping_pipeline w now d'
