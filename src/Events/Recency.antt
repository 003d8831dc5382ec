-- ===== src/Events/Recency.antt =====
-- src/events.rs, `on_resume_activity`: the LRU of the packages that were in the foreground.
use mini_lmk.Base.{
  ℕ, suc, ◌≤◌, Bool, true, false, ◌&&◌, ◌≡◌, refl, Option, none, some, List, [], ◌∷◌, Text, text_eq,
  text_beq, text_beq_iff, ltb, length, max, arith, Bool-cases, inl, inr, if_keeps, ap, sym, subst,
  ◌∙◌, ◌-◌, ◌/◌, get_elem?,
}
use mini_lmk.Base.Map.{contains}
use mini_lmk.State.{DaemonState, World, is_pkg}
use mini_lmk.Kill.Effects.{evaluate-Allowed}
use mini_lmk.Kill.Pass.{evaluate_reaping_pipeline}
use mini_lmk.Events.Summary.{emit_bg_summary}
use mini_lmk.Events.Resume.{
  ResumeActivityEvent, remove_first, drop_trampoline, pop_back, push_capped, touch_lru, leave,
  stamp, game_step, update_game, switch_foreground, on_resume_activity,
}

-- No package stands in the list twice.
unfoldable pub Nodup : List Text → Type 0
Nodup [] = Unit
Nodup (x ∷ xs) = (contains x xs ≡ false) × Nodup xs

contains-remove_first_other :
    (p q : Text) (xs : List Text) → contains q xs ≡ false → contains q (remove_first p xs) ≡ false
unfolding contains remove_first
contains-remove_first_other p q [] h = h
contains-remove_first_other p q (x ∷ xs) h = ground (arith, contains-remove_first_other p q xs)

remove_first-Nodup : (p : Text) (xs : List Text) → Nodup xs → Nodup (remove_first p xs)
unfolding Nodup remove_first
remove_first-Nodup p [] h = tt
remove_first-Nodup p (x ∷ xs) h =
    if_keeps Nodup (text_beq x p) xs (x ∷ remove_first p xs) h.1
      (contains-remove_first_other p x xs h.0, remove_first-Nodup p xs h.1)

contains-remove_first :
    (p : Text) (xs : List Text) → Nodup xs → contains p (remove_first p xs) ≡ false
unfolding contains remove_first Nodup
contains-remove_first p [] h = refl
contains-remove_first p (x ∷ xs) h = elim (Bool-cases (text_beq x p)) [
  | inl e ↦ rw e (subst (λ q. contains q xs ≡ false) ((text_beq_iff x p).0 e) h.0)
  | inr e ↦ rw (e, e) (contains-remove_first p xs h.1)
]

length-remove_first : (p : Text) (xs : List Text) → length (remove_first p xs) ≤ length xs
unfolding remove_first
length-remove_first p [] = omega arith
length-remove_first p (x ∷ xs) = ground (arith, length-remove_first p xs)

length-remove_first_found :
    (p : Text) (xs : List Text)
    → contains p xs ≡ true
    → suc (length (remove_first p xs)) ≡ length xs
unfolding remove_first contains
length-remove_first_found p [] h = ground arith
length-remove_first_found p (x ∷ xs) h = ground (arith, length-remove_first_found p xs)

contains-pop_back :
    (q : Text) (xs : List Text) → contains q xs ≡ false → contains q (pop_back xs) ≡ false
unfolding contains pop_back
contains-pop_back q [] h = h
contains-pop_back q (x ∷ []) h = refl
contains-pop_back q (x ∷ y ∷ xs) h = ground (arith, contains-pop_back q (y ∷ xs))

pop_back-Nodup : (xs : List Text) → Nodup xs → Nodup (pop_back xs)
unfolding Nodup pop_back
pop_back-Nodup [] h = tt
pop_back-Nodup (x ∷ []) h = tt
pop_back-Nodup (x ∷ y ∷ xs) h = (contains-pop_back x (y ∷ xs) h.0, pop_back-Nodup (y ∷ xs) h.1)

length-pop_back : (x : Text) (xs : List Text) → length (pop_back (x ∷ xs)) ≡ length xs
unfolding pop_back
length-pop_back x [] = refl
length-pop_back x (y ∷ xs) = ground (arith, length-pop_back y xs)

push_capped-Nodup :
    (n : ℕ) (p : Text) (xs : List Text)
    → contains p xs ≡ false
    → Nodup xs
    → Nodup (push_capped n p xs)
unfolding push_capped Nodup
push_capped-Nodup n p xs c h =
    if_keeps Nodup (ltb n (length (p ∷ xs))) (pop_back (p ∷ xs)) (p ∷ xs)
      (pop_back-Nodup (p ∷ xs) (c, h)) (c, h)

touch_lru-Nodup : (n : ℕ) (p : Text) (xs : List Text) → Nodup xs → Nodup (touch_lru n p xs)
unfolding touch_lru Nodup
touch_lru-Nodup n p xs h = elim (Bool-cases (contains p xs)) [
  | inl e ↦ rw e (contains-remove_first p xs h, remove_first-Nodup p xs h)
  | inr e ↦ rw e (push_capped-Nodup n p xs e h)
]

length-touch_lru :
    (n : ℕ) (p : Text) (xs : List Text) → length (touch_lru n p xs) ≤ max n (length xs)
unfolding touch_lru push_capped
length-touch_lru n p xs = ground (arith, length-remove_first_found p xs, length-pop_back p xs)

touch_lru-front :
    (n : ℕ) (p : Text) (xs : List Text) → 1 ≤ n → get_elem? (touch_lru n p xs) 0 ≡ some p
unfolding touch_lru push_capped pop_back
touch_lru-front n p [] h = ground arith
touch_lru-front n p (x ∷ xs) h = ground arith

drop_trampoline-Nodup :
    (o : Option Text) (dur : ℕ) (xs : List Text) → Nodup xs → Nodup (drop_trampoline o dur xs)
unfolding drop_trampoline
drop_trampoline-Nodup none dur xs h = h
drop_trampoline-Nodup (some p) dur xs h =
    if_keeps Nodup (ltb 0 dur && ltb dur 500) (remove_first p xs) xs (remove_first-Nodup p xs h) h

length-drop_trampoline :
    (o : Option Text) (dur : ℕ) (xs : List Text) → length (drop_trampoline o dur xs) ≤ length xs
unfolding drop_trampoline
length-drop_trampoline none dur xs = omega arith
length-drop_trampoline (some p) dur xs = ground (arith, length-remove_first p xs)

leave-keeps :
    (o : Option Text) (pkg : Text) (now : ℕ) (d : DaemonState)
    → ((leave o pkg now d).1.fg_lru ≡ d.fg_lru) × ((leave o pkg now d).1.config ≡ d.config)
unfolding leave stamp
leave-keeps none pkg now d = (refl, refl)
leave-keeps (some prev) pkg now d = (ground arith, ground arith)

emit_bg_summary-keeps :
    (now sec : ℕ) (d : DaemonState)
    → ((emit_bg_summary now sec d).fg_lru ≡ d.fg_lru)
      × ((emit_bg_summary now sec d).config ≡ d.config)
unfolding emit_bg_summary
emit_bg_summary-keeps now sec d = (ground arith, ground arith)

game_step-fg_lru :
    (b c : Bool) (pkg : Text) (now : ℕ) (d : DaemonState)
    → (game_step b c pkg now d).fg_lru ≡ d.fg_lru
unfolding game_step
game_step-fg_lru true true pkg now d = refl
game_step-fg_lru true false pkg now d = refl
game_step-fg_lru false true pkg now d = refl
game_step-fg_lru false false pkg now d = refl

update_game-fg_lru :
    (pkg : Text) (now : ℕ) (d : DaemonState) → (update_game pkg now d).fg_lru ≡ d.fg_lru
unfolding update_game
update_game-fg_lru pkg now d =
    game_step-fg_lru (contains pkg d.games) d.is_gaming pkg now
      (record d { is_gaming = contains pkg d.games })

-- How long the package that leaves had been in the foreground.
abbrev stay : ResumeActivityEvent → ℕ → DaemonState → ℕ
stay ev now d = (leave d.current_fg ev.pkg now (record d { current_fg = none })).0

switch_foreground-fg_lru :
    (ev : ResumeActivityEvent) (now : ℕ) (d : DaemonState)
    → (switch_foreground ev now d).fg_lru
      ≡ touch_lru d.config.fg_lru_max_depth ev.pkg
          (drop_trampoline d.current_fg (stay ev now d) d.fg_lru)
unfolding switch_foreground
switch_foreground-fg_lru ev now d =
    let d0 = record d { current_fg = none } in
    let l = leave d.current_fg ev.pkg now d0 in
    let k = leave-keeps d.current_fg ev.pkg now d0 in
    let sec = (now - l.1.session_start) / 1000 in
    let d2 = emit_bg_summary now sec l.1 in
    let k2 = emit_bg_summary-keeps now sec l.1 in
    let lru = drop_trampoline d.current_fg l.0 d2.fg_lru in
    let d3 = record d2 { fg_lru = touch_lru d2.config.fg_lru_max_depth ev.pkg lru } in
    update_game-fg_lru ev.pkg now d3
    ∙ ap (λ c. touch_lru c.fg_lru_max_depth ev.pkg lru) (k2.1 ∙ k.1)
    ∙ ap (λ x. touch_lru d.config.fg_lru_max_depth ev.pkg (drop_trampoline d.current_fg l.0 x))
        (k2.0 ∙ k.0)

switch_foreground-current_fg :
    (ev : ResumeActivityEvent) (now : ℕ) (d : DaemonState)
    → (switch_foreground ev now d).current_fg ≡ some ev.pkg
unfolding switch_foreground
switch_foreground-current_fg ev now d = refl

-- What the foreground keeps after a resume.
pub record Fronted (before : DaemonState) (pkg : Text) (after : DaemonState) : Type 0 where
  pub current : after.current_fg ≡ some pkg
  pub front : get_elem? after.fg_lru 0 ≡ some pkg
  pub distinct : Nodup after.fg_lru
  pub bounded : length after.fg_lru ≤ max before.config.fg_lru_max_depth (length before.fg_lru)

switch_foreground-Fronted :
    (ev : ResumeActivityEvent) (now : ℕ) (d : DaemonState)
    → 1 ≤ d.config.fg_lru_max_depth
    → Nodup d.fg_lru
    → Fronted d ev.pkg (switch_foreground ev now d)
switch_foreground-Fronted ev now d h n =
    let n' = d.config.fg_lru_max_depth in
    let lru = drop_trampoline d.current_fg (stay ev now d) d.fg_lru in
    let e = switch_foreground-fg_lru ev now d in
    let b = length-drop_trampoline d.current_fg (stay ev now d) d.fg_lru in
    let c = length-touch_lru n' ev.pkg lru in
    record {
      current = switch_foreground-current_fg ev now d;
      front = rw e (touch_lru-front n' ev.pkg lru h);
      distinct = rw e (
          touch_lru-Nodup n' ev.pkg lru
            (drop_trampoline-Nodup d.current_fg (stay ev now d) d.fg_lru n));
      bounded = rw e (omega arith);
    }

evaluate-Fronted :
    (w : World) (now : ℕ) (pkg : Text) (d e : DaemonState)
    → Fronted d pkg e
    → Fronted d pkg (evaluate_reaping_pipeline w now e)
evaluate-Fronted w now pkg d e h =
    subst (Fronted d pkg) (sym (evaluate-Allowed w now e).frame)
      (record { current = h.current; front = h.front; distinct = h.distinct; bounded = h.bounded })

-- Where the depth of the LRU is at least one and no package stands in it twice: after an activity
-- is resumed, and after the pass that may follow, its package is in the foreground and at the front
-- of the LRU, no package stands in the LRU twice, and the LRU is no longer than it was or than its
-- depth.
pub on_resume_activity-Fronted :
    (w : World) (ev : ResumeActivityEvent) (now : ℕ) (d : DaemonState)
    → 1 ≤ d.config.fg_lru_max_depth
    → Nodup d.fg_lru
    → Fronted d ev.pkg (on_resume_activity w ev now d)
unfolding on_resume_activity
on_resume_activity-Fronted w ev now d h n =
    let d' = switch_foreground ev now d in
    let f = switch_foreground-Fronted ev now d h n in
    if_keeps (Fronted d ev.pkg) (is_pkg d.current_fg ev.pkg) d' _ f
      (evaluate-Fronted w now ev.pkg d d' f)
