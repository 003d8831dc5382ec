-- ===== src/Events/Ages.antt =====
-- src/events.rs, `clock_jump_ms` and `apply_clock_jump`: ages across a step of the wall clock.
use mini_lmk.Base.{
  ℕ, ◌-◌, ◌+◌, ◌≤◌, ◌<◌, false, ◌≡◌, ◌≢◌, refl, ap, sym, subst, ◌⊎◌, Option, none, some, ℤ, pos,
  negsuc, neg_part, pos_part, eqb_ℤ, two_63, Text, text_eq, arith,
}
use mini_lmk.Base.Map.{Map, lookup, map_values, lookup-map_values, map_option}
use mini_lmk.State.{DaemonState}
use mini_lmk.Events.Clock.{clock_jump_ms, apply_clock_jump, shift, shift_anchors, rtc_sync_floor_ms}

-- The steps that the classifier knows, for a clock that was readable: back, or out of the years
-- before the floor.
abbrev pub IsStep : ℕ → ℕ → Type 0
IsStep prev now = (now < prev) ⊎ ((prev < rtc_sync_floor_ms) × (rtc_sync_floor_ms ≤ now))

step_value :
    (prev now : ℕ)
    → prev < two_63
    → now < two_63
    → prev ≢ 0
    → IsStep prev now
    → pos_part (clock_jump_ms prev now) + prev ≡ now + neg_part (clock_jump_ms prev now)
unfolding clock_jump_ms
step_value prev now hp hn nz h = ground arith

shift_age :
    (jump : ℤ) (prev now a : ℕ)
    → now < two_63
    → a < two_63
    → pos_part jump + prev ≡ now + neg_part jump
    → neg_part jump ≤ a
    → now - shift jump a ≡ prev - a
shift_age (pos n) prev now a hn ha e h = ground arith
shift_age (negsuc n) prev now a hn ha e h = ground arith

step_back :
    (prev now : ℕ) → prev < two_63 → now < two_63 → neg_part (clock_jump_ms prev now) ≤ prev - now
unfolding clock_jump_ms
step_back prev now hp hn = ground arith

-- The anchor, if there is one, is below 2 ^ 63, and a step back does not lead it behind the epoch.
abbrev pub Anchored : ℕ → ℕ → Option ℕ → Type 0
Anchored prev now none = Unit
Anchored prev now (some a) = (a < two_63) × (prev - now ≤ a)

-- Every anchor of the state is of this kind.
pub record AllAnchored (prev now : ℕ) (d : DaemonState) : Type 0 where
  pub alive : (pkg : Text) → Anchored prev now (lookup pkg d.alive_apps)
  pub deaths : (pkg : Text) → Anchored prev now (lookup pkg d.recent_deaths)
  pub screen_on : Anchored prev now d.screen_on_start
  pub screen_off : Anchored prev now d.screen_off_start
  pub game : Anchored prev now d.game_session_start
  pub session : Anchored prev now (some d.session_start)

-- The anchors come and go together, and the age at `now` is the age that there was at `prev`.
abbrev pub SameAge : ℕ → ℕ → Option ℕ → Option ℕ → Type 0
SameAge prev now old new = map_option (λ a. now - a) new ≡ map_option (λ a. prev - a) old

-- Every anchor of the second state has the age that it had in the first.
pub record SameAges (prev now : ℕ) (d e : DaemonState) : Type 0 where
  pub alive : (pkg : Text) → SameAge prev now (lookup pkg d.alive_apps) (lookup pkg e.alive_apps)
  pub deaths :
      (pkg : Text) → SameAge prev now (lookup pkg d.recent_deaths) (lookup pkg e.recent_deaths)
  pub screen_on : SameAge prev now d.screen_on_start e.screen_on_start
  pub screen_off : SameAge prev now d.screen_off_start e.screen_off_start
  pub game : SameAge prev now d.game_session_start e.game_session_start
  pub session : SameAge prev now (some d.session_start) (some e.session_start)

module _ (prev now : ℕ) (hp : prev < two_63) (hn : now < two_63) (nz : prev ≢ 0)
    (step : IsStep prev now) where
  anchor_shifted :
      (a : ℕ) → a < two_63 → prev - now ≤ a → now - shift (clock_jump_ms prev now) a ≡ prev - a
  anchor_shifted a ha h =
      shift_age (clock_jump_ms prev now) prev now a hn ha (step_value prev now hp hn nz step)
        (omega (arith, step_back prev now hp hn))

  map_option-SameAge :
      (o : Option ℕ)
      → Anchored prev now o
      → SameAge prev now o (map_option (shift (clock_jump_ms prev now)) o)
  map_option-SameAge none h = refl
  map_option-SameAge (some a) h = ap some (anchor_shifted a h.0 h.1)

  lookup-SameAge :
      (pkg : Text) (m : Map Text ℕ)
      → Anchored prev now (lookup pkg m)
      → SameAge prev now (lookup pkg m) (lookup pkg (map_values (shift (clock_jump_ms prev now)) m))
  lookup-SameAge pkg m h =
      subst (SameAge prev now (lookup pkg m)) (sym (lookup-map_values pkg _ m))
        (map_option-SameAge (lookup pkg m) h)

  shift_anchors-SameAges :
      (d : DaemonState)
      → AllAnchored prev now d
      → SameAges prev now d (shift_anchors (clock_jump_ms prev now) d)
  unfolding shift_anchors
  shift_anchors-SameAges d h = record {
    alive = λ pkg. lookup-SameAge pkg d.alive_apps (h.alive pkg);
    deaths = λ pkg. lookup-SameAge pkg d.recent_deaths (h.deaths pkg);
    screen_on = map_option-SameAge d.screen_on_start h.screen_on;
    screen_off = map_option-SameAge d.screen_off_start h.screen_off;
    game = map_option-SameAge d.game_session_start h.game;
    session = map_option-SameAge (some d.session_start) h.session;
  }

  step-ne-zero : eqb_ℤ (clock_jump_ms prev now) (pos 0) ≡ false
  unfolding clock_jump_ms
  step-ne-zero = ground arith

  -- At a step of the clock, back or out of the years before the floor, with both times and every
  -- anchor below 2 ^ 63, and no anchor led behind the epoch: every live package, recent death,
  -- screen state, game session and summary interval keeps its age.
  pub ages_survive_step :
      (d : DaemonState)
      → AllAnchored prev now d
      → SameAges prev now d (apply_clock_jump (clock_jump_ms prev now) d)
  unfolding apply_clock_jump
  ages_survive_step d h = rw step-ne-zero (shift_anchors-SameAges d h)

-- Between two events that are no step of the clock, or behind an unreadable one, nothing is shifted:
-- the time that passed counts as idle time.
pub quiet_gap_counts :
    (prev now : ℕ) (d : DaemonState)
    → (prev ≡ 0) ⊎ ((prev ≤ now) × ((rtc_sync_floor_ms ≤ prev) ⊎ (now < rtc_sync_floor_ms)))
    → apply_clock_jump (clock_jump_ms prev now) d ≡ d
unfolding apply_clock_jump clock_jump_ms
quiet_gap_counts prev now d h = ground arith
