-- ===== src/Reactor/Stops.antt =====
-- src/daemon.rs, `run`, behind a stop signal.
use mini_lmk.Base.{
  ℕ, Bool, true, false, Bool-cases, inl, inr, ◌≡◌, refl, sym, ◌∙◌, ap, List, [], ◌∷◌, if_keeps,
  if◌then◌else◌,
}
use mini_lmk.State.{World}
use mini_lmk.Reactor.{
  Turn, Reactor, Progress, going, left, ◌>>=◌, note_signal, reload_files, drain_children, feed,
  turn, shut_down, run_loop, poll_timeout,
}
use mini_lmk.Reactor.Loop.{At, Loop, on_poll-At}

abbrev pub has_left : Progress → Bool
has_left (going r) = false
has_left (left e r) = true

-- The flag that the signal cleared.
abbrev Stopping : Reactor → Type 0
Stopping r = r.running ≡ false

module _ (alphabetic : ℕ → Bool) (worlds : ℕ → World) where
  Stopping-loop : Loop alphabetic worlds Stopping (λ r. Unit {0})
  unfolding note_signal drain_children reload_files feed
  Stopping-loop = record {
    signals = λ stop r h. if_keeps Stopping stop (record r { running = false }) r refl h;
    feeds = λ bs r h. h;
    reloads = λ e r h. h;
    flushes = λ r h. h;
    drains = λ r h. h;
    waits = λ n r h. h;
    fails = λ r h. tt;
    stops = λ r h. tt;
  }

  turn-Stopping :
      (t : Turn) (r : Reactor)
      → t.stop ≡ true
      → At Stopping (λ x. Unit) (turn alphabetic worlds t r)
  unfolding turn note_signal
  turn-Stopping t r h =
      let r0 = record r { waits = poll_timeout r ∷ r.waits } in
      let off : Stopping (note_signal t.stop r0) = rw h refl in
      on_poll-At alphabetic worlds Stopping (λ x. Unit) Stopping-loop t (note_signal t.stop r0) off

  loop_stopped :
      (ts : List Turn) (r : Reactor)
      → r.running ≡ false
      → run_loop alphabetic worlds ts r ≡ shut_down r
  unfolding run_loop
  loop_stopped [] r h = rw h refl
  loop_stopped (t ∷ ts) r h = rw h refl

  shut_down-left : (r : Reactor) → has_left (shut_down r) ≡ true
  unfolding shut_down
  shut_down-left r = refl

  ends_here :
      (m : Progress) (ts : List Turn)
      → At Stopping (λ x. Unit) m
      → (has_left (m >>= λ r. run_loop alphabetic worlds ts r) ≡ true)
        × ((m >>= λ r. run_loop alphabetic worlds ts r)
            ≡ (m >>= λ r. run_loop alphabetic worlds [] r))
  ends_here (left e r) ts h = (refl, refl)
  ends_here (going r) ts h = rw (loop_stopped ts r h, loop_stopped [] r h) (shut_down-left r, refl)

  loop_runs :
      (t : Turn) (ts : List Turn) (r : Reactor)
      → r.running ≡ true
      → run_loop alphabetic worlds (t ∷ ts) r
        ≡ (turn alphabetic worlds t r >>= λ r'. run_loop alphabetic worlds ts r')
  unfolding run_loop
  loop_runs t ts r h =
      ap
        (λ b.
          if b
          then turn alphabetic worlds t r >>= (λ r'. run_loop alphabetic worlds ts r')
          else shut_down r)
        h

  -- A stop signal that comes while the daemon waits ends it: whatever the wait gave and whatever
  -- would follow, the process leaves in that round, and waits no more.
  pub stop_ends :
      (t : Turn) (ts : List Turn) (r : Reactor)
      → t.stop ≡ true
      → (has_left (run_loop alphabetic worlds (t ∷ ts) r) ≡ true)
        × (run_loop alphabetic worlds (t ∷ ts) r ≡ run_loop alphabetic worlds (t ∷ []) r)
  stop_ends t ts r h = elim (Bool-cases r.running) [
    | inl e ↦
        let (gone, same) = ends_here (turn alphabetic worlds t r) ts (turn-Stopping t r h) in
        (
          ap has_left (loop_runs t ts r e) ∙ gone,
          loop_runs t ts r e ∙ same ∙ sym (loop_runs t [] r e),
        )
    | inr e ↦ (
      ap has_left (loop_stopped (t ∷ ts) r e) ∙ shut_down-left r,
      loop_stopped (t ∷ ts) r e ∙ sym (loop_stopped (t ∷ []) r e),
    )
  ]
