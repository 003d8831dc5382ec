-- ===== src/Reactor/Loop.antt =====
-- src/daemon.rs, `run`: the rule of the reactor. What each of its steps keeps, the loop keeps.
use mini_lmk.Base.{
  ℕ, Bool, true, false, not, ◌&&◌, List, [], ◌∷◌, ◌==◌, if◌then◌else◌, is_some_and, ℤ,
}
use mini_lmk.State.{World}
use mini_lmk.Startup.Reload.{emit_startup_record}
use mini_lmk.Reactor.{
  PipeRead, ReadReply, PollEvent, PollReply, ReadEnd, would_block, eof, Turn, Reactor, Failure,
  logcat_died, pipe_eof, pipe_error, pipe_hup, poll_error, Progress, going, left, ◌>>=◌,
  with_daemon, flushed, note_signal, leave_fatal, drain_children, reap_terminated_children,
  end_reads, is_hung, is_pipe, token_inotify, reload_files, feed, read_pipe, on_event, on_events,
  on_poll, turn, stop_stream, shut_down, run_loop, poll_timeout,
}

-- One property while the process goes on, and one where it has left.
abbrev pub At : (Reactor → Type 0) → (Reactor → Type 0) → Progress → Type 0
At P Q (going r) = P r
At P Q (left e r) = Q r

module _ (P P' Q : Reactor → Type 0) where
  pub At-bind :
      (m : Progress) (k : Reactor → Progress)
      → ((r : Reactor) → P r → At P' Q (k r))
      → At P Q m
      → At P' Q (m >>= k)
  At-bind (going r) k f h = f r h
  At-bind (left e r) k f h = h

module _ (P Q : Reactor → Type 0) where
  pub At-if : (b : Bool) (x y : Progress) → At P Q x → At P Q y → At P Q (if b then x else y)
  At-if true x y h k = h
  At-if false x y h k = k

module _ (alphabetic : ℕ → Bool) (worlds : ℕ → World) where
  -- What the steps of the loop keep.
  pub record Loop (P Q : Reactor → Type 0) : Type 0 where
    pub signals : (stop : Bool) (r : Reactor) → P r → P (note_signal stop r)
    pub feeds : (bs : List ℕ) (r : Reactor) → P r → P (feed alphabetic worlds bs r)
    pub reloads : (e : PollEvent) (r : Reactor) → P r → P (reload_files e r)
    pub flushes : (r : Reactor) → P r → P (flushed r)
    pub drains : (r : Reactor) → P r → P (drain_children r)
    pub waits : (n : ℤ) (r : Reactor) → P r → P (record r { waits = n ∷ r.waits })
    pub fails :
        (r : Reactor) → P r → Q (flushed (with_daemon (emit_startup_record r.reader.daemon) r))
    pub stops : (r : Reactor) → P r → Q (flushed (drain_children (stop_stream r)))

module _ (alphabetic : ℕ → Bool) (worlds : ℕ → World) (P Q : Reactor → Type 0)
    (loop : Loop alphabetic worlds P Q) where
  leave_fatal-At : (f : Failure) (r : Reactor) → P r → At P Q (leave_fatal f r)
  unfolding leave_fatal
  leave_fatal-At f r h = loop.fails r h

  reap-At : (pids : List ℕ) (r : Reactor) → P r → At P Q (reap_terminated_children pids r)
  unfolding reap_terminated_children
  reap-At [] r h = loop.drains r h
  reap-At (pid ∷ pids) r h =
      At-if P Q (not (is_some_and r.logcat_pid (λ child. pid == child))) _ _ (reap-At pids r h)
        (At-if P Q r.running _ _ (leave_fatal-At logcat_died r h) (loop.drains r h))

  end_reads-At : (end : ReadEnd) (r : Reactor) → P r → At P Q (end_reads end r)
  unfolding end_reads
  end_reads-At would_block r h = h
  end_reads-At eof r h = At-if P Q r.running _ _ (leave_fatal-At pipe_eof r h) h
  end_reads-At ReadEnd.failed r h = leave_fatal-At pipe_error r h

  shut_down-At : (r : Reactor) → P r → At P Q (shut_down r)
  unfolding shut_down
  shut_down-At r h = loop.stops r h

  read_pipe-At :
      (xs : List PipeRead) (end : ReadEnd) (r : Reactor)
      → P r
      → At P Q (read_pipe alphabetic worlds xs end r)
  unfolding read_pipe
  read_pipe-At [] end r h = end_reads-At end r h
  read_pipe-At (x ∷ xs) end r h =
      let r' = note_signal x.stop r in
      let h' = loop.signals x.stop r h in
      elim x.reply
        as (λ reply. At P Q (elim reply [
          | ReadReply.bytes bs ↦ read_pipe alphabetic worlds xs end (feed alphabetic worlds bs r')
          | ReadReply.interrupted ↦ elim r'.running [
            | true ↦ read_pipe alphabetic worlds xs end r'
            | false ↦ going r'
          ]
        ])) [
          | ReadReply.bytes bs ↦
              read_pipe-At xs end (feed alphabetic worlds bs r') (loop.feeds bs r' h')
          | ReadReply.interrupted ↦
              elim r'.running
                as (λ on.
                  At P Q
                    (elim on [ true ↦ read_pipe alphabetic worlds xs end r' | false ↦ going r' ])) [
                      | true ↦ read_pipe-At xs end r' h'
                      | false ↦ h'
                    ]
        ]

  on_event-At : (e : PollEvent) (r : Reactor) → P r → At P Q (on_event alphabetic worlds e r)
  unfolding on_event
  on_event-At e r h =
      At-if P Q (is_pipe e) _ _
        (At-if P Q (is_hung e) _ _ (leave_fatal-At pipe_hup r h)
          (read_pipe-At e.reads e.read_end r h))
        (At-if P Q (e.token == token_inotify) _ _ (loop.reloads e r h) h)

  pub on_events-At :
      (es : List PollEvent) (r : Reactor) → P r → At P Q (on_events alphabetic worlds es r)
  unfolding on_events
  on_events-At [] r h = h
  on_events-At (e ∷ es) r h = At-if P Q (is_pipe e && is_hung e && not r.running) _ _ h (
      At-bind P P Q (on_event alphabetic worlds e r) (λ r'. on_events alphabetic worlds es r')
        (λ r' k. on_events-At es r' k) (on_event-At e r h))

  pub on_poll-At : (t : Turn) (r : Reactor) → P r → At P Q (on_poll alphabetic worlds t r)
  unfolding on_poll
  on_poll-At t r h =
      let reaped = reap-At t.reaped r h in
      elim t.poll
        as (λ p. At P Q (elim p [
          | PollReply.ready es ↦
              reap_terminated_children t.reaped r
              >>= (λ r1. on_events alphabetic worlds es r1)
              >>= λ r2. going (flushed r2)
          | PollReply.interrupted ↦ reap_terminated_children t.reaped r
          | PollReply.failed ↦ leave_fatal poll_error r
        ])) [
          | PollReply.ready es ↦
              At-bind P P Q
                (reap_terminated_children t.reaped r >>= λ r1. on_events alphabetic worlds es r1)
                (λ r2. going (flushed r2)) (λ r2 k. loop.flushes r2 k)
                (At-bind P P Q (reap_terminated_children t.reaped r)
                  (λ r1. on_events alphabetic worlds es r1) (λ r1 k. on_events-At es r1 k) reaped)
          | PollReply.interrupted ↦ reaped
          | PollReply.failed ↦ leave_fatal-At poll_error r h
        ]

  pub turn-At : (t : Turn) (r : Reactor) → P r → At P Q (turn alphabetic worlds t r)
  unfolding turn
  turn-At t r h =
      let r0 = record r { waits = poll_timeout r ∷ r.waits } in
      on_poll-At t (note_signal t.stop r0)
        (loop.signals t.stop r0 (loop.waits (poll_timeout r) r h))

  -- At any point of the loop, and where it is left.
  pub run_loop-At : (ts : List Turn) (r : Reactor) → P r → At P Q (run_loop alphabetic worlds ts r)
  unfolding run_loop
  run_loop-At [] r h = At-if P Q r.running _ _ h (shut_down-At r h)
  run_loop-At (t ∷ ts) r h =
      At-if P Q r.running _ _
        (At-bind P P Q (turn alphabetic worlds t r) (λ r'. run_loop alphabetic worlds ts r')
          (λ r' k. run_loop-At ts r' k) (turn-At t r h))
        (shut_down-At r h)
