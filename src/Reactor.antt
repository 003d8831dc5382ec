-- ===== src/Reactor.antt =====
-- src/daemon.rs, `run`, and src/kill.rs, `reap_terminated_children`: the reactor around the handlers.
-- What the kernel answers to `epoll_wait`, `waitpid` and `read`, and when a stop signal comes in, are
-- arguments: one `Turn` for each round of the loop.
pub mod Loop
pub mod Stable
pub mod Stops
pub mod Waits
use Prim.Native.Nat.{bit_and}
use mini_lmk.Base.{
  ℕ, Bool, true, false, not, ◌&&◌, ◌||◌, Option, none, some, List, [], ◌∷◌, ◌==◌, if◌then◌else◌, ℤ,
  pos, negsuc, ltb_ℤ, is_some_and,
}
use mini_lmk.Spawn.{note_children_drained}
use mini_lmk.State.{DaemonState, World, flush, kill_child, perform}
use mini_lmk.Stream.{Reader, read_chunk}
use mini_lmk.Startup.Probe.{ProbeError}
use mini_lmk.Startup.Reload.{ConfigFiles, reload_configs_from, emit_startup_record}

abbrev pub token_logcat_pipe : ℕ
token_logcat_pipe = 1

abbrev pub token_inotify : ℕ
token_inotify = 2

-- `EPOLLHUP | EPOLLERR`
abbrev pub hup_or_err : ℕ
hup_or_err = 0x18

-- What a `read` of the pipe gives while the loop goes on, and whether a stop signal came with it.
pub data ReadReply : Type 0 where
  bytes : List ℕ → ReadReply
  interrupted : ReadReply

pub record PipeRead : Type 0 where
  pub stop : Bool
  pub reply : ReadReply

-- And what ends the loop.
pub data ReadEnd : Type 0 where
  would_block eof failed : ReadEnd

-- One entry that `epoll_wait` fills in, and what the calls that answer it give: the reads of the pipe,
-- or the files that a reload finds.
pub record PollEvent : Type 0 where
  pub token : ℕ
  pub revents : ℕ
  pub reads : List PipeRead
  pub read_end : ReadEnd
  pub files : ConfigFiles

pub data PollReply : Type 0 where
  ready : List PollEvent → PollReply
  interrupted : PollReply
  failed : PollReply

-- One round: what `epoll_wait` gives, whether a stop signal came while it slept, and the children that
-- `waitpid` reaps behind it.
pub record Turn : Type 0 where
  pub stop : Bool
  pub poll : PollReply
  pub reaped : List ℕ

pub record Reactor : Type 0 where
  pub reader : Reader
  -- The static `RUNNING`, which the signal handler clears.
  pub running : Bool
  pub logcat_pid : Option ℕ
  -- The timeouts handed to `epoll_wait`, the latest first.
  pub waits : List ℤ

-- What `fatal` is called for.
pub data Failure : Type 0 where
  logcat_died poll_error pipe_hup pipe_eof pipe_error : Failure
  logcat_not_started logcat_not_polled : Failure
  logcat_probe_failed : ProbeError → Failure

pub data Exit : Type 0 where
  shutdown : Exit
  fatal : Failure → Exit

-- The process goes on, or it has left.
pub data Progress : Type 0 where
  going : Reactor → Progress
  left : Exit → Reactor → Progress

infixl 5 ◌>>=◌
abbrev pub ◌>>=◌ : Progress → (Reactor → Progress) → Progress
going r >>= k = k r
left e r >>= k = left e r

abbrev pub with_daemon : DaemonState → Reactor → Reactor
with_daemon d r = record r { reader = record r.reader { daemon = d } }

abbrev pub flushed : Reactor → Reactor
flushed r = with_daemon (perform flush r.reader.daemon) r

-- `sig_handler`, if it ran.
unfoldable pub note_signal : Bool → Reactor → Reactor
note_signal stop r = if stop then record r { running = false } else r

-- `DaemonState::fatal`: the held record and the flush come before the exit.
unfoldable pub leave_fatal : Failure → Reactor → Progress
unfolding emit_startup_record
leave_fatal f r = left (fatal f) (flushed (with_daemon (emit_startup_record r.reader.daemon) r))

unfoldable pub drain_children : Reactor → Reactor
unfolding note_children_drained
drain_children r =
    let d = r.reader.daemon in
    with_daemon (record d { spawner = note_children_drained d.spawner }) r

-- The loop over `waitpid` stops at the logcat child, which is fatal unless the daemon is stopping.
unfoldable pub reap_terminated_children : List ℕ → Reactor → Progress
unfolding drain_children leave_fatal
reap_terminated_children [] r = going (drain_children r)
reap_terminated_children (pid ∷ pids) r =
    let rest = reap_terminated_children pids r in
    if not (is_some_and r.logcat_pid (λ child. pid == child))
    then rest
    else if r.running
    then leave_fatal logcat_died r
    else going (drain_children r)

-- F14 and F22: the wait is bounded only while a dispatched child may be left.
unfoldable pub poll_timeout : Reactor → ℤ
poll_timeout r = if ltb_ℤ (pos 0) r.reader.daemon.spawner.reaps_pending then pos 60000 else negsuc 0

unfoldable pub end_reads : ReadEnd → Reactor → Progress
unfolding leave_fatal
end_reads would_block r = going r
end_reads eof r = if r.running then leave_fatal pipe_eof r else going r
end_reads failed r = leave_fatal pipe_error r

abbrev pub is_hung : PollEvent → Bool
is_hung e = not (bit_and e.revents hup_or_err == 0)

abbrev pub is_pipe : PollEvent → Bool
is_pipe e = e.token == token_logcat_pipe

-- The inotify queue is drained, and everything is loaded again.
unfoldable pub reload_files : PollEvent → Reactor → Reactor
unfolding reload_configs_from
reload_files e r = with_daemon (reload_configs_from e.files r.reader.daemon) r

-- The logcat child, if there is one, is killed and waited for.
abbrev pub stop_child : Option ℕ → DaemonState → DaemonState
stop_child none d = d
stop_child (some pid) d = perform (kill_child pid) d

abbrev pub stop_stream : Reactor → Reactor
stop_stream r =
    with_daemon (stop_child r.logcat_pid r.reader.daemon) (record r { logcat_pid = none })

-- The logcat child is killed and given up, so that every child is reaped.
unfoldable pub shut_down : Reactor → Progress
unfolding drain_children
shut_down r = left shutdown (flushed (drain_children (stop_stream r)))

module _ (alphabetic : ℕ → Bool) (worlds : ℕ → World) where
  unfoldable pub feed : List ℕ → Reactor → Reactor
  unfolding read_chunk
  feed bs r = record r { reader = read_chunk alphabetic worlds bs r.reader }

  unfoldable pub read_pipe : List PipeRead → ReadEnd → Reactor → Progress
  unfolding note_signal feed end_reads
  read_pipe [] end r = end_reads end r
  read_pipe (x ∷ xs) end r =
      let r' = note_signal x.stop r in
      elim x.reply [
        | bytes bs ↦ read_pipe xs end (feed bs r')
        | interrupted ↦ elim r'.running [ true ↦ read_pipe xs end r' | false ↦ going r' ]
      ]

  unfoldable pub on_event : PollEvent → Reactor → Progress
  unfolding read_pipe reload_files leave_fatal
  on_event e r =
      if is_pipe e
      then (if is_hung e then leave_fatal pipe_hup r else read_pipe e.reads e.read_end r)
      else if e.token == token_inotify
      then going (reload_files e r)
      else going r

  -- A pipe that hangs up while the daemon is stopping ends the batch.
  unfoldable pub on_events : List PollEvent → Reactor → Progress
  unfolding on_event
  on_events [] r = going r
  on_events (e ∷ es) r =
      if is_pipe e && is_hung e && not r.running
      then going r
      else on_event e r >>= λ r'. on_events es r'

  unfoldable pub on_poll : Turn → Reactor → Progress
  unfolding reap_terminated_children leave_fatal on_events
  on_poll t r = elim t.poll [
    | ready es ↦
        reap_terminated_children t.reaped r >>= (λ r1. on_events es r1) >>= λ r2. going (flushed r2)
    | interrupted ↦ reap_terminated_children t.reaped r
    | failed ↦ leave_fatal poll_error r
  ]

  unfoldable pub turn : Turn → Reactor → Progress
  unfolding poll_timeout note_signal on_poll
  turn t r = on_poll t (note_signal t.stop (record r { waits = poll_timeout r ∷ r.waits }))

  -- The loop, up to the wait behind the given rounds.
  unfoldable pub run_loop : List Turn → Reactor → Progress
  unfolding turn shut_down
  run_loop [] r = if r.running then going r else shut_down r
  run_loop (t ∷ ts) r = if r.running then turn t r >>= (λ r'. run_loop ts r') else shut_down r

  -- `run`, behind its banner.
  unfoldable pub run : List Turn → Reactor → Progress
  unfolding run_loop emit_startup_record
  run ts r = run_loop ts (with_daemon (emit_startup_record r.reader.daemon) r)
