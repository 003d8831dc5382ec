-- ===== src/Spawn.antt =====
-- src/spawn.rs: the kill dispatcher. What the kernel answers to `fork` or to `Command::spawn` is an
-- argument; the child's side of `fork` is in Spawn/Child.
pub mod Argv
pub mod Child
use mini_lmk.Base.{
  ℕ, suc, ◌+◌, Bool, true, false, Option, none, some, List, [], ◌∷◌, ◌++◌, ltb, if◌then◌else◌, Text,
  ℤ, pos, negsuc, add_i32, eqb_ℤ, not, length, set, replicate, text_beq,
}
use mini_lmk.Text.{codes, contains_char}

pub data Backend : Type 0 where
  std fork : Backend

unfoldable pub parse_backend : Option Text → Backend
parse_backend none = fork
parse_backend (some t) = if text_beq t (codes "std") then std else fork

unfoldable pub backend_name : Backend → Text
backend_name std = codes "std"
backend_name fork = codes "fork"

unfoldable pub unrecognised_backend : Option Text → Option Text
unfolding parse_backend backend_name
unrecognised_backend none = none
unrecognised_backend (some t) =
    if text_beq (backend_name (parse_backend (some t))) t then none else some t

pub data SpawnError : Type 0 where
  errno : ℤ → SpawnError
  other : SpawnError

pub data Spawned : Type 0 where
  ok : ℤ → Spawned
  err : SpawnError → Spawned

-- What the kernel answers when it is asked for a child: a pid, or an errno.
pub data Launch : Type 0 where
  child : ℤ → Launch
  refused : ℤ → Launch

pub record Spawner : Type 0 where
  pub backend : Backend
  -- Whether `/dev/null` could not be opened: the note that the banner prints.
  pub note : Bool
  pub devnull : ℤ
  pub devnull_errno : ℤ
  pub name_buf : Text
  pub reaps_pending : ℤ

abbrev pub not_dispatched : ℤ
not_dispatched = negsuc 1

abbrev pub cmd_path : Text
cmd_path = codes "/system/bin/cmd"

abbrev pub kill_args : List Text
kill_args = codes "activity" ∷ codes "kill" ∷ codes "--user" ∷ codes "all" ∷ []

abbrev pub argv_slots : ℕ
argv_slots = 8

abbrev pub argv_fixed : ℕ
argv_fixed = 2

abbrev pub einval : ℤ
einval = pos 22

-- `Spawner::new`, with the outcome of the one `open` of `/dev/null`.
unfoldable pub new_spawner : Backend → Launch → Spawner
new_spawner requested (child fd) = record {
  backend = requested;
  note = false;
  devnull = fd;
  devnull_errno = pos 0;
  name_buf = [];
  reaps_pending = pos 0;
}
new_spawner requested (refused e) = record {
  backend = std;
  note = true;
  devnull = negsuc 0;
  devnull_errno = e;
  name_buf = [];
  reaps_pending = pos 0;
}

-- A slot of the argument table: `none` is the null pointer.
abbrev pub Argv : Type 0
Argv = List (Option Text)

unfoldable pub stage_args : ℕ → List Text → Argv → Argv
stage_args i [] argv = argv
stage_args i (a ∷ args) argv = stage_args (suc i) args (set argv i (some a))

-- The name goes through `name_buf`; its pointer fills the slot behind the fixed arguments.
unfoldable pub stage : Spawner → Argv → Text → List Text → Option Text → Spawner × Argv
unfolding stage_args
stage s argv path args none =
    (s, set (stage_args 1 args (set argv 0 (some path))) (1 + length args) none)
stage s argv path args (some text) =
    let staged = stage_args 1 args (set argv 0 (some path)) in
    let used = 1 + length args in
    (record s { name_buf = text ++ 0 ∷ [] }, set (set staged used (some text)) (used + 1) none)

-- The argument vector that `execve` reads: up to the first null pointer.
unfoldable pub read_argv : Argv → List Text
read_argv [] = []
read_argv (none ∷ argv) = []
read_argv (some a ∷ argv) = a ∷ read_argv argv

-- A child that was asked for: the launcher, and the arguments handed to it.
pub record Launched : Type 0 where
  pub launcher : Backend
  pub argv : List Text

-- What a dispatch did: the new state, the result, and the request made to the kernel, if any.
pub record Dispatch : Type 0 where
  pub spawner : Spawner
  pub result : Spawned
  pub request : Option Launched

unfoldable pub launch_result : Launch → Spawned
launch_result (child pid) = ok pid
launch_result (refused e) = err (errno e)

abbrev pub tail_list : Option Text → List Text
tail_list none = []
tail_list (some t) = t ∷ []

unfoldable pub spawn_std : Spawner → Text → List Text → Option Text → Launch → Dispatch
unfolding launch_result
spawn_std s path args tail reply = record {
  spawner = s;
  result = launch_result reply;
  request = some (record { launcher = std; argv = path ∷ (args ++ tail_list tail) });
}

unfoldable pub spawn_fork : Spawner → Argv → Launch → Dispatch
unfolding launch_result read_argv
spawn_fork s argv reply = record {
  spawner = s;
  result = launch_result reply;
  request = some (record { launcher = fork; argv = read_argv argv });
}

abbrev pub refusal : Spawner → SpawnError → Dispatch
refusal s e = record { spawner = s; result = err e; request = none }

abbrev pub has_nul : Option Text → Bool
has_nul none = false
has_nul (some t) = contains_char 0 t

-- The rest of `spawn_path`, behind its checks of the arguments.
unfoldable pub spawn_with : Backend → Spawner → Text → List Text → Option Text → Launch → Dispatch
unfolding spawn_std spawn_fork stage
spawn_with std s path args tail reply = spawn_std s path args tail reply
spawn_with fork s path args tail reply =
    if not (eqb_ℤ s.devnull_errno (pos 0))
    then refusal s (errno s.devnull_errno)
    else let (s', argv) = stage s (replicate argv_slots none) path args tail in
      spawn_fork s' argv reply

unfoldable pub spawn_path : Spawner → Text → List Text → Option Text → Launch → Dispatch
unfolding spawn_with contains_char
spawn_path s path args tail reply =
    if has_nul tail
    then refusal s (errno einval)
    else if ltb argv_slots (argv_fixed + length args + length (tail_list tail))
    then refusal s other
    else spawn_with s.backend s path args tail reply

abbrev pub recorded : Spawned → ℤ
recorded (ok pid) = pos 0
recorded (err (errno e)) = e
recorded (err other) = negsuc 0

abbrev pub count_reap : Spawned → Spawner → Spawner
count_reap (ok pid) s = record s { reaps_pending = add_i32 s.reaps_pending (pos 1) }
count_reap (err e) s = s

-- The state, the number to record, and the request made to the kernel.
unfoldable pub spawn_kill : Spawner → Text → Launch → Spawner × ℤ × Option Launched
unfolding spawn_path
spawn_kill s pkg reply =
    let d = spawn_path s cmd_path kill_args (some pkg) reply in
    (count_reap d.result d.spawner, recorded d.result, d.request)

unfoldable pub note_children_drained : Spawner → Spawner
note_children_drained s = record s { reaps_pending = pos 0 }
