-- ===== src/Spawn/Argv.antt =====
-- src/spawn.rs: what a dispatch asks the kernel for, and what it records.
use mini_lmk.Base.{
  ◌≡◌, refl, ◌⊎◌, true, false, Option, some, List, [], ◌∷◌, ◌++◌, Text, ℤ, pos, ◌≤ℤ◌, eqb_ℤ,
  add_i32, arith, is_some,
}
use mini_lmk.Text.{contains_char}
use mini_lmk.Spawn.{
  Backend, std, fork, Spawner, Launch, child, refused, Launched, cmd_path, kill_args, spawn_kill,
  spawn_path, spawn_with, spawn_std, spawn_fork, stage, stage_args, read_argv, recorded, count_reap,
  launch_result, not_dispatched,
}

abbrev pub kill_argv : Text → List Text
kill_argv pkg = cmd_path ∷ (kill_args ++ pkg ∷ [])

pub request-argv :
    (b : Backend) (s : Spawner) (pkg : Text) (reply : Launch) (l : Launched)
    → (spawn_with b s cmd_path kill_args (some pkg) reply).request ≡ some l
    → l.argv ≡ kill_argv pkg
unfolding spawn_with spawn_std spawn_fork stage stage_args read_argv
request-argv std s pkg reply l h = ground arith
request-argv fork s pkg reply l h = ground arith

-- Whatever the backend, the child that a kill asks for is handed exactly
-- `/system/bin/cmd activity kill --user all <pkg>`.
pub spawn_kill-argv :
    (s : Spawner) (pkg : Text) (reply : Launch) (l : Launched)
    → (spawn_kill s pkg reply).2 ≡ some l
    → l.argv ≡ kill_argv pkg
unfolding spawn_kill spawn_path
spawn_kill-argv s pkg reply l h = ground (arith, request-argv s.backend s pkg reply l)

-- The errno of a refusal by the kernel is no negative number.
abbrev pub ErrnoIsNatural : Launch → Type 0
ErrnoIsNatural (child pid) = Unit
ErrnoIsNatural (refused e) = pos 0 ≤ℤ e

spawn_with-recorded :
    (b : Backend) (s : Spawner) (pkg : Text) (reply : Launch)
    → ErrnoIsNatural reply
    → pos 0 ≤ℤ s.devnull_errno
    → eqb_ℤ (recorded (spawn_with b s cmd_path kill_args (some pkg) reply).result) not_dispatched
      ≡ false
unfolding spawn_with spawn_std spawn_fork launch_result
spawn_with-recorded std s pkg (child pid) h k = refl
spawn_with-recorded std s pkg (refused e) h k = ground arith
spawn_with-recorded fork s pkg (child pid) h k = ground arith
spawn_with-recorded fork s pkg (refused e) h k = ground arith

-- Where the errnos of the kernel and of the failed `open` are natural numbers, a dispatch never
-- records the number that says that there was none.
pub spawn_kill-recorded :
    (s : Spawner) (pkg : Text) (reply : Launch)
    → ErrnoIsNatural reply
    → pos 0 ≤ℤ s.devnull_errno
    → eqb_ℤ (spawn_kill s pkg reply).1 not_dispatched ≡ false
unfolding spawn_kill spawn_path
spawn_kill-recorded s pkg reply h k = ground (arith, spawn_with-recorded s.backend s pkg reply)

-- What a dispatch must answer and count where the launcher is asked: the reply of the kernel, and
-- one more child to reap if there is one.
abbrev pub Accounted : Spawner → Launch → Spawner × ℤ × Option Launched → Type 0
Accounted s (child pid) r =
    (r.1 ≡ pos 0) × (r.0.reaps_pending ≡ add_i32 s.reaps_pending (pos 1)) × (is_some r.2 ≡ true)
Accounted s (refused e) r = (r.1 ≡ e) × (r.0.reaps_pending ≡ s.reaps_pending) × (is_some r.2 ≡ true)

spawn_with-Accounted :
    (b : Backend) (s : Spawner) (pkg : Text) (reply : Launch)
    → (b ≡ std) ⊎ (s.devnull_errno ≡ pos 0)
    → (let r = spawn_with b s cmd_path kill_args (some pkg) reply in
        Accounted s reply (count_reap r.result r.spawner, recorded r.result, r.request))
unfolding spawn_with spawn_std spawn_fork stage launch_result
spawn_with-Accounted std s pkg (child pid) h = (refl, refl, refl)
spawn_with-Accounted std s pkg (refused e) h = (refl, refl, refl)
spawn_with-Accounted fork s pkg (child pid) h = (ground arith, ground arith, ground arith)
spawn_with-Accounted fork s pkg (refused e) h = (ground arith, ground arith, ground arith)

-- For a name without NUL, and a launcher that is `std` or has its `/dev/null`, the kernel is asked:
-- a child is recorded as 0 and counted as one more to reap, a refusal is recorded as its errno and
-- counted as none.
pub spawn_kill_accounts :
    (s : Spawner) (pkg : Text) (reply : Launch)
    → contains_char 0 pkg ≡ false
    → (s.backend ≡ std) ⊎ (s.devnull_errno ≡ pos 0)
    → Accounted s reply (spawn_kill s pkg reply)
unfolding spawn_kill spawn_path
spawn_kill_accounts s pkg reply h k = rw h (spawn_with-Accounted s.backend s pkg reply k)
