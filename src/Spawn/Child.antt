-- ===== src/Spawn/Child.antt =====
-- src/spawn.rs, the child's side of `spawn_fork` and `close_inherited`: what the table of open files
-- holds when the child becomes `cmd`.
use mini_lmk.Base.{
  ℕ, zero, suc, min, ◌≤◌, Bool, true, false, not, ◌&&◌, ◌≡◌, refl, ap, ◌∙◌, inl, inr, Option, none,
  some, ◌==◌, ltb, leb, ◌>>=◌, if◌then◌else◌, is_some, map_or, arith, Bool-cases,
}

-- An open file, and whether it is closed on `execve`.
pub record Entry : Type 0 where
  pub file : ℕ
  pub cloexec : Bool

abbrev pub Files : Type 0
Files = ℕ → Option Entry

abbrev pub put_file : ℕ → Option Entry → Files → Files
put_file fd o t = λ k. if k == fd then o else t k

-- `close(2)`: a descriptor that is not open stays so.
abbrev pub close : ℕ → Files → Files
close fd t = put_file fd none t

-- `dup2(2)`: the copy is not closed on `execve`; a descriptor copied onto itself stays as it is.
unfoldable pub dup2 : ℕ → ℕ → Files → Option Files
dup2 from to t = elim (t from) [
  | none ↦ none
  | some e ↦
      if from == to then some t else some (put_file to (some (record e { cloexec = false })) t)
]

-- What the system call 436 does: the whole range is closed, or nothing. A number that is another
-- system call's may answer 0 all the same.
pub data CloseRange : Type 0 where
  swept refused answered : CloseRange

abbrev pub answers_zero : CloseRange → Bool
answers_zero refused = false
answers_zero _ = true

abbrev pub range_closed : CloseRange → Files → Files
range_closed swept t = λ k. if leb 3 k then none else t k
range_closed _ t = t

-- The loop over `3..k`.
unfoldable pub close_below : ℕ → Files → Files
close_below zero t = t
close_below (suc k) t = let rest = close_below k t in if leb 3 k then close k rest else rest

-- The hard limit on descriptors, if it can be read.
unfoldable pub close_inherited : ℕ → CloseRange → Option ℕ → Files → Files
unfolding close_below
close_inherited probe reply hard t =
    let t' = range_closed reply t in
    if answers_zero reply && not (is_some (t' probe))
    then t'
    else close_below (min (map_or hard 256 (λ n. n)) 4096) t'

-- The three standard streams, one after the other; `none` where the child leaves with 127.
unfoldable pub redirect : ℕ → Files → Option Files
unfolding dup2
redirect devnull t = do t0 ← dup2 devnull 0 t; t1 ← dup2 devnull 1 t0; dup2 devnull 2 t1

-- What `execve` leaves open.
abbrev pub exec_entry : Option Entry → Option ℕ
exec_entry none = none
exec_entry (some e) = if e.cloexec then none else some e.file

-- The files of the child when `cmd` starts.
unfoldable pub child_files : ℕ → CloseRange → Option ℕ → Files → Option (ℕ → Option ℕ)
unfolding redirect close_inherited
child_files devnull reply hard t = do
  t' ← redirect devnull t
  some (λ k. exec_entry (close_inherited devnull reply hard t' k))

close_below_lem :
    (k fd : ℕ) (t : Files) → close_below k t fd ≡ (if leb 3 fd && ltb fd k then none else t fd)
unfolding close_below
close_below_lem zero fd t = ground arith
close_below_lem (suc k) fd t = ground (arith, close_below_lem k fd t)

-- What a copy leaves open: it is not closed on `execve`.
abbrev opened : ℕ → Entry
opened f = record { file = f; cloexec = false }

-- The table behind the three copies.
abbrev redirected : ℕ → Files → Files
redirected f t =
    put_file 2 (some (opened f)) (put_file 1 (some (opened f)) (put_file 0 (some (opened f)) t))

dup2_lem :
    (from to : ℕ) (e : Entry) (t : Files)
    → t from ≡ some e
    → (from == to) ≡ false
    → dup2 from to t ≡ some (put_file to (some (opened e.file)) t)
unfolding dup2
dup2_lem from to e t o n = rw (o, dup2, n) refl

kept_open :
    (from to : ℕ) (o : Option Entry) (e : Entry) (t : Files)
    → t from ≡ some e
    → (from == to) ≡ false
    → put_file to o t from ≡ some e
kept_open from to o e t h n = rw n h

redirect_lem :
    (devnull : ℕ) (e : Entry) (t : Files)
    → 3 ≤ devnull
    → t devnull ≡ some e
    → redirect devnull t ≡ some (redirected e.file t)
unfolding redirect
redirect_lem devnull e t h o =
    let null = some (opened e.file) in
    let n0 : (devnull == 0) ≡ false = ground arith in
    let n1 : (devnull == 1) ≡ false = ground arith in
    let n2 : (devnull == 2) ≡ false = ground arith in
    let t0 = put_file 0 null t in
    let t1 = put_file 1 null t0 in
    let o0 = kept_open devnull 0 null e t o n0 in
    let o1 = kept_open devnull 1 null e t0 o0 n1 in
    ap (λ m. do a ← m; b ← dup2 devnull 1 a; dup2 devnull 2 b) (dup2_lem devnull 0 e t o n0)
    ∙ ap (λ m. do b ← m; dup2 devnull 2 b) (dup2_lem devnull 1 e t0 o0 n1)
    ∙ dup2_lem devnull 2 e t1 o1 n2

-- How far the loop goes.
abbrev pub close_bound : Option ℕ → ℕ
close_bound hard = min (map_or hard 256 (λ n. n)) 4096

-- The range is closed by one call, or no descriptor is open that the loop does not reach.
abbrev pub Reaches : CloseRange → Option ℕ → Files → Type 0
Reaches swept hard t = Unit
Reaches _ hard t = (fd : ℕ) → 3 ≤ fd → close_bound hard ≤ fd → t fd ≡ none

loop_entry :
    (k fd : ℕ) (t : Files)
    → (3 ≤ fd → k ≤ fd → t fd ≡ none)
    → close_below k t fd ≡ (if leb 3 fd then none else t fd)
loop_entry k fd t r = elim (Bool-cases (leb 3 fd)) [
  | inr low ↦ close_below_lem k fd t ∙ rw low refl
  | inl high ↦ elim (Bool-cases (ltb fd k)) [
    | inl in_loop ↦ close_below_lem k fd t ∙ rw (high, in_loop) refl
    | inr beyond ↦
        close_below_lem k fd t
        ∙ rw (high, beyond) (r (ground (arith, high)) (ground (arith, beyond)))
  ]
]

-- Behind the sweep, a descriptor from 3 on is closed and the first three are as they were.
swept_entry :
    (probe : ℕ) (reply : CloseRange) (hard : Option ℕ) (t : Files) (fd : ℕ)
    → 3 ≤ probe
    → is_some (t probe) ≡ true
    → Reaches reply hard t
    → close_inherited probe reply hard t fd ≡ (if leb 3 fd then none else t fd)
unfolding close_inherited
swept_entry probe swept hard t fd p o r =
    let high : leb 3 probe ≡ true = ground arith in rw high refl
swept_entry probe refused hard t fd p o r = loop_entry (close_bound hard) fd t (r fd)
swept_entry probe answered hard t fd p o r = rw o (loop_entry (close_bound hard) fd t (r fd))

is_some-entry : (o : Option Entry) (e : Entry) → o ≡ some e → is_some o ≡ true
is_some-entry o e h = ap (λ x. is_some x) h

redirected_high : (f fd : ℕ) (t : Files) → 3 ≤ fd → redirected f t fd ≡ t fd
redirected_high f fd t h =
    let n0 : (fd == 0) ≡ false = ground arith in
    let n1 : (fd == 1) ≡ false = ground arith in
    let n2 : (fd == 2) ≡ false = ground arith in rw (n0, n1, n2) refl

Reaches-redirected :
    (f : ℕ) (reply : CloseRange) (hard : Option ℕ) (t : Files)
    → Reaches reply hard t
    → Reaches reply hard (redirected f t)
Reaches-redirected f swept hard t r = tt
Reaches-redirected f refused hard t r = λ fd h k. redirected_high f fd t h ∙ r fd h k
Reaches-redirected f answered hard t r = λ fd h k. redirected_high f fd t h ∙ r fd h k

exec_of_low : (f fd : ℕ) (t : Files) → leb 3 fd ≡ false → exec_entry (redirected f t fd) ≡ some f
exec_of_low f fd t h = ground (arith, h)

exec_of_swept :
    (f fd : ℕ) (t : Files)
    → exec_entry (if leb 3 fd then none else redirected f t fd)
      ≡ (if ltb fd 3 then some f else none)
exec_of_swept f fd t = elim (Bool-cases (leb 3 fd)) [
  | inl high ↦ let n : ltb fd 3 ≡ false = ground (arith, high) in rw (high, n) refl
  | inr low ↦ let y : ltb fd 3 ≡ true = ground (arith, low) in rw (low, y) (exec_of_low f fd t low)
]

-- Where `/dev/null` is open at 3 or above, and the sweep reaches every descriptor that is open: `cmd`
-- starts with its three standard streams on `/dev/null` and with no other file, whatever the launcher
-- of the daemon had left open and unmarked.
pub child_files_lem :
    (devnull : ℕ) (e : Entry) (reply : CloseRange) (hard : Option ℕ) (t : Files)
    → 3 ≤ devnull
    → t devnull ≡ some e
    → Reaches reply hard t
    → child_files devnull reply hard t ≡ some (λ fd. if ltb fd 3 then some e.file else none)
unfolding child_files
child_files_lem devnull e reply hard t h o r =
    let f = e.file in
    let t' = redirected f t in
    let still : t' devnull ≡ some e = redirected_high f devnull t h ∙ o in
    let entry : (fd : ℕ)
        → exec_entry (close_inherited devnull reply hard t' fd)
          ≡ (if ltb fd 3 then some f else none) =
      λ fd.
        ap exec_entry (
          swept_entry devnull reply hard t' fd h (is_some-entry (t' devnull) e still)
            (Reaches-redirected f reply hard t r))
        ∙ exec_of_swept f fd t in
    ap (λ m. do x ← m; some (λ k. exec_entry (close_inherited devnull reply hard x k)))
      (redirect_lem devnull e t h o)
    ∙ (λ i. some (λ fd. entry fd i))
