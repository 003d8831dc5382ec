-- ===== src/Tables/Sums.antt =====
-- src/kill.rs, `scan_candidates`: the sum of the resident sets of a package does not wrap around.
use mini_lmk.Base.{
  ℕ, zero, suc, ◌+◌, ◌*◌, ◌^◌, ◌<◌, ◌≤◌, Bool, false, ◌||◌, ◌≡◌, refl, List, [], ◌∷◌, ◌++◌, ◌==◌,
  number_eq, length, arith, Bool-cases, inl, inr, is_empty, All, retain, two_32, two_64, if_keeps,
  Text, text_eq,
}
use mini_lmk.Base.Map.{contains, add, discard, contains-discard}
use mini_lmk.Procfs.{read_statm_rss_kb}
use mini_lmk.State.{DaemonState, World, ProcFs, Moment}
use mini_lmk.Kill.Scan.{Pids, scan_pid, scan_pids, pids_of, measure}
use mini_lmk.Tables.Reconciled.{SumsAreHonest}

abbrev pub Distinct : List ℕ → Type 0
Distinct [] = Unit
Distinct (x ∷ xs) = (contains x xs ≡ false) × Distinct xs

abbrev pub Below : ℕ → List ℕ → Type 0
Below n xs = All (λ x. x < n) xs

-- A set of numbers of 32 bits.
abbrev pub Neat : List ℕ → Type 0
Neat xs = Distinct xs × Below two_32 xs

discard_absent : (k : ℕ) (xs : List ℕ) → contains k xs ≡ false → discard k xs ≡ xs
unfolding contains discard
discard_absent k [] h = refl
discard_absent k (x ∷ xs) h = ground (arith, h, discard_absent k xs)

length-discard : (k : ℕ) (xs : List ℕ) → Distinct xs → length xs ≤ suc (length (discard k xs))
unfolding contains discard
length-discard k [] h = omega arith
length-discard k (x ∷ xs) (h, hs) = ground (arith, h, length-discard k xs hs, discard_absent k xs)

Distinct-discard : (k : ℕ) (xs : List ℕ) → Distinct xs → Distinct (discard k xs)
unfolding contains discard
Distinct-discard k [] h = tt
Distinct-discard k (x ∷ xs) (h, hs) =
    if_keeps Distinct (x == k) (discard k xs) (x ∷ discard k xs) (Distinct-discard k xs hs)
      (ground (arith, h, contains-discard k x xs), Distinct-discard k xs hs)

Below-discard : (n k : ℕ) (xs : List ℕ) → Below n xs → Below n (discard k xs)
unfolding discard
Below-discard n k [] h = tt
Below-discard n k (x ∷ xs) (h, hs) =
    if_keeps (Below n) (x == k) (discard k xs) (x ∷ discard k xs) (Below-discard n k xs hs)
      (h, Below-discard n k xs hs)

Below-less : (n : ℕ) (xs : List ℕ) → Below (suc n) xs → Below n (discard n xs)
unfolding discard
Below-less n [] h = tt
Below-less n (x ∷ xs) (h, hs) = elim (Bool-cases (x == n)) [
  | inl e ↦ rw e (Below-less n xs hs)
  | inr e ↦ rw e (ground (arith, e), Below-less n xs hs)
]

-- There are no more than `n` numbers below `n`.
length-Below : (n : ℕ) (xs : List ℕ) → Distinct xs → Below n xs → length xs ≤ n
length-Below n [] d h = omega arith
length-Below zero (x ∷ xs) d h = omega (arith, h.0)
length-Below (suc n) xs d h = omega (
  arith,
  length-discard n xs d,
  length-Below n (discard n xs) (Distinct-discard n xs d) (Below-less n xs h),
)

pub Neat-discard : (k : ℕ) (xs : List ℕ) → Neat xs → Neat (discard k xs)
Neat-discard k xs (d, h) = (Distinct-discard k xs d, Below-discard two_32 k xs h)

pub Neat-add : (k : ℕ) (xs : List ℕ) → k < two_32 → Neat xs → Neat (add k xs)
unfolding add
Neat-add k xs l (d, h) = elim (Bool-cases (contains k xs)) [
  | inl e ↦ rw e (d, h)
  | inr e ↦ rw e ((e, d), (l, h))
]

contains-retain_absent :
    (k : ℕ) (p : ℕ → Bool) (xs : List ℕ) → contains k xs ≡ false → contains k (retain p xs) ≡ false
unfolding contains
contains-retain_absent k p [] h = refl
contains-retain_absent k p (x ∷ xs) h = ground (arith, h, contains-retain_absent k p xs)

pub Neat-retain : (p : ℕ → Bool) (xs : List ℕ) → Neat xs → Neat (retain p xs)
Neat-retain p [] h = h
Neat-retain p (x ∷ xs) ((d, ds), (l, ls)) =
    let rest = Neat-retain p xs (ds, ls) in
    if_keeps Neat (p x) (x ∷ retain p xs) (retain p xs)
      ((contains-retain_absent x p xs d, rest.0), (l, rest.1)) rest

-- A sum is 0 just where nothing is summed.
abbrev Honest : Pids → Type 0
Honest p = (is_empty p.live || p.total == 0) ≡ is_empty p.live

-- No process has 2 TiB or more.
abbrev pub Resident : ProcFs → ℕ → Type 0
Resident proc page = (pid : ℕ) → read_statm_rss_kb (proc.statm pid) page < 2 ^ 31

is_empty-append : (xs : List ℕ) (x : ℕ) → is_empty (xs ++ x ∷ []) ≡ false
is_empty-append [] x = refl
is_empty-append (y ∷ xs) x = refl

scan_pids-Honest :
    (proc : ProcFs) (page : ℕ) (pids : List ℕ) (p : Pids)
    → Resident proc page
    → p.total + length pids * 2 ^ 31 < two_64
    → Honest p
    → Honest (scan_pids proc page pids p)
unfolding scan_pids scan_pid
scan_pids-Honest proc page [] p r b h = h
scan_pids-Honest proc page (pid ∷ pids) p r b h =
    let rss = read_statm_rss_kb (proc.statm pid) page in
    scan_pids-Honest proc page pids (scan_pid proc page pid p) r (ground (arith, r pid, b))
      (ground (arith, r pid, b, h, is_empty-append p.live pid))

-- The processes of every package are a set of numbers of 32 bits.
abbrev pub Sets : DaemonState → Type 0
Sets d = (pkg : Text) → Neat (pids_of d pkg)

pub Sets-honest :
    (w : World) (d : DaemonState)
    → ((m : Moment) → Resident (w.proc m) d.page_size_kb)
    → Sets d
    → SumsAreHonest w d
unfolding measure
Sets-honest w d r s pkg =
    let n = length-Below two_32 (pids_of d pkg) (s pkg).0 (s pkg).1 in
    scan_pids-Honest (w.proc _) d.page_size_kb (pids_of d pkg) _ (r _) (omega (arith, n)) refl
