-- ===== src/Stream/Chunks.antt =====
-- src/daemon.rs, `drain_logcat_lines`: how the pipe is cut into reads.
use mathlib.Core.List.{append_assoc, append-nil}
use mini_lmk.Base.{
  ℕ, suc, Bool, true, false, ◌&&◌, ◌≡◌, refl, sym, subst, ◌∙◌, ap, List, [], ◌∷◌, ◌++◌, ltb, ◌==◌,
  Text, length, is_empty, arith, Bool-cases, Option-cases, inl, inr,
}
use mini_lmk.State.{DaemonState, World}
use mini_lmk.Stream.{
  cut_lines, clean_line, clean_lines, oversized, drain_logcat_lines, dispatch_logcat_line, Reader,
  dispatch_lines, read_chunk,
}

-- A line feed cuts; any other byte goes on.
cut_feed :
    (line bs : List ℕ) (b : ℕ)
    → b == b'\n' ≡ true
    → cut_lines line (b ∷ bs) ≡ (line ∷ (cut_lines [] bs).0, (cut_lines [] bs).1)
unfolding cut_lines
cut_feed line bs b h = rw h refl

cut_other :
    (line bs : List ℕ) (b : ℕ)
    → b == b'\n' ≡ false
    → cut_lines line (b ∷ bs) ≡ cut_lines (line ++ b ∷ []) bs
unfolding cut_lines
cut_other line bs b h = rw h refl

cut_end : (line : List ℕ) → cut_lines line [] ≡ ([], line)
unfolding cut_lines
cut_end line = refl

cut_nil :
    (line ys : List ℕ)
    → cut_lines line ys ≡ (
      (cut_lines line []).0 ++ (cut_lines (cut_lines line []).1 ys).0,
      (cut_lines (cut_lines line []).1 ys).1,
    )
unfolding cut_lines
cut_nil line ys = refl

cut_lines-append :
    (line xs ys : List ℕ)
    → cut_lines line (xs ++ ys) ≡ (
      (cut_lines line xs).0 ++ (cut_lines (cut_lines line xs).1 ys).0,
      (cut_lines (cut_lines line xs).1 ys).1,
    )
cut_lines-append line [] ys = cut_nil line ys
cut_lines-append line (x ∷ xs) ys = elim (Bool-cases (x == b'\n')) [
  | inl e ↦
      rw (cut_feed line (xs ++ ys) x e, cut_feed line xs x e)
        (ap (λ p. (line ∷ p.0, p.1)) (cut_lines-append [] xs ys))
  | inr e ↦
      rw (cut_other line (xs ++ ys) x e, cut_other line xs x e)
        (cut_lines-append (line ++ x ∷ []) xs ys)
]

-- A line that holds no line feed, and one byte more of that kind.
cut_lines-snoc :
    (line : List ℕ) (b : ℕ)
    → b == b'\n' ≡ false
    → cut_lines [] line ≡ ([], line)
    → cut_lines [] (line ++ b ∷ []) ≡ ([], line ++ b ∷ [])
cut_lines-snoc line b e h =
    cut_lines-append [] line (b ∷ [])
    ∙ ap (λ p. (p.0 ++ (cut_lines p.1 (b ∷ [])).0, (cut_lines p.1 (b ∷ [])).1)) h
    ∙ cut_other line [] b e
    ∙ cut_end (line ++ b ∷ [])

-- The rest of a cut holds no line feed: cut again, it is left whole.
cut_lines-rest :
    (line bs : List ℕ)
    → cut_lines [] line ≡ ([], line)
    → cut_lines [] (cut_lines line bs).1 ≡ ([], (cut_lines line bs).1)
cut_lines-rest line [] h = rw (cut_end line) h
cut_lines-rest line (b ∷ bs) h = elim (Bool-cases (b == b'\n')) [
  | inl e ↦ rw (cut_feed line bs b e) (cut_lines-rest [] bs (cut_end []))
  | inr e ↦
      rw (cut_other line bs b e) (cut_lines-rest (line ++ b ∷ []) bs (cut_lines-snoc line b e h))
]

-- Where nothing is cut off, all is left.
cut_lines_uncut :
    (line bs : List ℕ) → is_empty (cut_lines line bs).0 ≡ true → (cut_lines line bs).1 ≡ line ++ bs
cut_lines_uncut line [] h = rw (cut_end line) (sym (append-nil line))
cut_lines_uncut line (b ∷ bs) h = elim (Bool-cases (b == b'\n')) [
  | inl e ↦ ground (arith, rw (cut_feed line bs b e) at h)
  | inr e ↦ rw (cut_other line bs b e) (
      cut_lines_uncut (line ++ b ∷ []) bs (rw (cut_other line bs b e) at h)
      ∙ append_assoc line (b ∷ []) bs)
]

clean_lines-append :
    (xs ys : List (List ℕ)) → clean_lines (xs ++ ys) ≡ clean_lines xs ++ clean_lines ys
unfolding clean_lines
clean_lines-append [] ys = refl
clean_lines-append (x ∷ xs) ys = elim (Option-cases (clean_line x)) [
  | inl e ↦ rw (e, clean_lines) (clean_lines-append xs ys)
  | inr (s, e) ↦ rw (e, clean_lines) (ap (λ zs. s ∷ zs) (clean_lines-append xs ys))
]

-- Two cuts in a row, the second from the rest of the first.
cut_twice :
    (buf xs ys : List ℕ)
    → cut_lines [] (buf ++ (xs ++ ys)) ≡ (
      (cut_lines [] (buf ++ xs)).0 ++ (cut_lines [] ((cut_lines [] (buf ++ xs)).1 ++ ys)).0,
      (cut_lines [] ((cut_lines [] (buf ++ xs)).1 ++ ys)).1,
    )
cut_twice buf xs ys =
    let c = cut_lines [] (buf ++ xs) in
    let again : cut_lines [] (c.1 ++ ys) ≡ cut_lines c.1 ys =
      cut_lines-append [] c.1 ys
      ∙ ap (λ p. (p.0 ++ (cut_lines p.1 ys).0, (cut_lines p.1 ys).1))
          (cut_lines-rest [] (buf ++ xs) (cut_end [])) in
    ap (cut_lines []) (sym (append_assoc buf xs ys))
    ∙ cut_lines-append [] (buf ++ xs) ys
    ∙ ap (λ p. (c.0 ++ p.0, p.1)) (sym again)

is_empty-append_false : (xs ys : List (List ℕ)) → is_empty xs ≡ false → is_empty (xs ++ ys) ≡ false
is_empty-append_false [] ys h = ground (arith, h)
is_empty-append_false (x ∷ xs) ys h = refl

-- Two reads that are not discarded are not discarded as one.
oversized_together :
    (buf xs ys : List ℕ)
    → oversized buf xs ≡ false
    → oversized (cut_lines [] (buf ++ xs)).1 ys ≡ false
    → oversized buf (xs ++ ys) ≡ false
unfolding oversized
oversized_together buf xs ys h k =
    let c = cut_lines [] (buf ++ xs) in
    elim (Bool-cases (is_empty c.0)) [
      | inr e ↦
          rw (cut_twice buf xs ys, is_empty-append_false c.0 (cut_lines [] (c.1 ++ ys)).0 e) refl
      | inl e ↦
          subst (λ z. (is_empty (cut_lines [] z).0 && ltb 8192 (length z)) ≡ false)
            (ap (λ r. r ++ ys) (cut_lines_uncut [] (buf ++ xs) e) ∙ append_assoc buf xs ys) k
    ]

-- Two reads, of which neither is discarded, give the lines and the buffer of one.
drain_twice :
    (buf xs ys : List ℕ)
    → oversized buf xs ≡ false
    → oversized (drain_logcat_lines buf xs).1 ys ≡ false
    → drain_logcat_lines buf (xs ++ ys) ≡ (
      (drain_logcat_lines buf xs).0 ++ (drain_logcat_lines (drain_logcat_lines buf xs).1 ys).0,
      (drain_logcat_lines (drain_logcat_lines buf xs).1 ys).1,
    )
unfolding drain_logcat_lines
drain_twice buf xs ys h k =
    let c = cut_lines [] (buf ++ xs) in
    let k' : oversized c.1 ys ≡ false = rw h at k in
    let c' = cut_lines [] (c.1 ++ ys) in
    rw (h, k', oversized_together buf xs ys h k')
      (ap (λ p. (clean_lines p.0, p.1)) (cut_twice buf xs ys)
        ∙ ap (λ x. (x, c'.1)) (clean_lines-append c.0 c'.0))

dispatch_lines-append :
    (alphabetic : ℕ → Bool) (worlds : ℕ → World) (xs ys : List Text) (n : ℕ) (d : DaemonState)
    → dispatch_lines alphabetic worlds (xs ++ ys) n d ≡ (
        let p = dispatch_lines alphabetic worlds xs n d in
        dispatch_lines alphabetic worlds ys p.0 p.1)
unfolding dispatch_lines
dispatch_lines-append alphabetic worlds [] ys n d = refl
dispatch_lines-append alphabetic worlds (x ∷ xs) ys n d =
    dispatch_lines-append alphabetic worlds xs ys (suc n)
      (dispatch_logcat_line alphabetic (worlds n) x d)

-- Where a read of the pipe ends does not matter: as long as no part is discarded for its length, two
-- reads, one after the other, leave the buffer, the count of lines and the daemon that one read of
-- all their bytes leaves.
pub read_chunk-append :
    (alphabetic : ℕ → Bool) (worlds : ℕ → World) (xs ys : List ℕ) (r : Reader)
    → oversized r.buf xs ≡ false
    → oversized (drain_logcat_lines r.buf xs).1 ys ≡ false
    → read_chunk alphabetic worlds (xs ++ ys) r
      ≡ read_chunk alphabetic worlds ys (read_chunk alphabetic worlds xs r)
unfolding read_chunk
read_chunk-append alphabetic worlds xs ys r h k =
    let finish : List ℕ → ℕ × DaemonState → Reader =
      λ buf p. record { buf = buf; handed = p.0; daemon = p.1 } in
    let one = drain_logcat_lines r.buf xs in
    let two = drain_logcat_lines one.1 ys in
    ap (λ q. finish q.1 (dispatch_lines alphabetic worlds q.0 r.handed r.daemon))
      (drain_twice r.buf xs ys h k)
    ∙ ap (finish two.1) (dispatch_lines-append alphabetic worlds one.0 two.0 r.handed r.daemon)
