-- ===== src/Log/Lines.antt =====
-- src/daemon.rs and src/telemetry.rs: the lines of the log against what the daemon did.
use mathlib.Core.List.{append_assoc, append-nil}
use mini_lmk.Base.{
  ℕ, Bool, true, false, ◌&&◌, ◌≡◌, refl, sym, subst, ◌∙◌, ap, List, [], ◌∷◌, ◌++◌, Text, length,
  arith,
}
use mini_lmk.Text.Utf8.{to_utf8}
use mini_lmk.State.{LogRecord, Action, emit, flush, log_switch, signal, launch, kill_child}
use mini_lmk.Telemetry.{TelemetrySink, FileReplies, set_log_enabled}
use mini_lmk.Telemetry.History.{Grown, emit_open, history, Willing, Logging}
use mini_lmk.Log.{line_of, act_on_sink, replay}

-- The records that were handed to the sink, the oldest first.
abbrev pub told : List Action → List Text
told [] = []
told (emit r ∷ trace) = told trace ++ line_of r ∷ []
told (flush ∷ trace) = told trace
told (log_switch on ∷ trace) = told trace
told (signal pid reply ∷ trace) = told trace
told (launch l ∷ trace) = told trace
told (kill_child pid ∷ trace) = told trace

-- The log was not switched off.
abbrev pub stays_on : List Action → Bool
stays_on [] = true
stays_on (emit r ∷ trace) = stays_on trace
stays_on (flush ∷ trace) = stays_on trace
stays_on (log_switch on ∷ trace) = on && stays_on trace
stays_on (signal pid reply ∷ trace) = stays_on trace
stays_on (launch l ∷ trace) = stays_on trace
stays_on (kill_child pid ∷ trace) = stays_on trace

-- The history grew by the told lines, and lost at most lines at its front.
pub record Told (trace : List Action) (s e : TelemetrySink) : Type 0 where
  pub still : Logging e
  pub lost : List Text
  pub grown : lost ++ history e ≡ history s ++ told trace

Told-more :
    (trace : List Action) (r : LogRecord) (s m e : TelemetrySink)
    → Told trace s m
    → Grown (line_of r) m e
    → Told (emit r ∷ trace) s e
Told-more trace r s m e t g = record {
  still = g.still;
  lost = t.lost ++ g.lost;
  grown =
      append_assoc t.lost g.lost (history e)
      ∙ ap (λ x. t.lost ++ x) g.grown
      ∙ sym (append_assoc t.lost (history m) (line_of r ∷ []))
      ∙ ap (λ x. x ++ line_of r ∷ []) t.grown
      ∙ append_assoc (history s) (told trace) (line_of r ∷ []);
}

-- An action that tells nothing and leaves the sink.
Told-same :
    (a : Action) (trace : List Action) (s m e : TelemetrySink)
    → told (a ∷ trace) ≡ told trace
    → e ≡ m
    → Told trace s m
    → Told (a ∷ trace) s e
Told-same a trace s m e h k t = record {
  still = subst Logging (sym k) t.still;
  lost = t.lost;
  grown = ap (λ x. t.lost ++ history x) k ∙ t.grown ∙ ap (λ x. history s ++ x) (sym h);
}

module _ (to_row : LogRecord → Text) (replies : ℕ → FileReplies)
    (willing : (n : ℕ) → Willing (replies n)) where
  pub switched_on : (r : FileReplies) (s : TelemetrySink) → Logging s → set_log_enabled r true s ≡ s
  unfolding set_log_enabled
  switched_on r s (on, c) = rw on refl

  Told-emit :
      (trace : List Action) (r : LogRecord) (s m : TelemetrySink)
      → Told trace s m
      → Told (emit r ∷ trace) s (act_on_sink to_row (replies (length trace)) (emit r) m)
  unfolding act_on_sink
  Told-emit trace r s m t = Told-more trace r s m _ t (
      emit_open
        (record {
          tabular = to_utf8 (to_row r);
          made_json = line_of r;
          replies = replies (length trace);
        })
        m (willing (length trace)) t.still)

  Told-act :
      (a : Action) (trace : List Action) (s m : TelemetrySink)
      → stays_on (a ∷ trace) ≡ true
      → Told trace s m
      → Told (a ∷ trace) s (act_on_sink to_row (replies (length trace)) a m)
  unfolding act_on_sink
  Told-act (emit r) trace s m h t = Told-emit trace r s m t
  Told-act flush trace s m h t = Told-same flush trace s m m refl refl t
  Told-act (log_switch true) trace s m h t =
      Told-same (log_switch true) trace s m _ refl (switched_on (replies (length trace)) m t.still)
        t
  Told-act (log_switch false) trace s m h t = absurd (ground (arith, h))
  Told-act (signal pid reply) trace s m h t = Told-same (signal pid reply) trace s m m refl refl t
  Told-act (launch x) trace s m h t = Told-same (launch x) trace s m m refl refl t
  Told-act (kill_child pid) trace s m h t = Told-same (kill_child pid) trace s m m refl refl t

  pub still_on :
      (a : Action) (trace : List Action) → stays_on (a ∷ trace) ≡ true → stays_on trace ≡ true
  still_on (emit r) trace h = h
  still_on flush trace h = h
  still_on (log_switch on) trace h = ground (arith, h)
  still_on (signal pid reply) trace h = h
  still_on (launch x) trace h = h
  still_on (kill_child pid) trace h = h

  -- While the file system does what it is asked and no action of the trace switches the log off, an
  -- open log stays open, and the lines of the rotated file and of the log are those that there were
  -- followed by the JSON lines of the emitted records in their order, less some at the front.
  pub replay-Told :
      (trace : List Action) (s : TelemetrySink)
      → stays_on trace ≡ true
      → Logging s
      → Told trace s (replay to_row replies trace s)
  unfolding replay
  replay-Told [] s h l = record { still = l; lost = []; grown = sym (append-nil (history s)) }
  replay-Told (a ∷ trace) s h l =
      Told-act a trace s (replay to_row replies trace s) h
        (replay-Told trace s (still_on a trace h) l)
