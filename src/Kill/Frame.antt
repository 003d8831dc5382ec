-- ===== src/Kill/Frame.antt =====
-- src/kill.rs: the relation between the states before and after a part of a pass, by the fields that
-- the parts write and by what they add to the trace.
use mathlib.Core.List.{append_assoc}
use mini_lmk.Base.{◌≡◌, sym, ap, ◌∙◌, List, [], ◌∷◌, ◌++◌, All, All-append}
use mini_lmk.State.{DaemonState, Action}

abbrev pub overlay : DaemonState → DaemonState → DaemonState
overlay d e = record d {
  alive_apps = e.alive_apps;
  pid_to_pkg = e.pid_to_pkg;
  pkg_to_pids = e.pkg_to_pids;
  spawner = e.spawner;
  trace = e.trace;
}

-- `e` follows `d` by a part of a pass, all of whose actions satisfy `P`.
pub record Runs (P : Action → Type 0) (d e : DaemonState) : Type 0 where
  pub frame : e ≡ overlay d e
  pub new : List Action
  pub trace_is : e.trace ≡ new ++ d.trace
  pub actions : All P new

module _ (P : Action → Type 0) where
  -- A step that performs no action.
  pub Runs-silent : (d e : DaemonState) → e ≡ overlay d e → e.trace ≡ d.trace → Runs P d e
  Runs-silent d e f t = record { frame = f; new = []; trace_is = t; actions = tt }

  -- A step that performs one action.
  pub Runs-one :
      (a : Action) (d e : DaemonState) → e ≡ overlay d e → e.trace ≡ a ∷ d.trace → P a → Runs P d e
  Runs-one a d e f t p = record { frame = f; new = a ∷ []; trace_is = t; actions = (p, tt) }

  pub Runs-trans : (d e f : DaemonState) → Runs P d e → Runs P e f → Runs P d f
  Runs-trans d e f r s = record {
    frame = s.frame ∙ ap (λ x. overlay x f) r.frame;
    new = s.new ++ r.new;
    trace_is =
        s.trace_is ∙ ap (λ t. s.new ++ t) r.trace_is ∙ sym (append_assoc s.new r.new d.trace);
    actions = All-append P s.new r.new s.actions r.actions;
  }
