-- ===== src/Daemon/Fences.antt =====
-- src/events.rs and src/kill.rs, for one package that the tables do not hold as an app.
use mini_lmk.Base.{
  ℕ, false, ◌≡◌, ◌≢◌, sym, ◌∙◌, List, [], ◌∷◌, Text, text_eq, number_eq, is_some_and, leb, All,
  All-append,
}
use mini_lmk.Base.Map.{lookup}
use mini_lmk.Spawn.Argv.{kill_argv}
use mini_lmk.State.{
  DaemonState, World, Action, emit, flush, log_switch, signal, launch, kill_child, kill_decision,
}
use mini_lmk.Kill.Effects.{Allowed, pass_candidates, evaluate-Allowed}
use mini_lmk.Kill.Absent.{Absent, evaluate-Absent, candidate-ne}
use mini_lmk.Kill.Pass.{evaluate_reaping_pipeline}

module _ (p : Text) where
  -- The action is no decision on the package, and asks for no child that would kill it.
  abbrev pub Spares : Action → Type 0
  Spares (emit (kill_decision r)) = r.pkg ≢ p
  Spares (launch l) = l.argv ≢ kill_argv p
  Spares _ = Unit

  -- The package is not among the live ones, is not known with an app uid, and was spared so far.
  pub record Fenced (d : DaemonState) : Type 0 where
    pub absent : Absent p d.alive_apps
    pub no_app_uid : is_some_and (lookup p d.pkg_to_uid) (λ uid. leb 10000 uid) ≡ false
    pub spared : All Spares d.trace

  kill_argv-ne : (pkg : Text) → pkg ≢ p → kill_argv pkg ≢ kill_argv p
  kill_argv-ne pkg h e = h cc

  Allowed-Spares :
      (w : World) (now : ℕ) (d : DaemonState) (a : Action)
      → Absent p d.alive_apps
      → Allowed w d (pass_candidates w now d) a
      → Spares a
  Allowed-Spares w now d (emit (kill_decision r)) h (c, i, e, _) =
      λ eq. candidate-ne p w now d c h i (sym e ∙ eq)
  Allowed-Spares w now d (emit r) h m = tt
  Allowed-Spares w now d flush h m = tt
  Allowed-Spares w now d (log_switch on) h m = tt
  Allowed-Spares w now d (signal pid reply) h m = tt
  Allowed-Spares w now d (kill_child pid) h m = tt
  Allowed-Spares w now d (launch l) h m =
      λ eq. kill_argv-ne m.cand.pkg (candidate-ne p w now d m.cand h m.is_cand) (sym m.argv_is ∙ eq)

  All-imp :
      (P Q : Action → Type 0) (xs : List Action) → ((a : Action) → P a → Q a) → All P xs → All Q xs
  All-imp P Q [] f h = tt
  All-imp P Q (x ∷ xs) f h = (f x h.0, All-imp P Q xs f h.1)

  pub evaluate-Fenced :
      (w : World) (now : ℕ) (d : DaemonState)
      → Fenced d
      → Fenced (evaluate_reaping_pipeline w now d)
  evaluate-Fenced w now d h =
      let r = evaluate-Allowed w now d in
      let f =
        All-imp (Allowed w d (pass_candidates w now d)) Spares r.new
          (λ a. Allowed-Spares w now d a h.absent) r.actions in
      record {
        absent = evaluate-Absent p w now d h.absent;
        no_app_uid = rw r.frame h.no_app_uid;
        spared = rw r.trace_is (All-append Spares r.new d.trace f h.spared);
      }

  pub Fenced-same :
      (d e : DaemonState)
      → e.alive_apps ≡ d.alive_apps
      → e.pkg_to_uid ≡ d.pkg_to_uid
      → e.trace ≡ d.trace
      → Fenced d
      → Fenced e
  Fenced-same d e a u t h = record {
    absent = rw a h.absent;
    no_app_uid = rw u h.no_app_uid;
    spared = rw t h.spared;
  }

  -- A record that decides no kill leaves the package alone.
  pub told :
      (a : Action) (d e : DaemonState)
      → Spares a
      → e.alive_apps ≡ d.alive_apps
      → e.pkg_to_uid ≡ d.pkg_to_uid
      → e.trace ≡ a ∷ d.trace
      → Fenced d
      → Fenced e
  told a d e s al u t h = record {
    absent = rw al h.absent;
    no_app_uid = rw u h.no_app_uid;
    spared = rw t (s, h.spared);
  }
