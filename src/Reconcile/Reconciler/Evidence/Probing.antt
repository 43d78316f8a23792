-- ===== src/Reconcile/Reconciler/Evidence/Probing.antt =====
-- The probes and the container's making in internal/reconcile/running_recovery.go keep a justified
-- trace and leave evidence.
use mini_sand_box.Prelude.{
  ◌≡◌, refl, sym, subst, Bool, true, false, not, ◌||◌, List, ◌∷◌, Option, none, some, Result, ok,
  err, arith,
}
use mini_sand_box.Domain.Sandboxes.{Sandbox}
use mini_sand_box.Runtime.{RuntimeError}
use mini_sand_box.Store.Lifecycle.{Table}
use mini_sand_box.Store.Lifecycle.History.{Follows, Follows-refl}
use mini_sand_box.Reconcile.Reconciler.{
  Environment, Setup, EnsureAnswer, is_made, Event, ensured, probed, networked, gated, World,
  ReconcileError, Act, done, ◌>>=◌, silent, ask, Operation, waited, answered, operate, after_wait,
  ticked,
}
use mini_sand_box.Reconcile.Reconciler.Recover.{
  Readiness, ready, no_gate, unready, probe_readiness, gate_readiness, join_error, joining,
  after_network, readiness, ensure_runtime,
}
use mini_sand_box.Reconcile.Reconciler.Evidence.{
  ensured_last, waiting_last, networked_last, ready_to_run, justified, Post, anything, always, Ends,
  Triple, Keeps, bind-Triple, done-Triple, if-Triple, split-Triple, ask-Triple,
}

pub joining-Keeps :
    {env : Environment} (e : ReconcileError) (m : Act Unit) → Keeps env m → Keeps env (joining e m)
joining-Keeps e m t = record {
  justifies = λ w j g. joined_justifies (m w) (t.justifies w j g);
  ends = λ w j g. joined_ends (m w);
  follows = λ o w. joined_follows w.table (m w) (t.follows o w);
}
  where
    joined_justifies :
        (x : World × Result ReconcileError (Unit {0}))
        → justified x.0.trace ≡ true
        → justified (join_error e x).0.trace ≡ true
    joined_justifies (w, ok a) j = j
    joined_justifies (w, err f) j = j

    joined_follows :
        (u : Table) (x : World × Result ReconcileError (Unit {0}))
        → Follows u x.0.table
        → Follows u (join_error e x).0.table
    joined_follows u (w, ok a) h = h
    joined_follows u (w, err f) h = h

    joined_ends : (x : World × Result ReconcileError (Unit {0})) → Ends anything (join_error e x)
    joined_ends (w, ok a) = refl
    joined_ends (w, err f) = tt

-- A runner that was found ready leaves the evidence of it.
abbrev pub after_probe : Bool → Post Readiness
after_probe outbound ready trace = ready_to_run outbound trace
after_probe outbound _ trace = true

-- So does a container that was ensured.
abbrev pub after_operation : Post (Operation EnsureAnswer)
after_operation (answered answer) trace = not (is_made answer) || ensured_last trace
after_operation (waited e) trace = true

module _ (env : Environment) (setup : Setup) where
  pub after_network-Triple :
      (answer : Option RuntimeError)
      → Triple env
          (λ t. not (silent answer) || networked_last t)
          (after_network env setup answer)
          (after_probe true)
  unfolding after_network
  after_network-Triple none =
      bind-Triple {q = λ a t. not (silent a) || ready_to_run true t} _
        (λ a. done-Triple (gate_readiness a) (gate_evidence a))
        (ask env.check_egress (λ a. gated (silent a)))
        (ask-Triple env.check_egress (λ a. gated (silent a)) (λ a t. refl)
          (λ a t g. gate_passed a t g))
    where
      gate_evidence :
          (a : Option RuntimeError) (t : List Event)
          → (not (silent a) || ready_to_run true t) ≡ true
          → after_probe true (gate_readiness a) t ≡ true
      gate_evidence none t g = g
      gate_evidence (some e) t g = refl

      gate_passed :
          (a : Option RuntimeError) (t : List Event)
          → networked_last t ≡ true
          → (not (silent a) || ready_to_run true (gated (silent a) ∷ t)) ≡ true
      gate_passed none t g = g
      gate_passed (some e) t g = refl
  after_network-Triple (some e) = done-Triple (unready e) (λ t g. refl)

  plain_readiness-Triple :
      Triple env waiting_last
        (ask env.probe (λ a. probed (silent a)) >>= (λ a. done (probe_readiness a)))
        (after_probe false)
  plain_readiness-Triple =
      bind-Triple {q = λ a t. not (silent a) || ready_to_run false t} _
        (λ a. done-Triple (probe_readiness a) (probe_evidence a))
        (ask env.probe (λ a. probed (silent a)))
        (ask-Triple env.probe (λ a. probed (silent a)) (λ a t. refl) (λ a t g. probe_passed a t g))
    where
      probe_evidence :
          (a : Option RuntimeError) (t : List Event)
          → (not (silent a) || ready_to_run false t) ≡ true
          → after_probe false (probe_readiness a) t ≡ true
      probe_evidence none t g = g
      probe_evidence (some e) t g = refl

      probe_passed :
          (a : Option RuntimeError) (t : List Event)
          → waiting_last t ≡ true
          → (not (silent a) || ready_to_run false (probed (silent a) ∷ t)) ≡ true
      probe_passed none t g = g
      probe_passed (some e) t g = refl

  outbound_readiness-Triple :
      Triple env waiting_last
        (ask env.probe_network (λ a. networked (silent a)) >>= after_network env setup)
        (after_probe true)
  outbound_readiness-Triple =
      bind-Triple {q = λ a t. not (silent a) || networked_last t} _ after_network-Triple
        (ask env.probe_network (λ a. networked (silent a)))
        (ask-Triple env.probe_network (λ a. networked (silent a)) (λ a t. refl)
          (λ a t g. network_passed a t g))
    where
      network_passed :
          (a : Option RuntimeError) (t : List Event)
          → waiting_last t ≡ true
          → (not (silent a) || networked_last (networked (silent a) ∷ t)) ≡ true
      network_passed none t g = g
      network_passed (some e) t g = refl

  same_outbound :
      {m : Act Readiness} (o outbound : Bool)
      → o ≡ outbound
      → Triple env waiting_last m (after_probe outbound)
      → Triple env waiting_last m (after_probe o)
  same_outbound {m} o outbound e t =
      subst (λ x. Triple env waiting_last m (after_probe x)) (sym e) t

  pub readiness-Triple :
      (s : Sandbox) → Triple env waiting_last (readiness env setup s) (after_probe s.spec.outbound)
  unfolding readiness
  readiness-Triple s =
      split-Triple s.spec.outbound _ _
        (λ e. same_outbound _ _ e (
          if-Triple (not setup.probes_network || not setup.gates_egress) (done no_gate) _
            (done-Triple no_gate (λ t g. refl)) outbound_readiness-Triple))
        (λ e. same_outbound _ _ e plain_readiness-Triple)

  pub after_network-Keeps :
      (answer : Option RuntimeError) → Keeps env (after_network env setup answer)
  unfolding after_network
  after_network-Keeps none =
      bind-Triple {q = anything} _ (λ a. done-Triple (gate_readiness a) (λ t g. refl))
        (ask env.check_egress (λ a. gated (silent a)))
        (ask-Triple env.check_egress (λ a. gated (silent a)) (λ a t. refl) (λ a t g. refl))
  after_network-Keeps (some e) = done-Triple (unready e) (λ t g. refl)

  pub readiness-Keeps : (s : Sandbox) → Keeps env (readiness env setup s)
  unfolding readiness
  readiness-Keeps s =
      if-Triple s.spec.outbound _ _
        (if-Triple (not setup.probes_network || not setup.gates_egress) (done no_gate) _
          (done-Triple no_gate (λ t g. refl))
          (bind-Triple {q = anything} _ after_network-Keeps
            (ask env.probe_network (λ a. networked (silent a)))
            (ask-Triple env.probe_network (λ a. networked (silent a)) (λ a t. refl)
              (λ a t g. refl))))
        (bind-Triple {q = anything} _ (λ a. done-Triple (probe_readiness a) (λ t g. refl))
          (ask env.probe (λ a. probed (silent a)))
          (ask-Triple env.probe (λ a. probed (silent a)) (λ a t. refl) (λ a t g. refl)))

  pub ensure_runtime-Triple : Triple env always (ensure_runtime env setup) after_operation
  unfolding ensure_runtime operate after_wait ask
  ensure_runtime-Triple = record {
    justifies = λ w j g. wait_justifies (env.wait w.step) w j;
    ends = λ w j g. wait_ends (env.wait w.step) w;
    follows = λ o w. wait_follows (env.wait w.step) w;
  }
    where
      wait_justifies :
          (wait : Option RuntimeError) (w : World)
          → justified w.trace ≡ true
          → justified
              (after_wait env.ensure (λ answer. ensured (is_made answer)) wait (ticked w)).0.trace
            ≡ true
      wait_justifies (some e) w j = j
      wait_justifies none w j = j

      wait_follows :
          (wait : Option RuntimeError) (w : World)
          → Follows w.table
              (after_wait env.ensure (λ answer. ensured (is_made answer)) wait (ticked w)).0.table
      wait_follows (some e) w = Follows-refl w.table
      wait_follows none w = Follows-refl w.table

      wait_ends :
          (wait : Option RuntimeError) (w : World)
          → Ends after_operation
              (after_wait env.ensure (λ answer. ensured (is_made answer)) wait (ticked w))
      wait_ends (some e) w = refl
      wait_ends none w = ground arith
