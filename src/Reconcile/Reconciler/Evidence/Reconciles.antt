-- ===== src/Reconcile/Reconciler/Evidence/Reconciles.antt =====
-- `Reconcile` and `FailEgress` of internal/reconcile/reconciler.go keep a justified trace.
use mini_sand_box.Prelude.{◌≡◌, refl, Bool, true, false, not, String, Option, none, some, arith}
use mini_sand_box.Domain.States.{
  DesiredState, is_state, desired_running, desired_terminated, creating, running, failed, stopping,
}
use mini_sand_box.Domain.Sandboxes.{Sandbox}
use mini_sand_box.Reconcile.Retry.{create, start, recover}
use mini_sand_box.Runtime.{RuntimeError, plain_error}
use mini_sand_box.Store.Lifecycle.Updates.{expire_intent}
use mini_sand_box.Store.Lifecycle.History.{Follows, expire_intent-Follows}
use mini_sand_box.Store.Lifecycle.Written.{expire_intent-state}
use mini_sand_box.Reconcile.Reconciler.{
  Environment, Setup, EnsureAnswer, made, refused, World, of_wait, invalid_desired_state, done,
  clock, read, Operation, waited, answered,
}
use mini_sand_box.Reconcile.Reconciler.Terminated.{mark, settle, project_lease}
use mini_sand_box.Reconcile.Reconciler.Recover.{
  Readiness, ready, no_gate, unready, leaky, readiness, ensure_runtime,
}
use mini_sand_box.Reconcile.Reconciler.Running.{
  creating_text, waiting_text, running_text, egress_text, sandbox_lease_due, after_projection,
  commit_running, after_readiness, after_ensure, create_running, settled_projection,
  reconcile_running, expiry, expire_lease_if_due, converge, reconcile, fail_egress,
}
use mini_sand_box.Reconcile.Reconciler.Evidence.{
  waiting_last, ready_to_run, justified, anything, Triple, Keeps, Faithful, bind-Triple,
  done-Triple, fail-Triple, any_before, if-Triple, split-Triple,
}
use mini_sand_box.Reconcile.Reconciler.Evidence.Calls.{clock-Triple, read-Triple, write-Triple}
use mini_sand_box.Reconcile.Reconciler.Evidence.Steps.{
  mark-Triple, settle-Triple, record_failure-Keeps, fail_running-Keeps,
}
use mini_sand_box.Reconcile.Reconciler.Evidence.Ending.{
  reset_settled_retry-Keeps, shutdown_runner-Keeps, project_lease-Keeps, reconcile_terminated-Keeps,
}
use mini_sand_box.Reconcile.Reconciler.Evidence.Runs.{recover_running-Keeps}
use mini_sand_box.Reconcile.Reconciler.Evidence.Probing.{
  after_probe, after_operation, readiness-Triple, ensure_runtime-Triple,
}

unnegated : (b : Bool) → not b ≡ false → b ≡ true
unnegated b h = ground arith

module _ (env : Environment) (setup : Setup) where
  after_projection-Keeps :
      (s : Sandbox) (e : Option RuntimeError) → Keeps env (after_projection env setup s e)
  unfolding after_projection
  after_projection-Keeps s none = done-Triple tt (λ t g. refl)
  after_projection-Keeps s (some e) = record_failure-Keeps env setup s e s.runtime_id recover

  commit_running-Triple :
      (s : Sandbox) (runtime_id : String)
      → Triple env (ready_to_run s.spec.outbound) (commit_running env setup s runtime_id) anything
  unfolding commit_running
  commit_running-Triple s runtime_id =
      bind-Triple {q = anything} _
        (λ row.
          bind-Triple _ (after_projection-Keeps row) (project_lease env setup row)
            (project_lease-Keeps env setup row))
        (settle env setup s running running_text runtime_id)
        (settle-Triple env setup s running running_text runtime_id (λ trace g. ground arith)
          (λ row trace g. refl))

  after_readiness-Triple :
      (s : Sandbox) (runtime_id : String) (r : Readiness)
      → Triple env
          (after_probe s.spec.outbound r)
          (after_readiness env setup s runtime_id r)
          anything
  unfolding after_readiness
  after_readiness-Triple s runtime_id ready = commit_running-Triple s runtime_id
  after_readiness-Triple s runtime_id no_gate =
      any_before _ (fail_running-Keeps env setup s plain_error none start)
  after_readiness-Triple s runtime_id (unready e) =
      any_before _ (fail_running-Keeps env setup s e none start)
  after_readiness-Triple s runtime_id (leaky e) =
      any_before _ (fail_running-Keeps env setup s e none start)

  after_ensure-Triple :
      (s : Sandbox) (answer : Operation EnsureAnswer)
      → Triple env (after_operation answer) (after_ensure env setup s answer) anything
  unfolding after_ensure
  after_ensure-Triple s (waited e) = fail-Triple (of_wait e)
  after_ensure-Triple s (answered (refused e cause)) =
      any_before _ (fail_running-Keeps env setup s e cause create)
  after_ensure-Triple s (answered (made actual)) =
      bind-Triple {q = λ row. waiting_last} _
        (λ row.
          bind-Triple _ (after_readiness-Triple row actual.runtime_id) (readiness env setup row)
            (readiness-Triple env setup row))
        (mark env setup s creating waiting_text actual.runtime_id)
        (mark-Triple env setup s creating waiting_text actual.runtime_id (λ trace g. refl)
          (λ row trace g. g))

  create_running-Keeps : (s : Sandbox) → Keeps env (create_running env setup s)
  unfolding create_running
  create_running-Keeps s =
      bind-Triple {q = anything} _
        (λ row.
          bind-Triple _ (after_ensure-Triple row) (ensure_runtime env setup)
            (ensure_runtime-Triple env setup))
        (mark env setup s creating creating_text s.runtime_id)
        (mark-Triple env setup s creating creating_text s.runtime_id (λ trace g. refl)
          (λ row trace g. refl))

  settled_projection-Keeps :
      (s : Sandbox) (e : Option RuntimeError)
      → is_state s.observed_state running ≡ true
      → Keeps env (settled_projection env setup s e)
  unfolding settled_projection
  settled_projection-Keeps s (some e) h = record_failure-Keeps env setup s e s.runtime_id recover
  settled_projection-Keeps s none h =
      reset_settled_retry-Keeps env setup s running running_text s.runtime_id (λ trace. rw h refl)

  reconcile_running-Keeps : (s : Sandbox) → Keeps env (reconcile_running env setup s)
  unfolding reconcile_running
  reconcile_running-Keeps s =
      split-Triple (not (is_state s.observed_state running)) _ _ (λ e. create_running-Keeps s)
        (λ e. if-Triple setup.replaces_compute _ _ (recover_running-Keeps env setup s) (
          bind-Triple _ (λ a. settled_projection-Keeps s a (unnegated _ e))
            (project_lease env setup s) (project_lease-Keeps env setup s)))

  expire_lease_if_due-Keeps : (s : Sandbox) → Keeps env (expire_lease_if_due env setup s)
  unfolding expire_lease_if_due
  expire_lease_if_due-Keeps s =
      bind-Triple _
        (λ now. if-Triple (not (sandbox_lease_due s now)) (done s) _ (done-Triple s (λ t g. refl)) (
          write-Triple env s stopping
            (expire_intent setup.behind (expiry env setup s now s.expires_at))
            (expire_intent-Follows setup.behind (expiry env setup s now s.expires_at))
            (expire_intent-state setup.behind (expiry env setup s now s.expires_at))
            (λ trace g. refl) (λ row trace g. refl)))
        (clock env) (clock-Triple env)

  converge-Keeps : (s : Sandbox) (desired : DesiredState) → Keeps env (converge env setup s desired)
  unfolding converge
  converge-Keeps s desired_running = reconcile_running-Keeps s
  converge-Keeps s desired_terminated = reconcile_terminated-Keeps env setup s
  converge-Keeps s (DesiredState.other text) = fail-Triple invalid_desired_state

  reconcile-Keeps : (id : String) → Keeps env (reconcile env setup id)
  unfolding reconcile
  reconcile-Keeps id =
      bind-Triple _
        (λ s.
          bind-Triple _ (λ row. converge-Keeps row row.desired_state)
            (expire_lease_if_due env setup s) (expire_lease_if_due-Keeps s))
        (read env id) (read-Triple env id)

  fail_egress-Keeps : (id : String) → Keeps env (fail_egress env setup id)
  unfolding fail_egress
  fail_egress-Keeps id =
      bind-Triple _
        (λ s. if-Triple _ (done tt) _ (done-Triple tt (λ t g. refl)) (
          bind-Triple _ (λ row. shutdown_runner-Keeps env setup)
            (mark env setup s failed egress_text s.runtime_id)
            (mark-Triple env setup {q = anything} s failed egress_text s.runtime_id
              (λ trace g. refl) (λ row trace g. refl))))
        (read env id) (read-Triple env id)

-- Whatever the runtime and the probes answer, whichever writes fail and whatever others write in
-- between, when a run of `Reconcile` or of `FailEgress` begins at a justified trace it leaves one: a
-- record was made `Running` from another state only straight after the container was ensured, a record
-- was marked as waiting and the runner was found ready, which is a probe of the runner where the
-- record that the run holds has no outbound access, and a probe of the network and then the check of
-- the isolation where it has; and a record was made `Terminated` from another state only straight
-- after the runtime had deleted the container or had answered that it is not there.
pub reconcile-justified :
    (env : Environment) (setup : Setup) (id : String) (w : World)
    → justified w.trace ≡ true
    → (justified (reconcile env setup id w).0.trace ≡ true)
      × (justified (fail_egress env setup id w).0.trace ≡ true)
reconcile-justified env setup id w j = (
  (reconcile-Keeps env setup id).justifies w j refl,
  (fail_egress-Keeps env setup id).justifies w j refl,
)

-- When what other writers leave follows what they found, a run of `Reconcile` or of `FailEgress` loses
-- no record and no wish to terminate one, changes no record without raising its revision, and leaves
-- the ID, specification, hash, time of creation and origin of every record.
pub reconcile-Follows :
    (env : Environment) (setup : Setup) (id : String) (w : World)
    → Faithful env
    → Follows w.table (reconcile env setup id w).0.table
      × Follows w.table (fail_egress env setup id w).0.table
reconcile-Follows env setup id w o =
    ((reconcile-Keeps env setup id).follows o w, (fail_egress-Keeps env setup id).follows o w)
