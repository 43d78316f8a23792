-- ===== src/Reconcile/Reconciler/Evidence/Runs.antt =====
-- The check of a running sandbox in internal/reconcile/running_recovery.go keeps a justified trace.
use mini_sand_box.Prelude.{
  refl, Bool, true, false, not, ◌&&◌, String, Option, none, some, Result, ok, err, is_empty, str_eq,
  ltb,
}
use mini_sand_box.Domain.States.{is_desired, desired_terminated}
use mini_sand_box.Domain.Sandboxes.{Sandbox}
use mini_sand_box.Reconcile.Retry.{recover}
use mini_sand_box.Runtime.{RuntimeError}
use mini_sand_box.Store.Lifecycle.{StoreError, conflict, update_observed}
use mini_sand_box.Store.Lifecycle.Updates.{record_health_result}
use mini_sand_box.Store.Lifecycle.History.{update_observed-Follows, record_health_result-Follows}
use mini_sand_box.Store.Lifecycle.Written.{update_observed-state}
use mini_sand_box.Reconcile.Reconciler.{
  Environment, Setup, Actual, EnsureAnswer, made, refused, wrote, checked_health, replaced,
  inspected, of_store, of_runtime, gate_unavailable, done, fail, ◌>>=◌, succeeded, ask, clock,
  try_write, read, Operation, waited, answered,
}
use mini_sand_box.Reconcile.Reconciler.Terminated.{shutdown_runner, project_lease}
use mini_sand_box.Reconcile.Reconciler.Recover.{
  Readiness, ready, no_gate, unready, leaky, health_failure_threshold, health_update, drift_update,
  readiness, ensure_runtime, record_health, honor_concurrent_delete, unwritten, reported,
  after_health, record_running_health, after_replacement, replaced_compute, replace_running_compute,
  after_failed_probe, handle_running_probe_failure, after_drift, record_running_spec_drift,
  check_running, after_ensure, after_inspect, after_projection, recover_running,
}
use mini_sand_box.Reconcile.Reconciler.Evidence.{
  Keeps, bind-Triple, done-Triple, fail-Triple, any_before, if-Triple, ask-Triple,
}
use mini_sand_box.Reconcile.Reconciler.Evidence.Calls.{clock-Triple, read-Triple, try_write-Triple}
use mini_sand_box.Reconcile.Reconciler.Evidence.Steps.{record_failure-Keeps}
use mini_sand_box.Reconcile.Reconciler.Evidence.Ending.{
  shutdown_runner-Keeps, project_lease-Keeps, reconcile_terminated-Keeps,
}
use mini_sand_box.Reconcile.Reconciler.Evidence.Probing.{
  joining-Keeps, readiness-Keeps, ensure_runtime-Triple,
}

module _ (env : Environment) (setup : Setup) where
  record_health-Keeps :
      (s : Sandbox) (healthy : Bool) → Keeps env (record_health env setup s healthy)
  unfolding record_health
  record_health-Keeps s healthy =
      bind-Triple _
        (λ now.
          try_write-Triple env (λ row. checked_health)
            (record_health_result (health_update s now healthy))
            (record_health_result-Follows (health_update s now healthy))
            (λ t u row h trace g. (refl, refl)) (λ e trace g. refl))
        (clock env) (clock-Triple env)

  honor_concurrent_delete-Keeps : (id : String) → Keeps env (honor_concurrent_delete env setup id)
  unfolding honor_concurrent_delete
  honor_concurrent_delete-Keeps id =
      bind-Triple _
        (λ current.
          if-Triple (is_desired current.desired_state desired_terminated) _
            (fail (of_store conflict)) (reconcile_terminated-Keeps env setup current)
            (fail-Triple (of_store conflict)))
        (read env id) (read-Triple env id)

  unwritten-Keeps : (id : String) (e : StoreError) → Keeps env (unwritten env setup id e)
  unfolding unwritten
  unwritten-Keeps id conflict = honor_concurrent_delete-Keeps id
  unwritten-Keeps id e = fail-Triple (of_store e)

  reported-Keeps : (e : Option RuntimeError) → Keeps env (reported env setup e)
  reported-Keeps none = done-Triple tt (λ t g. refl)
  reported-Keeps (some e) = fail-Triple (of_runtime e)

  after_health-Keeps :
      (id : String) (answer : Result StoreError Sandbox)
      → Keeps env (after_health env setup id answer)
  unfolding after_health
  after_health-Keeps id (ok row) =
      bind-Triple _ reported-Keeps (project_lease env setup row) (project_lease-Keeps env setup row)
  after_health-Keeps id (err e) = unwritten-Keeps id e

  record_running_health-Keeps :
      (s : Sandbox) (healthy : Bool) → Keeps env (record_running_health env setup s healthy)
  unfolding record_running_health
  record_running_health-Keeps s healthy =
      bind-Triple _ (after_health-Keeps s.id) (record_health env setup s healthy)
        (record_health-Keeps s healthy)

  after_replacement-Keeps :
      (s : Sandbox) (r : Readiness) → Keeps env (after_replacement env setup s r)
  unfolding after_replacement
  after_replacement-Keeps s ready = record_running_health-Keeps s true
  after_replacement-Keeps s no_gate = fail-Triple gate_unavailable
  after_replacement-Keeps s (unready e) = fail-Triple (of_runtime e)
  after_replacement-Keeps s (leaky e) = fail-Triple (of_runtime e)

  replaced_compute-Keeps :
      (s : Sandbox) (answer : Result RuntimeError Actual)
      → Keeps env (replaced_compute env setup s answer)
  unfolding replaced_compute
  replaced_compute-Keeps s (err e) = record_failure-Keeps env setup s e s.runtime_id recover
  replaced_compute-Keeps s (ok actual) =
      bind-Triple _ (after_replacement-Keeps s) (readiness env setup s)
        (readiness-Keeps env setup s)

  replace_running_compute-Keeps : (s : Sandbox) → Keeps env (replace_running_compute env setup s)
  unfolding replace_running_compute
  replace_running_compute-Keeps s =
      bind-Triple _
        (λ unit.
          bind-Triple _
            (λ current.
              if-Triple (is_desired current.desired_state desired_terminated) _ _
                (reconcile_terminated-Keeps env setup current)
                (bind-Triple _ (replaced_compute-Keeps current)
                  (ask env.replace (λ a. replaced (succeeded a)))
                  (ask-Triple env.replace (λ a. replaced (succeeded a)) (λ a t. refl)
                    (λ a t g. refl))))
            (read env s.id) (read-Triple env s.id))
        (shutdown_runner env setup) (shutdown_runner-Keeps env setup)

  after_failed_probe-Keeps :
      (id : String) (cause : RuntimeError) (answer : Result StoreError Sandbox)
      → Keeps env (after_failed_probe env setup id cause answer)
  unfolding after_failed_probe
  after_failed_probe-Keeps id cause (err e) = unwritten-Keeps id e
  after_failed_probe-Keeps id cause (ok row) =
      if-Triple (ltb row.health_failure_count health_failure_threshold) (done tt) _
        (done-Triple tt (λ t g. refl))
        (joining-Keeps (of_runtime cause) (replace_running_compute env setup row)
          (replace_running_compute-Keeps row))

  handle_running_probe_failure-Keeps :
      (s : Sandbox) (cause : RuntimeError)
      → Keeps env (handle_running_probe_failure env setup s cause)
  unfolding handle_running_probe_failure
  handle_running_probe_failure-Keeps s cause =
      bind-Triple _ (after_failed_probe-Keeps s.id cause) (record_health env setup s false)
        (record_health-Keeps s false)

  after_drift-Keeps :
      (id : String) (answer : Result StoreError Sandbox)
      → Keeps env (after_drift env setup id answer)
  unfolding after_drift
  after_drift-Keeps id (ok row) = done-Triple tt (λ t g. refl)
  after_drift-Keeps id (err e) = unwritten-Keeps id e

  record_running_spec_drift-Keeps :
      (s : Sandbox) → Keeps env (record_running_spec_drift env setup s)
  unfolding record_running_spec_drift
  record_running_spec_drift-Keeps s =
      bind-Triple _
        (λ now.
          bind-Triple _ (after_drift-Keeps s.id)
            (try_write env (λ row. wrote s row.observed_state)
              (update_observed now (drift_update s)))
            (try_write-Triple env _ _ (update_observed-Follows now (drift_update s))
              (λ t u row h trace g.
                (rw (update_observed-state now (drift_update s) t u row h) refl, refl))
              (λ f trace g. refl)))
        (clock env) (clock-Triple env)

  check_running-Keeps : (s : Sandbox) (r : Readiness) → Keeps env (check_running env setup s r)
  unfolding check_running
  check_running-Keeps s ready = record_running_health-Keeps s true
  check_running-Keeps s no_gate = replace_running_compute-Keeps s
  check_running-Keeps s (unready e) = handle_running_probe_failure-Keeps s e
  check_running-Keeps s (leaky e) = replace_running_compute-Keeps s

  checked-Keeps : (s : Sandbox) → Keeps env (readiness env setup s >>= check_running env setup s)
  checked-Keeps s =
      bind-Triple _ (check_running-Keeps s) (readiness env setup s) (readiness-Keeps env setup s)

  after_ensure-Keeps :
      (s : Sandbox) (answer : Operation EnsureAnswer) → Keeps env (after_ensure env setup s answer)
  unfolding after_ensure
  after_ensure-Keeps s (waited e) = record_failure-Keeps env setup s e s.runtime_id recover
  after_ensure-Keeps s (answered (refused e cause)) =
      record_failure-Keeps env setup s e s.runtime_id recover
  after_ensure-Keeps s (answered (made actual)) = checked-Keeps s

  after_inspect-Keeps :
      (s : Sandbox) (answer : Result RuntimeError Actual)
      → Keeps env (after_inspect env setup s answer)
  unfolding after_inspect
  after_inspect-Keeps s (err e) = record_failure-Keeps env setup s e s.runtime_id recover
  after_inspect-Keeps s (ok actual) =
      if-Triple (not (is_empty actual.spec_hash) && not (str_eq actual.spec_hash s.spec_hash)) _ _
        (record_running_spec_drift-Keeps s)
        (if-Triple actual.is_running _ _ (checked-Keeps s) (
          if-Triple s.spec.outbound _ _ (replace_running_compute-Keeps s) (
            bind-Triple _ (λ answer. any_before _ (after_ensure-Keeps s answer))
              (ensure_runtime env setup) (ensure_runtime-Triple env setup))))

  after_projection-Keeps :
      (s : Sandbox) (e : Option RuntimeError) → Keeps env (after_projection env setup s e)
  unfolding after_projection
  after_projection-Keeps s (some e) = record_failure-Keeps env setup s e s.runtime_id recover
  after_projection-Keeps s none =
      bind-Triple _ (after_inspect-Keeps s) (ask env.inspect (λ a. inspected (succeeded a)))
        (ask-Triple env.inspect (λ a. inspected (succeeded a)) (λ a t. refl) (λ a t g. refl))

  pub recover_running-Keeps : (s : Sandbox) → Keeps env (recover_running env setup s)
  unfolding recover_running
  recover_running-Keeps s =
      bind-Triple _ (after_projection-Keeps s) (project_lease env setup s)
        (project_lease-Keeps env setup s)
