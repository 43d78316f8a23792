-- ===== src/Reconcile/Reconciler/Recover.antt =====
-- internal/reconcile/running_recovery.go: the check of a sandbox that runs, and the replacement of
-- its container.
use mini_sand_box.Prelude.{
  ℕ, Bool, true, false, not, ◌&&◌, ◌||◌, String, Option, none, some, Result, ok, err, is_empty,
  str_eq, ltb, if◌then◌else◌,
}
use mini_sand_box.Prelude.Int.{ℤ}
use mini_sand_box.Domain.States.{SandboxState, is_desired, desired_terminated}
use mini_sand_box.Domain.Reasons.{spec_drift}
use mini_sand_box.Domain.Sandboxes.{Sandbox}
use mini_sand_box.Reconcile.Retry.{recover}
use mini_sand_box.Runtime.{RuntimeError}
use mini_sand_box.Store.Lifecycle.{
  StoreError, conflict, ObservedUpdate, HealthResultUpdate, update_observed,
}
use mini_sand_box.Store.Lifecycle.Updates.{record_health_result}
use mini_sand_box.Reconcile.Reconciler.{
  Environment, Setup, Actual, EnsureAnswer, made, refused, is_made, wrote, checked_health, ensured,
  replaced, probed, networked, gated, inspected, World, ReconcileError, of_store, of_runtime,
  joined, gate_unavailable, Act, done, fail, ◌>>=◌, ◌>>◌, silent, succeeded, ask, clock, try_write,
  read, Operation, waited, answered, operate,
}
use mini_sand_box.Reconcile.Reconciler.Failures.{observed_update, record_failure}
use mini_sand_box.Reconcile.Reconciler.Terminated.{
  state_text, shutdown_runner, project_lease, reconcile_terminated,
}

-- What the probes say: `no_gate` where an outbound sandbox cannot be checked, and the error of the
-- runner's probe or of the check of the isolation.
pub data Readiness : Type 0 where
  ready no_gate : Readiness
  unready : RuntimeError → Readiness
  leaky : RuntimeError → Readiness

abbrev pub probe_readiness : Option RuntimeError → Readiness
probe_readiness none = ready
probe_readiness (some e) = unready e

abbrev pub gate_readiness : Option RuntimeError → Readiness
gate_readiness none = ready
gate_readiness (some e) = leaky e

abbrev pub health_failure_threshold : ℕ
health_failure_threshold = 3

-- An error of the run is joined to an earlier one.
abbrev pub join_error :
    ReconcileError
    → World × Result ReconcileError (Unit {0})
    → World × Result ReconcileError (Unit {0})
join_error e (w, ok a) = (w, ok a)
join_error e (w, err f) = (w, err (joined e f))

abbrev pub joining : ReconcileError → Act Unit → Act Unit
joining e m w = join_error e (m w)

abbrev pub health_update : Sandbox → ℤ → Bool → HealthResultUpdate
health_update s now healthy = record {
  id = s.id;
  expected_revision = s.revision;
  checked_at = now;
  healthy = healthy;
}

abbrev pub drift_update : Sandbox → ObservedUpdate
drift_update s =
    observed_update s SandboxState.failed
      (state_text spec_drift "Sandbox runtime does not match the persisted specification.")
      s.runtime_id

module _ (env : Environment) (setup : Setup) where
  unfoldable pub after_network : Option RuntimeError → Act Readiness
  unfolding ask
  after_network none = do
    e ← ask env.check_egress (λ answer. gated (silent answer))
    done (gate_readiness e)
  after_network (some e) = done (unready e)

  unfoldable pub readiness : Sandbox → Act Readiness
  unfolding ask after_network
  readiness s =
      if s.spec.outbound
      then (if not setup.probes_network || not setup.gates_egress
          then done no_gate
          else do e ← ask env.probe_network (λ answer. networked (silent answer)); after_network e)
      else do e ← ask env.probe (λ answer. probed (silent answer)); done (probe_readiness e)

  unfoldable pub ensure_runtime : Act (Operation EnsureAnswer)
  unfolding operate
  ensure_runtime = operate env env.ensure (λ answer. ensured (is_made answer))

  unfoldable pub record_health : Sandbox → Bool → Act (Result StoreError Sandbox)
  unfolding clock try_write record_health_result
  record_health s healthy = do
    now ← clock env
    try_write env (λ row. checked_health) (record_health_result (health_update s now healthy))

  unfoldable pub honor_concurrent_delete : String → Act Unit
  unfolding reconcile_terminated
  honor_concurrent_delete id = do
    current ← read env id
    if is_desired current.desired_state desired_terminated
        then reconcile_terminated env setup current
        else fail (of_store conflict)

  -- The error of a write; after a conflict a delete that came first is carried on.
  unfoldable pub unwritten : String → StoreError → Act Unit
  unfolding honor_concurrent_delete
  unwritten id conflict = honor_concurrent_delete id
  unwritten id e = fail (of_store e)

  abbrev pub reported : Option RuntimeError → Act Unit
  reported none = done tt
  reported (some e) = fail (of_runtime e)

  unfoldable pub after_health : String → Result StoreError Sandbox → Act Unit
  unfolding unwritten project_lease
  after_health id (ok row) = do e ← project_lease env setup row; reported e
  after_health id (err e) = unwritten id e

  unfoldable pub record_running_health : Sandbox → Bool → Act Unit
  unfolding record_health after_health
  record_running_health s healthy = do answer ← record_health s healthy; after_health s.id answer

  -- A replacement that is not ready leaves no record.
  unfoldable pub after_replacement : Sandbox → Readiness → Act Unit
  unfolding record_running_health
  after_replacement s ready = record_running_health s true
  after_replacement s no_gate = fail gate_unavailable
  after_replacement s (unready e) = fail (of_runtime e)
  after_replacement s (leaky e) = fail (of_runtime e)

  unfoldable pub replaced_compute : Sandbox → Result RuntimeError Actual → Act Unit
  unfolding record_failure readiness after_replacement
  replaced_compute s (err e) = record_failure env setup s e s.runtime_id recover
  replaced_compute s (ok actual) = do answer ← readiness s; after_replacement s answer

  unfoldable pub replace_running_compute : Sandbox → Act Unit
  unfolding shutdown_runner reconcile_terminated ask replaced_compute
  replace_running_compute s = do
    shutdown_runner env setup
    current ← read env s.id
    if is_desired current.desired_state desired_terminated
        then reconcile_terminated env setup current
        else do
          answer ← ask env.replace (λ a. replaced (succeeded a))
          replaced_compute current answer

  unfoldable pub after_failed_probe : String → RuntimeError → Result StoreError Sandbox → Act Unit
  unfolding unwritten replace_running_compute
  after_failed_probe id cause (err e) = unwritten id e
  after_failed_probe id cause (ok row) =
      if ltb row.health_failure_count health_failure_threshold
      then done tt
      else joining (of_runtime cause) (replace_running_compute row)

  unfoldable pub handle_running_probe_failure : Sandbox → RuntimeError → Act Unit
  unfolding record_health after_failed_probe
  handle_running_probe_failure s cause = do
    answer ← record_health s false
    after_failed_probe s.id cause answer

  unfoldable pub after_drift : String → Result StoreError Sandbox → Act Unit
  unfolding unwritten
  after_drift id (ok row) = done tt
  after_drift id (err e) = unwritten id e

  unfoldable pub record_running_spec_drift : Sandbox → Act Unit
  unfolding clock try_write update_observed after_drift
  record_running_spec_drift s = do
    now ← clock env
    answer ←
        try_write env (λ row. wrote s row.observed_state) (update_observed now (drift_update s))
    after_drift s.id answer

  unfoldable pub check_running : Sandbox → Readiness → Act Unit
  unfolding record_running_health replace_running_compute handle_running_probe_failure
  check_running s ready = record_running_health s true
  check_running s no_gate = replace_running_compute s
  check_running s (unready e) = handle_running_probe_failure s e
  check_running s (leaky e) = replace_running_compute s

  unfoldable pub after_ensure : Sandbox → Operation EnsureAnswer → Act Unit
  unfolding record_failure readiness check_running
  after_ensure s (waited e) = record_failure env setup s e s.runtime_id recover
  after_ensure s (answered (refused e cause)) = record_failure env setup s e s.runtime_id recover
  after_ensure s (answered (made actual)) = do answer ← readiness s; check_running s answer

  unfoldable pub after_inspect : Sandbox → Result RuntimeError Actual → Act Unit
  unfolding record_failure record_running_spec_drift replace_running_compute ensure_runtime
      after_ensure readiness check_running
  after_inspect s (err e) = record_failure env setup s e s.runtime_id recover
  after_inspect s (ok actual) =
      if not (is_empty actual.spec_hash) && not (str_eq actual.spec_hash s.spec_hash)
      then record_running_spec_drift s
      else if actual.is_running
      then (do answer ← readiness s; check_running s answer)
      else if s.spec.outbound
      then replace_running_compute s
      else do answer ← ensure_runtime; after_ensure s answer

  unfoldable pub after_projection : Sandbox → Option RuntimeError → Act Unit
  unfolding record_failure ask after_inspect
  after_projection s (some e) = record_failure env setup s e s.runtime_id recover
  after_projection s none = do
    answer ← ask env.inspect (λ a. inspected (succeeded a))
    after_inspect s answer

  unfoldable pub recover_running : Sandbox → Act Unit
  unfolding project_lease after_projection
  recover_running s = do e ← project_lease env setup s; after_projection s e
