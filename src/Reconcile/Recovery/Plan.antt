-- ===== src/Reconcile/Recovery/Plan.antt =====
-- internal/reconcile/recovery_plan.go: `PlanRecovery`, branch by branch.
use mini_sand_box.Prelude.{
  is_nil, ℕ, not, ◌&&◌, ◌||◌, String, Option, none, some, str_eq, if◌then◌else◌,
}
use mini_sand_box.Domain.States.{
  is_state, is_desired, desired_running, desired_terminated, running, terminated,
}
use mini_sand_box.Reconcile.Recovery.{
  RecoveryAction, PlanReason, RecoveryPlan, StoredSandbox, ContainerObservation, ActualSnapshot,
  valid_recovery_stored_state, trusted_running_bundle, trusted_import_bundle, actual_spec_drift,
  actual_has_resources, renamed, no_op, wake, repair_metadata, import_orphan, record_anomaly,
  stable, store_needs_reconcile, trusted_orphan, partial_orphan, actual_anomaly, identity_conflict,
  spec_drift, metadata_drift, terminated_resurrection, state_invalid,
}

abbrev pub Verdict : Type 0
Verdict = RecoveryAction × PlanReason

-- The branch with no stored record.
unfoldable pub plan_orphan : ActualSnapshot → Verdict
plan_orphan a =
    if trusted_import_bundle a
    then (import_orphan, trusted_orphan)
    else if not (is_nil a.anomalies)
    then (record_anomaly, actual_anomaly)
    else (record_anomaly, partial_orphan)

-- The branch with a valid record and no actual resource.
unfoldable pub plan_missing : StoredSandbox → Verdict
plan_missing s =
    if is_desired s.desired_state desired_terminated && is_state s.observed_state terminated
    then (no_op, stable)
    else if is_state s.observed_state terminated
    then (record_anomaly, terminated_resurrection)
    else (wake, store_needs_reconcile)

-- The branch with a valid record and actual resources, from the test of the desired state on.
unfoldable pub plan_settle : StoredSandbox → ActualSnapshot → Verdict
plan_settle s a =
    if is_desired s.desired_state desired_terminated
    then (if actual_has_resources a || not (is_state s.observed_state terminated)
        then (wake, store_needs_reconcile)
        else (no_op, stable))
    else if is_state s.observed_state running && trusted_running_bundle a
    then (no_op, stable)
    else (wake, store_needs_reconcile)

-- The branch with a valid record and actual resources.
unfoldable pub plan_found : StoredSandbox → ActualSnapshot → Verdict
unfolding plan_settle
plan_found s a =
    if not (str_eq s.id a.sandbox_id)
    then (record_anomaly, identity_conflict)
    else if not (is_nil a.anomalies)
    then (record_anomaly, actual_anomaly)
    else if actual_spec_drift s a
    then (record_anomaly, spec_drift)
    else if is_state s.observed_state terminated && is_desired s.desired_state desired_running
    then (record_anomaly, terminated_resurrection)
    else if renamed s a.main
    then (repair_metadata, metadata_drift)
    else plan_settle s a

unfoldable pub plan_verdict : Option StoredSandbox → Option ActualSnapshot → Verdict
unfolding plan_orphan plan_missing plan_found
plan_verdict none none = (no_op, stable)
plan_verdict none (some a) = plan_orphan a
plan_verdict (some s) none =
    if not (valid_recovery_stored_state s) then (record_anomaly, state_invalid) else plan_missing s
plan_verdict (some s) (some a) =
    if not (valid_recovery_stored_state s) then (record_anomaly, state_invalid) else plan_found s a

abbrev plan_id : Option StoredSandbox → Option ActualSnapshot → String
plan_id (some s) actual = s.id
plan_id none (some a) = a.sandbox_id
plan_id none none = ""

abbrev container_of : Option ContainerObservation → String
container_of (some c) = c.container_id
container_of none = ""

abbrev plan_runtime : Option ActualSnapshot → String
plan_runtime (some a) = container_of a.main
plan_runtime none = ""

abbrev plan_revision : Option StoredSandbox → ℕ
plan_revision (some s) = s.revision
plan_revision none = 0

abbrev plan_hash : Option StoredSandbox → String
plan_hash (some s) = s.spec_hash
plan_hash none = ""

-- `none` is a nil pointer.
unfoldable pub plan_recovery : Option StoredSandbox → Option ActualSnapshot → RecoveryPlan
unfolding plan_verdict
plan_recovery stored actual = record {
  sandbox_id = plan_id stored actual;
  action = (plan_verdict stored actual).0;
  reason = (plan_verdict stored actual).1;
  expected_store_revision = plan_revision stored;
  expected_spec_hash = plan_hash stored;
  expected_runtime_id = plan_runtime actual;
}
