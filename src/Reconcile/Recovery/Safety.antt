-- ===== src/Reconcile/Recovery/Safety.antt =====
-- What the plan of internal/reconcile/recovery_plan.go never does.
use mini_sand_box.Prelude.{
  is_nil, is_some, ◌==◌, ◌||◌, ◌≡◌, refl, Bool, true, false, not, ◌&&◌, Option, none, some, arith,
  if◌then◌else◌, str_eq,
}
use mini_sand_box.Domain.States.{
  is_state, is_desired, desired_running, desired_terminated, running, terminated,
}
use mini_sand_box.Reconcile.Recovery.{
  RecoveryAction, no_op, repair_metadata, import_orphan, record_anomaly, StoredSandbox,
  ContainerObservation, VolumeObservation, DirectoryObservation, ActualSnapshot,
  is_running_container, runs, is_present, has_manifest, has_creation_lease,
  valid_recovery_stored_state, trusted_running_bundle, actual_spec_drift, actual_has_resources,
  renamed,
}
use mini_sand_box.Reconcile.Recovery.Plan.{
  plan_orphan, plan_missing, plan_settle, plan_found, plan_verdict, plan_recovery,
}

abbrev pub is_import : RecoveryAction → Bool
is_import import_orphan = true
is_import _ = false

abbrev pub is_repair : RecoveryAction → Bool
is_repair repair_metadata = true
is_repair _ = false

abbrev pub is_no_op : RecoveryAction → Bool
is_no_op no_op = true
is_no_op _ = false

plan_settle_import :
    (s : StoredSandbox) (a : ActualSnapshot)
    → (is_import (plan_settle s a).0 ≡ false) × (is_repair (plan_settle s a).0 ≡ false)
unfolding plan_settle
plan_settle_import s a = ground arith

plan_found_import : (s : StoredSandbox) (a : ActualSnapshot) → is_import (plan_found s a).0 ≡ false
unfolding plan_found
plan_found_import s a = let h = plan_settle_import s a in ground arith

-- Resources with an anomaly are never imported, repaired, woken or left alone: the plan records the
-- anomaly, whatever record the store has.
pub anomalies_recorded :
    (stored : Option StoredSandbox) (a : ActualSnapshot) (anomalous : is_nil a.anomalies ≡ false)
    → (plan_recovery stored (some a)).action ≡ record_anomaly
unfolding plan_recovery plan_verdict plan_orphan plan_found
anomalies_recorded none a anomalous = ground arith
anomalies_recorded (some s) a anomalous = ground arith

-- A record that is observed terminated and desired running is an anomaly, whatever resources there
-- are: no plan resurrects it.
pub terminated_stays :
    (s : StoredSandbox) (actual : Option ActualSnapshot)
    (observed : is_state s.observed_state terminated ≡ true)
    (desired : is_desired s.desired_state desired_running ≡ true)
    → (plan_recovery (some s) actual).action ≡ record_anomaly
unfolding plan_recovery plan_verdict plan_missing plan_found
terminated_stays s none observed desired = ground arith
terminated_stays s (some a) observed desired = ground arith

-- Resources that make up a sandbox that may be imported: a container that runs, its workspace and
-- its directory, which is there, without an anomaly, and with its lease known: from the manifest in
-- the directory, or from the labels of a container of schema 2.
abbrev pub has_parts :
    Option ContainerObservation → Option VolumeObservation → Option DirectoryObservation → Bool
has_parts (some c) (some workspace) (some d) =
    d.directory_present
    && is_running_container c.state
    && (is_some d.manifest_spec_hash || (is_some c.creation_expires_at && c.schema_version == 2))
has_parts _ _ _ = false

abbrev pub is_trusted_orphan : Option StoredSandbox → Option ActualSnapshot → Bool
is_trusted_orphan none (some a) = is_nil a.anomalies && has_parts a.main a.workspace a.directory
is_trusted_orphan _ _ = false

-- The guard of the code is this test.
import_bundle_parts :
    (a : ActualSnapshot) (main : Option ContainerObservation) (workspace : Option VolumeObservation)
    (directory : Option DirectoryObservation)
    → (is_nil a.anomalies
        && runs main
        && is_some workspace
        && is_present directory
        && (has_manifest directory || has_creation_lease main))
      ≡ (is_nil a.anomalies && has_parts main workspace directory)
import_bundle_parts a none w d = ground arith
import_bundle_parts a (some c) none d = ground arith
import_bundle_parts a (some c) (some w) none = ground arith
import_bundle_parts a (some c) (some w) (some d) = ground arith

-- The plan imports exactly when the store has no record and the resources have no anomaly and are a
-- running container, a workspace and a directory that is present, with a manifest in the directory or
-- a container of schema 2 that carries the end of its lease.
pub import_iff :
    (stored : Option StoredSandbox) (actual : Option ActualSnapshot)
    → is_import (plan_recovery stored actual).action ≡ is_trusted_orphan stored actual
unfolding plan_recovery plan_verdict plan_orphan plan_missing
import_iff none none = refl
import_iff none (some a) = ground (arith, import_bundle_parts a a.main a.workspace a.directory)
import_iff (some s) none = ground arith
import_iff (some s) (some a) = let h = plan_found_import s a in ground arith

-- The record's identity may be repaired from these resources.
abbrev pub is_repairable : StoredSandbox → ActualSnapshot → Bool
is_repairable s a =
    valid_recovery_stored_state s
    && str_eq s.id a.sandbox_id
    && is_nil a.anomalies
    && not (actual_spec_drift s a)
    && not (is_state s.observed_state terminated && is_desired s.desired_state desired_running)
    && renamed s a.main

abbrev pub are_repairable : Option StoredSandbox → Option ActualSnapshot → Bool
are_repairable (some s) (some a) = is_repairable s a
are_repairable _ _ = false

plan_found_repair :
    (s : StoredSandbox) (a : ActualSnapshot)
    → is_repair (plan_found s a).0 ≡ (
        str_eq s.id a.sandbox_id
        && is_nil a.anomalies
        && not (actual_spec_drift s a)
        && not (is_state s.observed_state terminated && is_desired s.desired_state desired_running)
        && renamed s a.main)
unfolding plan_found
plan_found_repair s a = let h = plan_settle_import s a in ground arith

-- The plan repairs the stored runtime identity exactly when the record is valid, the resources have
-- the record's sandbox id, no anomaly and no other specification hash, the record is not a
-- terminated one that is desired running, and the main container has another identity.
pub repair_iff :
    (stored : Option StoredSandbox) (actual : Option ActualSnapshot)
    → is_repair (plan_recovery stored actual).action ≡ are_repairable stored actual
unfolding plan_recovery plan_verdict plan_orphan plan_missing
repair_iff none none = refl
repair_iff none (some a) = ground arith
repair_iff (some s) none = ground arith
repair_iff (some s) (some a) = let h = plan_found_repair s a in ground arith

-- The record and the resources need nothing: the record is terminated as desired and nothing is
-- left, or it runs on a bundle that is its own.
abbrev pub is_settled : StoredSandbox → Option ActualSnapshot → Bool
is_settled s none =
    is_desired s.desired_state desired_terminated && is_state s.observed_state terminated
is_settled s (some a) =
    (str_eq s.id a.sandbox_id && is_nil a.anomalies)
    && (if is_desired s.desired_state desired_terminated
        then is_state s.observed_state terminated && not (actual_has_resources a)
        else is_state s.observed_state running
          && trusted_running_bundle a
          && not (actual_spec_drift s a)
          && not (renamed s a.main))

-- A stored record is left alone only when its state is valid and either it is terminated as desired
-- and nothing is left of it, or it is desired and observed running on a trusted bundle with its own
-- identity and specification hash.
pub no_op_settled :
    (s : StoredSandbox) (actual : Option ActualSnapshot)
    (idle : is_no_op (plan_recovery (some s) actual).action ≡ true)
    → (valid_recovery_stored_state s && is_settled s actual) ≡ true
unfolding plan_recovery plan_verdict plan_missing plan_found plan_settle
no_op_settled s none idle = ground arith
no_op_settled s (some a) idle = ground arith
