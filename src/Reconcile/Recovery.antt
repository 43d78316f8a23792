-- ===== src/Reconcile/Recovery.antt =====
-- internal/reconcile/recovery_plan.go: the plan of the startup recovery for one sandbox.
use mini_sand_box.Prelude.{
  is_nil, ℕ, Bool, true, false, not, ◌&&◌, ◌||◌, String, List, [], ◌∷◌, Option, none, some, is_some,
  ◌==◌, str_eq, if◌then◌else◌,
}
use mini_sand_box.Domain.States.{
  SandboxState, DesiredState, is_state, is_desired, desired_running, desired_terminated, running,
  terminated,
}
pub mod Plan
pub mod Safety

pub data RecoveryAction : Type 0 where
  no_op wake repair_metadata import_orphan record_anomaly : RecoveryAction

pub data PlanReason : Type 0 where
  stable store_needs_reconcile trusted_orphan partial_orphan actual_anomaly identity_conflict
        spec_drift metadata_drift terminated_resurrection state_invalid :
      PlanReason

pub record RecoveryPlan : Type 0 where
  pub sandbox_id : String
  pub action : RecoveryAction
  pub reason : PlanReason
  pub expected_store_revision : ℕ
  pub expected_spec_hash : String
  pub expected_runtime_id : String

-- The fields of `domain.Sandbox` that the plan reads.
pub record StoredSandbox : Type 0 where
  pub id : String
  pub desired_state : DesiredState
  pub observed_state : SandboxState
  pub runtime_id : String
  pub spec_hash : String
  pub revision : ℕ

-- The values of `runtime.ActualState`.
pub data ActualState : Type 0 where
  actual_missing actual_created actual_running actual_stopped : ActualState

-- The fields of the three observations that the plan reads; a time is a number.
pub record ContainerObservation : Type 0 where
  pub container_id : String
  pub state : ActualState
  pub schema_version : ℕ
  pub creation_expires_at : Option ℕ
  pub spec_hash : String

pub record VolumeObservation : Type 0 where
  pub spec_hash : String

pub record DirectoryObservation : Type 0 where
  pub directory_present : Bool
  pub manifest_spec_hash : Option String

pub record ActualAnomaly : Type 0 where
  pub code : String
  pub resource : String
  pub detail : String

pub record ActualSnapshot : Type 0 where
  pub sandbox_id : String
  pub main : Option ContainerObservation
  pub egress : Option ContainerObservation
  pub workspace : Option VolumeObservation
  pub directory : Option DirectoryObservation
  pub anomalies : List ActualAnomaly

abbrev pub is_running_container : ActualState → Bool
is_running_container actual_running = true
is_running_container _ = false

abbrev known_state : SandboxState → Bool
known_state (SandboxState.other text) = false
known_state _ = true

abbrev pub valid_recovery_stored_state : StoredSandbox → Bool
valid_recovery_stored_state s =
    if not (is_desired s.desired_state desired_running)
      && not (is_desired s.desired_state desired_terminated)
    then false
    else known_state s.observed_state

abbrev pub runs : Option ContainerObservation → Bool
runs (some c) = is_running_container c.state
runs none = false

abbrev pub is_present : Option DirectoryObservation → Bool
is_present (some d) = d.directory_present
is_present none = false

abbrev pub has_manifest : Option DirectoryObservation → Bool
has_manifest (some d) = is_some d.manifest_spec_hash
has_manifest none = false

abbrev pub has_creation_lease : Option ContainerObservation → Bool
has_creation_lease (some c) = c.schema_version == 2 && is_some c.creation_expires_at
has_creation_lease none = false

abbrev pub trusted_running_bundle : ActualSnapshot → Bool
trusted_running_bundle a =
    is_nil a.anomalies && runs a.main && is_some a.workspace && is_present a.directory

abbrev pub trusted_import_bundle : ActualSnapshot → Bool
trusted_import_bundle a =
    trusted_running_bundle a && (has_manifest a.directory || has_creation_lease a.main)

abbrev drifts : String → Option String → Bool
drifts hash none = false
drifts hash (some found) = not (str_eq found hash)

abbrev main_hash : Option ContainerObservation → Option String
main_hash none = none
main_hash (some c) = some c.spec_hash

abbrev workspace_hash : Option VolumeObservation → Option String
workspace_hash none = none
workspace_hash (some v) = some v.spec_hash

abbrev directory_hash : Option DirectoryObservation → Option String
directory_hash none = none
directory_hash (some d) = d.manifest_spec_hash

abbrev pub actual_spec_drift : StoredSandbox → ActualSnapshot → Bool
actual_spec_drift s a =
    drifts s.spec_hash (main_hash a.main)
    || drifts s.spec_hash (workspace_hash a.workspace)
    || drifts s.spec_hash (directory_hash a.directory)

abbrev pub actual_has_resources : ActualSnapshot → Bool
actual_has_resources a =
    is_some a.main || is_some a.egress || is_some a.workspace || is_some a.directory

-- The main container exists under another identity than the stored one.
abbrev pub renamed : StoredSandbox → Option ContainerObservation → Bool
renamed s (some c) = not (str_eq s.runtime_id c.container_id)
renamed s none = false
