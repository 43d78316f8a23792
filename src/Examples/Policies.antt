-- ===== src/Examples/Policies.antt =====
-- internal/domain and the policies of internal/reconcile at concrete records.
use mini_sand_box.Prelude.{
  ◌≡◌, refl, true, false, String, List, [], ◌∷◌, none, some, ok, ℕ, Result, ◌^◌, ◌*◌, arith,
}
use mini_sand_box.Prelude.Int.{ℤ, pos}
use mini_sand_box.Domain.States.{SandboxState, DesiredState, running, terminated, desired_running}
use mini_sand_box.Reconcile.Recovery.{
  record_anomaly, StoredSandbox, ActualSnapshot, ActualAnomaly, actual_running,
}
use mini_sand_box.Reconcile.Recovery.Plan.{plan_recovery, plan_verdict, plan_found, plan_settle}
use mini_sand_box.Reconcile.Recovery.Safety.{
  is_import, is_repair, is_no_op, is_trusted_orphan, are_repairable, anomalies_recorded,
  terminated_stays, import_iff, repair_iff,
}
use mini_sand_box.Reconcile.Retry.{delete, ErrorFacts, classify_retry_error}
use mini_sand_box.Reconcile.Retry.Converge.{Decides, classify_retry_error-Decides}
use mini_sand_box.Reconcile.Backoff.{BackoffError, backoff_cap, full_jitter_backoff}
use Prim.Native.Nat.{min}
use mini_sand_box.Reconcile.Backoff.Bound.{backoff_cap_eq, full_jitter_backoff_bounds}

abbrev stored : DesiredState → SandboxState → StoredSandbox
stored desired observed = record {
  id = "s1";
  desired_state = desired;
  observed_state = observed;
  runtime_id = "c1";
  spec_hash = "h";
  revision = 4;
}

-- A complete bundle, its container with the given identity.
abbrev bundle : String → List ActualAnomaly → ActualSnapshot
bundle container anomalies = record {
  sandbox_id = "s1";
  main = some (record {
    container_id = container;
    state = actual_running;
    schema_version = 2;
    creation_expires_at = some 900;
    spec_hash = "h";
  });
  egress = none;
  workspace = some (record { spec_hash = "h" });
  directory = some (record { directory_present = true; manifest_spec_hash = some "h" });
  anomalies = anomalies;
}

abbrev anomaly : ActualAnomaly
anomaly = record { code = "IDENTITY_CONFLICT"; resource = "main"; detail = "" }

anomalies_recorded_example :
    (plan_recovery
      (some (stored desired_running running))
      (some (bundle "c1" (anomaly ∷ [])))).action
    ≡ record_anomaly
anomalies_recorded_example =
    anomalies_recorded (some (stored desired_running running)) (bundle "c1" (anomaly ∷ [])) refl

terminated_stays_example :
    (plan_recovery (some (stored desired_running terminated)) (some (bundle "c1" []))).action
    ≡ record_anomaly
terminated_stays_example =
    terminated_stays (stored desired_running terminated) (some (bundle "c1" [])) refl refl

import_iff_example :
    is_import (plan_recovery none (some (bundle "c1" []))).action
    ≡ is_trusted_orphan none (some (bundle "c1" []))
import_iff_example = import_iff none (some (bundle "c1" []))

repair_iff_example :
    is_repair (plan_recovery (some (stored desired_running running)) (some (bundle "c2" []))).action
    ≡ are_repairable (some (stored desired_running running)) (some (bundle "c2" []))
repair_iff_example = repair_iff (some (stored desired_running running)) (some (bundle "c2" []))

running_idle :
    is_no_op (plan_recovery (some (stored desired_running running)) (some (bundle "c1" []))).action
    ≡ true
unfolding plan_recovery plan_verdict plan_found plan_settle
running_idle = refl

-- A store that does not find the record.
abbrev missing_record : ErrorFacts
missing_record = record {
  is_canceled = false;
  reasoned = none;
  is_conflict = false;
  is_lease_conflict = false;
  is_not_found = true;
  is_protocol_mismatch_error = false;
  is_authentication_error = false;
  is_runner_protocol_mismatch = false;
  is_egress_policy_invalid = false;
  is_outbound_not_allowed = false;
  is_corrupt = false;
  is_invalid = false;
  status_code = none;
  is_deadline_exceeded = false;
  is_connection_error = false;
  is_socket_missing_error = false;
  is_unhealthy_error = false;
  is_timeout_error = false;
  unavailable = none;
  is_runner_unhealthy = false;
  is_egress_not_ready = false;
  is_egress_unhealthy = false;
  is_egress_image_unavailable = false;
}

classify_retry_error-Decides_example :
    Decides delete (classify_retry_error delete (some missing_record)).error_class
classify_retry_error-Decides_example = classify_retry_error-Decides delete refl missing_record

backoff_cap_eq_example : backoff_cap 5 100 1000 ≡ min (100 * 2 ^ 5) 1000
backoff_cap_eq_example = backoff_cap_eq 5 100 1000 (omega arith) (omega arith) (omega arith)

-- A source that always answers 7.
abbrev seven : ℕ → Result BackoffError ℤ
seven cap = ok (pos 7)

full_jitter_backoff_bounds_example : full_jitter_backoff 2 (pos 100) (pos 1000) seven ≡ ok (pos 8)
full_jitter_backoff_bounds_example =
    full_jitter_backoff_bounds 2 100 1000 seven 7 (omega arith) (omega arith) (omega arith) refl
      (omega arith)
