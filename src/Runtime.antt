-- ===== src/Runtime.antt =====
-- internal/runtime/errors.go: the stable failure that an error of the runtime stands for.
use mini_sand_box.Prelude.{Bool, true, false, ◌||◌, String, Option, none, some, if◌then◌else◌}
use mini_sand_box.Domain.Reasons.{
  SandboxReason, image_pull_failed, artifact_invalid, container_create_failed,
  artifact_injection_failed, container_start_failed, runner_unhealthy, runner_protocol_mismatch,
  spec_drift, cleanup_pending, runtime_unavailable, internal_error, reason_text,
}
use mini_sand_box.Reconcile.Retry.{ErrorFacts}

pub record Failure : Type 0 where
  pub reason : SandboxReason
  pub message : String
  pub retryable : Bool

abbrev pub entry : SandboxReason → String → Bool → Failure
entry reason message retryable = record {
  reason = reason;
  message = message;
  retryable = retryable;
}

abbrev pub internal_failure : Failure
internal_failure = entry internal_error "An unexpected internal error occurred." true

-- `none` is a reason that is not in the catalog.
unfoldable pub failure_catalog : SandboxReason → Option Failure
failure_catalog image_pull_failed =
    some (entry image_pull_failed "Failed to pull sandbox image." true)
failure_catalog artifact_invalid =
    some (entry artifact_invalid "Sandbox runtime artifacts are invalid." false)
failure_catalog container_create_failed =
    some (entry container_create_failed "Failed to create sandbox container." true)
failure_catalog artifact_injection_failed =
    some (entry artifact_injection_failed "Failed to inject sandbox runtime artifacts." true)
failure_catalog container_start_failed =
    some (entry container_start_failed "Failed to start sandbox container." true)
failure_catalog runner_unhealthy = some (entry runner_unhealthy "Sandbox runner is unhealthy." true)
failure_catalog runner_protocol_mismatch =
    some (entry runner_protocol_mismatch "Sandbox runner protocol is incompatible." false)
failure_catalog spec_drift =
    some (entry spec_drift "Sandbox runtime does not match the persisted specification." false)
failure_catalog cleanup_pending =
    some (entry cleanup_pending "Sandbox runtime cleanup is pending." true)
failure_catalog runtime_unavailable =
    some (entry runtime_unavailable "Sandbox runtime is temporarily unavailable." true)
failure_catalog internal_error =
    some (entry internal_error "An unexpected internal error occurred." true)
failure_catalog _ = none

-- An error: the answers to the questions that are asked of it, of which `reasoned` is computed
-- (`retry_facts`), and the reason that it carries, where it carries one.
pub record RuntimeError : Type 0 where
  pub facts : ErrorFacts
  pub failure_reason : Option SandboxReason

abbrev pub answers : Option Bool → Bool
answers (some b) = b
answers none = false

abbrev pub catalog_entry : Option SandboxReason → Option Failure
catalog_entry (some reason) = failure_catalog reason
catalog_entry none = none

unfoldable pub classify_unreasoned : ErrorFacts → Failure
classify_unreasoned facts =
    if facts.is_deadline_exceeded || answers facts.unavailable
    then entry runtime_unavailable "Sandbox runtime is temporarily unavailable." true
    else if facts.is_conflict
    then entry spec_drift "Sandbox runtime does not match the persisted specification." false
    else internal_failure

unfoldable pub classify_error : RuntimeError → Failure
unfolding failure_catalog classify_unreasoned
classify_error e = elim (catalog_entry e.failure_reason) [
  | some failure ↦ failure
  | none ↦ classify_unreasoned e.facts
]

abbrev pub verdict_of : Option SandboxReason → Failure → Option (String × Bool)
verdict_of (some reason) failure = some (reason_text failure.reason, failure.retryable)
verdict_of none failure = none

-- What the retry classifier sees of an error.
unfoldable pub retry_facts : RuntimeError → ErrorFacts
unfolding classify_error reason_text
retry_facts e = record e.facts { reasoned = verdict_of e.failure_reason (classify_error e) }

-- An error that wraps another one and says that its resources are still to be removed.
abbrev pub cleanup_pending_failure : RuntimeError → RuntimeError
cleanup_pending_failure cause = record cause { failure_reason = some cleanup_pending }

-- An error of `errors.New`, of which nothing is known, and one that wraps `ErrCorrupt`.
abbrev pub plain_error : RuntimeError
plain_error = record {
  failure_reason = none;
  facts = record {
    is_canceled = false;
    is_conflict = false;
    is_lease_conflict = false;
    is_not_found = false;
    is_protocol_mismatch_error = false;
    is_authentication_error = false;
    is_runner_protocol_mismatch = false;
    is_egress_policy_invalid = false;
    is_outbound_not_allowed = false;
    is_corrupt = false;
    is_invalid = false;
    is_deadline_exceeded = false;
    is_connection_error = false;
    is_socket_missing_error = false;
    is_unhealthy_error = false;
    is_timeout_error = false;
    is_runner_unhealthy = false;
    is_egress_not_ready = false;
    is_egress_unhealthy = false;
    is_egress_image_unavailable = false;
    reasoned = none;
    status_code = none;
    unavailable = none;
  };
}

abbrev pub corrupt_error : RuntimeError
corrupt_error = record plain_error { facts = record plain_error.facts { is_corrupt = true } }

abbrev first_of {ℓ} : {A : Type ℓ} → Option A → Option A → Option A
first_of (some a) other = some a
first_of none other = other

-- `errors.Join`: either error has the quality, and the first one that carries a value gives it.
unfoldable pub join_errors : RuntimeError → RuntimeError → RuntimeError
join_errors a b = record {
  failure_reason = first_of a.failure_reason b.failure_reason;
  facts = record {
    is_canceled = a.facts.is_canceled || b.facts.is_canceled;
    is_conflict = a.facts.is_conflict || b.facts.is_conflict;
    is_lease_conflict = a.facts.is_lease_conflict || b.facts.is_lease_conflict;
    is_not_found = a.facts.is_not_found || b.facts.is_not_found;
    is_protocol_mismatch_error =
        a.facts.is_protocol_mismatch_error || b.facts.is_protocol_mismatch_error;
    is_authentication_error = a.facts.is_authentication_error || b.facts.is_authentication_error;
    is_runner_protocol_mismatch =
        a.facts.is_runner_protocol_mismatch || b.facts.is_runner_protocol_mismatch;
    is_egress_policy_invalid = a.facts.is_egress_policy_invalid || b.facts.is_egress_policy_invalid;
    is_outbound_not_allowed = a.facts.is_outbound_not_allowed || b.facts.is_outbound_not_allowed;
    is_corrupt = a.facts.is_corrupt || b.facts.is_corrupt;
    is_invalid = a.facts.is_invalid || b.facts.is_invalid;
    is_deadline_exceeded = a.facts.is_deadline_exceeded || b.facts.is_deadline_exceeded;
    is_connection_error = a.facts.is_connection_error || b.facts.is_connection_error;
    is_socket_missing_error = a.facts.is_socket_missing_error || b.facts.is_socket_missing_error;
    is_unhealthy_error = a.facts.is_unhealthy_error || b.facts.is_unhealthy_error;
    is_timeout_error = a.facts.is_timeout_error || b.facts.is_timeout_error;
    is_runner_unhealthy = a.facts.is_runner_unhealthy || b.facts.is_runner_unhealthy;
    is_egress_not_ready = a.facts.is_egress_not_ready || b.facts.is_egress_not_ready;
    is_egress_unhealthy = a.facts.is_egress_unhealthy || b.facts.is_egress_unhealthy;
    is_egress_image_unavailable =
        a.facts.is_egress_image_unavailable || b.facts.is_egress_image_unavailable;
    reasoned = first_of a.facts.reasoned b.facts.reasoned;
    status_code = first_of a.facts.status_code b.facts.status_code;
    unavailable = first_of a.facts.unavailable b.facts.unavailable;
  };
}
