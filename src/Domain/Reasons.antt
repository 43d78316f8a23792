-- ===== src/Domain/Reasons.antt =====
-- internal/domain/sandbox_reason.go: the stable reasons, the states each may stand with and the
-- public text of each.
use mini_sand_box.Prelude.{Bool, true, false, ◌||◌, String, Option, none, some}
use mini_sand_box.Domain.States.{
  SandboxState, is_state, pending, creating, running, stopping, terminated, failed,
}
pub mod Tables

-- A constructor for each `SandboxReason` constant; `other` is any other text.
pub data SandboxReason : Type 0 where
  create_accepted creating_runtime waiting_runner reason_running delete_accepted deleting_runtime
        reason_terminated image_pull_failed artifact_invalid container_create_failed
        artifact_injection_failed container_start_failed runner_unhealthy runner_protocol_mismatch
        egress_unhealthy spec_drift cleanup_pending runtime_unavailable internal_error
        retry_scheduled recovering_runtime runner_health_degraded ttl_expired orphan_imported
        orphan_expired :
      SandboxReason
  other : String → SandboxReason

-- Whether a reason may stand with a state.
unfoldable pub sandbox_reason_state_allowed : SandboxReason → SandboxState → Bool
sandbox_reason_state_allowed create_accepted state = is_state state pending
sandbox_reason_state_allowed creating_runtime state = is_state state creating
sandbox_reason_state_allowed waiting_runner state = is_state state creating
sandbox_reason_state_allowed recovering_runtime state = is_state state creating
sandbox_reason_state_allowed reason_running state = is_state state running
sandbox_reason_state_allowed runner_health_degraded state = is_state state running
sandbox_reason_state_allowed delete_accepted state = is_state state stopping
sandbox_reason_state_allowed deleting_runtime state = is_state state stopping
sandbox_reason_state_allowed ttl_expired state = is_state state stopping
sandbox_reason_state_allowed orphan_expired state = is_state state stopping
sandbox_reason_state_allowed reason_terminated state = is_state state terminated
sandbox_reason_state_allowed image_pull_failed state = is_state state failed
sandbox_reason_state_allowed artifact_invalid state = is_state state failed
sandbox_reason_state_allowed container_create_failed state = is_state state failed
sandbox_reason_state_allowed artifact_injection_failed state = is_state state failed
sandbox_reason_state_allowed container_start_failed state = is_state state failed
sandbox_reason_state_allowed runner_unhealthy state = is_state state failed
sandbox_reason_state_allowed runner_protocol_mismatch state = is_state state failed
sandbox_reason_state_allowed egress_unhealthy state = is_state state failed
sandbox_reason_state_allowed spec_drift state = is_state state failed
sandbox_reason_state_allowed runtime_unavailable state = is_state state failed
sandbox_reason_state_allowed internal_error state = is_state state failed
sandbox_reason_state_allowed cleanup_pending state =
    is_state state failed || is_state state stopping
sandbox_reason_state_allowed retry_scheduled state =
    is_state state creating || is_state state stopping || is_state state failed
sandbox_reason_state_allowed orphan_imported state =
    is_state state creating || is_state state running
sandbox_reason_state_allowed (SandboxReason.other text) state = false

-- The public text of a reason; `none` is the answer of an unknown reason.
unfoldable pub sandbox_reason_public_message : SandboxReason → Option String
sandbox_reason_public_message create_accepted = some "Sandbox creation has been accepted."
sandbox_reason_public_message creating_runtime = some "Preparing sandbox runtime."
sandbox_reason_public_message waiting_runner = some "Waiting for sandbox runner."
sandbox_reason_public_message reason_running = some "Sandbox is running."
sandbox_reason_public_message delete_accepted = some "Sandbox deletion has been accepted."
sandbox_reason_public_message deleting_runtime = some "Deleting sandbox runtime."
sandbox_reason_public_message reason_terminated = some "Sandbox runtime has been deleted."
sandbox_reason_public_message image_pull_failed = some "Failed to pull sandbox image."
sandbox_reason_public_message artifact_invalid = some "Sandbox runtime artifacts are invalid."
sandbox_reason_public_message container_create_failed = some "Failed to create sandbox container."
sandbox_reason_public_message artifact_injection_failed =
    some "Failed to inject sandbox runtime artifacts."
sandbox_reason_public_message container_start_failed = some "Failed to start sandbox container."
sandbox_reason_public_message runner_unhealthy = some "Sandbox runner is unhealthy."
sandbox_reason_public_message runner_protocol_mismatch =
    some "Sandbox runner protocol is incompatible."
sandbox_reason_public_message egress_unhealthy = some "Sandbox outbound isolation is unhealthy."
sandbox_reason_public_message spec_drift =
    some "Sandbox runtime does not match the persisted specification."
sandbox_reason_public_message cleanup_pending = some "Sandbox runtime cleanup is pending."
sandbox_reason_public_message runtime_unavailable =
    some "Sandbox runtime is temporarily unavailable."
sandbox_reason_public_message internal_error = some "An unexpected internal error occurred."
sandbox_reason_public_message retry_scheduled = some "Sandbox reconciliation retry is scheduled."
sandbox_reason_public_message recovering_runtime = some "Sandbox runtime is being recovered."
sandbox_reason_public_message runner_health_degraded = some "Sandbox runner health is degraded."
sandbox_reason_public_message ttl_expired = some "Sandbox lease has expired."
sandbox_reason_public_message orphan_imported = some "Trusted sandbox resources have been imported."
sandbox_reason_public_message orphan_expired = some "Expired sandbox resources are being deleted."
sandbox_reason_public_message (SandboxReason.other text) = none

-- The text of a reason.
unfoldable pub reason_text : SandboxReason → String
reason_text create_accepted = "CREATE_ACCEPTED"
reason_text creating_runtime = "CREATING_RUNTIME"
reason_text waiting_runner = "WAITING_RUNNER"
reason_text reason_running = "RUNNING"
reason_text delete_accepted = "DELETE_ACCEPTED"
reason_text deleting_runtime = "DELETING_RUNTIME"
reason_text reason_terminated = "TERMINATED"
reason_text image_pull_failed = "IMAGE_PULL_FAILED"
reason_text artifact_invalid = "ARTIFACT_INVALID"
reason_text container_create_failed = "CONTAINER_CREATE_FAILED"
reason_text artifact_injection_failed = "ARTIFACT_INJECTION_FAILED"
reason_text container_start_failed = "CONTAINER_START_FAILED"
reason_text runner_unhealthy = "RUNNER_UNHEALTHY"
reason_text runner_protocol_mismatch = "RUNNER_PROTOCOL_MISMATCH"
reason_text egress_unhealthy = "EGRESS_UNHEALTHY"
reason_text spec_drift = "SPEC_DRIFT"
reason_text cleanup_pending = "CLEANUP_PENDING"
reason_text runtime_unavailable = "RUNTIME_UNAVAILABLE"
reason_text internal_error = "INTERNAL_ERROR"
reason_text retry_scheduled = "RETRY_SCHEDULED"
reason_text recovering_runtime = "RECOVERING_RUNTIME"
reason_text runner_health_degraded = "RUNNER_HEALTH_DEGRADED"
reason_text ttl_expired = "TTL_EXPIRED"
reason_text orphan_imported = "ORPHAN_IMPORTED"
reason_text orphan_expired = "ORPHAN_EXPIRED"
reason_text (SandboxReason.other text) = text
