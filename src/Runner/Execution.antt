-- ===== src/Runner/Execution.antt =====
-- internal/runner/execution_model.go: the state machine of one execution.
use mini_sand_box.Prelude.{
  Bool, true, false, not, ◌&&◌, ◌||◌, String, Option, none, some, is_some, is_none, Result, ok, err,
  if◌then◌else◌, str_eq,
}
use mini_sand_box.Prelude.Int.{ℤ}
pub mod Lifecycle

-- `other` is a state string that the program does not define.
pub data ExecutionState : Type 0 where
  pending running exited failed cancelled timed_out : ExecutionState
  other : String → ExecutionState

-- `termination_none` is the empty reason; `other` is a reason that the program does not define.
pub data TerminationReason : Type 0 where
  termination_none validation_failed start_failed process_exited explicit_cancel : TerminationReason
  foreground_disconnect deadline_exceeded runner_shutdown internal_failure : TerminationReason
  other : String → TerminationReason

pub record Execution : Type 0 where
  pub id : String
  pub state : ExecutionState
  pub created_at : ℤ
  pub termination_reason : TerminationReason
  pub exit_code : Option ℤ

unfoldable pub new_pending_execution : String → ℤ → Execution
new_pending_execution id created_at = record {
  id = id;
  state = pending;
  created_at = created_at;
  termination_reason = termination_none;
  exit_code = none;
}

-- The three reasons of a start that fails, and the three of a cancellation.
abbrev pub is_start_failure : TerminationReason → Bool
is_start_failure validation_failed = true
is_start_failure start_failed = true
is_start_failure internal_failure = true
is_start_failure _ = false

abbrev pub is_cancellation : TerminationReason → Bool
is_cancellation explicit_cancel = true
is_cancellation foreground_disconnect = true
is_cancellation runner_shutdown = true
is_cancellation _ = false

abbrev is_none_reason : TerminationReason → Bool
is_none_reason termination_none = true
is_none_reason _ = false

abbrev is_exit : TerminationReason → Bool
is_exit process_exited = true
is_exit _ = false

abbrev is_deadline : TerminationReason → Bool
is_deadline deadline_exceeded = true
is_deadline _ = false

abbrev is_internal : TerminationReason → Bool
is_internal internal_failure = true
is_internal _ = false

unfoldable pub valid_execution_transition :
    ExecutionState → ExecutionState → TerminationReason → Option ℤ → Bool
valid_execution_transition pending running reason code = is_none_reason reason && is_none code
valid_execution_transition pending failed reason code = is_start_failure reason && is_none code
valid_execution_transition pending cancelled reason code = is_cancellation reason && is_none code
valid_execution_transition running exited reason code = is_exit reason && is_some code
valid_execution_transition running cancelled reason code = is_cancellation reason && is_none code
valid_execution_transition running timed_out reason code = is_deadline reason && is_none code
valid_execution_transition running failed reason code = is_internal reason && is_none code
valid_execution_transition _ _ reason code = false

pub data TransitionError : Type 0 where
  invalid_execution_transition : TransitionError

-- A code that is nil leaves the stored one.
abbrev pub store_code : Option ℤ → Option ℤ → Option ℤ
store_code (some c) old = some c
store_code none old = old

-- The execution afterwards, and the error.
unfoldable pub transition :
    Execution → ExecutionState → TerminationReason → Option ℤ → Execution × Option TransitionError
unfolding valid_execution_transition
transition e next reason code =
    if not (valid_execution_transition e.state next reason code)
    then (e, some invalid_execution_transition)
    else (
      record e {
        state = next;
        termination_reason = reason;
        exit_code = store_code code e.exit_code;
      },
      none,
    )

-- `terminalExecutionState` of manager.go.
abbrev pub terminal_execution_state : ExecutionState → Bool
terminal_execution_state exited = true
terminal_execution_state failed = true
terminal_execution_state cancelled = true
terminal_execution_state timed_out = true
terminal_execution_state _ = false

-- The wire states of pkg/protocol, with `none` for the error on an unknown state.
pub data WireState : Type 0 where
  wire_pending wire_running wire_exited wire_failed wire_cancelled wire_timed_out : WireState

unfoldable pub map_execution_state : ExecutionState → Option WireState
map_execution_state pending = some wire_pending
map_execution_state running = some wire_running
map_execution_state exited = some wire_exited
map_execution_state failed = some wire_failed
map_execution_state cancelled = some wire_cancelled
map_execution_state timed_out = some wire_timed_out
map_execution_state (other s) = none

-- `a == b` on reasons.
unfoldable pub reason_eq : TerminationReason → TerminationReason → Bool
reason_eq termination_none termination_none = true
reason_eq validation_failed validation_failed = true
reason_eq start_failed start_failed = true
reason_eq process_exited process_exited = true
reason_eq explicit_cancel explicit_cancel = true
reason_eq foreground_disconnect foreground_disconnect = true
reason_eq deadline_exceeded deadline_exceeded = true
reason_eq runner_shutdown runner_shutdown = true
reason_eq internal_failure internal_failure = true
reason_eq (TerminationReason.other r) (TerminationReason.other s) = str_eq r s
reason_eq _ _ = false
