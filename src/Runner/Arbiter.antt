-- ===== src/Runner/Arbiter.antt =====
-- internal/runner/terminal_arbiter.go: one goroutine picks the terminal reason of an execution and
-- publishes it once process and pipes are finished.
use mini_sand_box.Prelude.{
  ◌≡◌, Bool, true, false, not, ◌&&◌, ◌||◌, String, Option, none, some, is_some, is_none, Result, ok,
  err, is_empty, if◌then◌else◌,
}
use mini_sand_box.Prelude.Int.{ℤ, pos, lt, quot}
use mini_sand_box.Protocol.Events.{EventType, ExecutionEvent, empty_event}
use mini_sand_box.Runner.Execution.{
  ExecutionState, TerminationReason, termination_none, validation_failed, start_failed,
  process_exited, explicit_cancel, foreground_disconnect, deadline_exceeded, runner_shutdown,
  internal_failure, Execution, transition, reason_eq,
}
use mini_sand_box.Runner.Sequencer.{EventError, Delivery, refused, answered, forgotten}
use mini_sand_box.Runner.EventStore.{EventStore, publish_control}
pub mod Candidates
pub mod FirstWins

pub record TerminalCandidate : Type 0 where
  pub reason : TerminationReason
  pub exit_code : Option ℤ
  pub error_code : String
  pub message : String
  pub duration : ℤ

pub record TerminalDecision : Type 0 where
  pub won : Bool
  pub winner : TerminationReason

pub data SubmitError : Type 0 where
  invalid_terminal_candidate context_ended : SubmitError

pub data FinalError : Type 0 where
  apply_state_failed publish_event_failed : FinalError

-- The switch of `validateTerminalCandidate`; `true` is a nil error.
valid_for : TerminationReason → TerminalCandidate → Bool
valid_for process_exited c = is_some c.exit_code && is_empty c.error_code && is_empty c.message
valid_for validation_failed c =
    is_none c.exit_code && not (is_empty c.error_code) && not (is_empty c.message)
valid_for start_failed c =
    is_none c.exit_code && not (is_empty c.error_code) && not (is_empty c.message)
valid_for internal_failure c =
    is_none c.exit_code && not (is_empty c.error_code) && not (is_empty c.message)
valid_for explicit_cancel c = is_none c.exit_code && is_empty c.error_code && is_empty c.message
valid_for foreground_disconnect c =
    is_none c.exit_code && is_empty c.error_code && is_empty c.message
valid_for deadline_exceeded c = is_none c.exit_code && is_empty c.error_code && is_empty c.message
valid_for runner_shutdown c = is_none c.exit_code && is_empty c.error_code && is_empty c.message
valid_for _ c = false

unfoldable pub validate_terminal_candidate : TerminalCandidate → Bool
unfolding valid_for
validate_terminal_candidate c = if lt c.duration (pos 0) then false else valid_for c.reason c

-- `Duration.Milliseconds`.
abbrev pub milliseconds : ℤ → ℤ
milliseconds d = quot d 1000000

abbrev timed : EventType → TerminalCandidate → ExecutionEvent
timed t c = record (empty_event t) { duration_ms = some (milliseconds c.duration) }

-- The switch of `terminalStateAndEvent`. A candidate with reason `process_exited` has an exit
-- code, which the code dereferences.
state_and_event_for : TerminationReason → TerminalCandidate → ExecutionState × ExecutionEvent
state_and_event_for process_exited c =
    (ExecutionState.exited, record (timed EventType.exited c) { exit_code = c.exit_code })
state_and_event_for deadline_exceeded c = (ExecutionState.timed_out, timed EventType.timed_out c)
state_and_event_for explicit_cancel c = (ExecutionState.cancelled, timed EventType.cancelled c)
state_and_event_for foreground_disconnect c =
    (ExecutionState.cancelled, timed EventType.cancelled c)
state_and_event_for runner_shutdown c = (ExecutionState.cancelled, timed EventType.cancelled c)
state_and_event_for _ c = (
  ExecutionState.failed,
  record (timed EventType.failed c) { error_code = c.error_code; message = c.message },
)

unfoldable pub terminal_state_and_event : TerminalCandidate → ExecutionState × ExecutionEvent
unfolding state_and_event_for
terminal_state_and_event c = state_and_event_for c.reason c

-- `done` says that the `done` channel is closed, `finalized` that the process and its pipes are
-- finished.
pub record TerminalArbiter : Type 0 where
  pub execution : Execution
  pub store : EventStore
  pub finalized : Bool
  pub done : Bool
  pub winner : Option TerminalCandidate
  pub final_err : Option FinalError

unfoldable pub new_terminal_arbiter : Execution → EventStore → TerminalArbiter
new_terminal_arbiter e s = record {
  execution = e;
  store = s;
  finalized = false;
  done = false;
  winner = none;
  final_err = none;
}

publish_event : Delivery → ℤ → ExecutionEvent → TerminalArbiter × Bool → TerminalArbiter
publish_event d now event (a, false) = record a { final_err = some apply_state_failed }
publish_event d now event (a, true) =
    let (s, result) = publish_control d now a.store event in
    record a {
      store = s;
      final_err = elim result [ ok e ↦ a.final_err | err x ↦ some publish_event_failed ];
    }

unfoldable pub publish_winner : Delivery → ℤ → TerminalCandidate → TerminalArbiter → TerminalArbiter
unfolding publish_event
publish_winner d now w a =
    let (next, event) = terminal_state_and_event w in
    let (e, error) = transition a.execution next w.reason w.exit_code in
    publish_event d now event (record a { execution = e }, is_none error)

-- The head of the loop: with a winner and everything finished it publishes and returns.
settle_winner : Delivery → ℤ → Option TerminalCandidate → TerminalArbiter → TerminalArbiter
unfolding publish_winner
settle_winner d now none a = a
settle_winner d now (some w) a = record (publish_winner d now w a) { done = true }

unfoldable pub settle : Delivery → ℤ → TerminalArbiter → TerminalArbiter
unfolding settle_winner
settle d now a = if a.finalized then settle_winner d now a.winner a else a

-- The first `case` of the loop: the process and its pipes are finished.
unfoldable pub finalize : Delivery → ℤ → TerminalArbiter → TerminalArbiter
unfolding settle
finalize d now a = if a.done then a else settle d now (record a { finalized = true })

keep_winner : Option TerminalCandidate → TerminalCandidate → TerminalCandidate
keep_winner none c = c
keep_winner (some w) c = w

abbrev decide : TerminalCandidate → TerminalCandidate → TerminalDecision
decide w c = record { won = reason_eq w.reason c.reason; winner = w.reason }

-- The second `case` of the loop: a request, with the decision that it is answered.
unfoldable pub handle_request :
    Delivery → ℤ → TerminalCandidate → TerminalArbiter → TerminalArbiter × TerminalDecision
unfolding keep_winner settle
handle_request d now c a =
    let w = keep_winner a.winner c in (settle d now (record a { winner = some w }), decide w c)

-- What a caller is told when the arbiter is done.
late_decision : Option TerminalCandidate → TerminalCandidate → TerminalDecision
late_decision none c = record { won = false; winner = termination_none }
late_decision (some w) c = decide w c

submit_open :
    Delivery
    → Delivery
    → ℤ
    → TerminalCandidate
    → TerminalArbiter
    → TerminalArbiter × Result SubmitError TerminalDecision
unfolding handle_request
submit_open refused d now c a = (a, err context_ended)
submit_open answered d now c a = let (a', decision) = handle_request d now c a in (a', ok decision)
submit_open forgotten d now c a = ((handle_request d now c a).0, err context_ended)

submit_done :
    Delivery
    → TerminalCandidate
    → TerminalArbiter
    → TerminalArbiter × Result SubmitError TerminalDecision
unfolding late_decision
submit_done refused c a = (a, err context_ended)
submit_done _ c a = (a, ok (late_decision a.winner c))

-- `call` is what the `select`s of `Submit` see; `d` is what becomes of the publication, should the
-- request set it off.
unfoldable pub submit :
    Delivery
    → Delivery
    → ℤ
    → TerminalCandidate
    → TerminalArbiter
    → TerminalArbiter × Result SubmitError TerminalDecision
unfolding submit_open submit_done
submit call d now c a =
    if not (validate_terminal_candidate c)
    then (a, err invalid_terminal_candidate)
    else if a.done
    then submit_done call c a
    else submit_open call d now c a
