-- ===== src/Runner/Arbiter/Candidates.antt =====
-- What a valid candidate of internal/runner/terminal_arbiter.go leads to.
use mini_sand_box.Prelude.{◌≡◌, refl, Bool, true, false, none, ok, is_empty, arith}
use mini_sand_box.Prelude.Int.{ℤ, pos, lt}
use mini_sand_box.Protocol.Events.{is_terminal_type, validate, is_zero, terminal}
use mini_sand_box.Runner.Execution.{
  pending, running, TerminationReason, validation_failed, start_failed, process_exited,
  deadline_exceeded, valid_execution_transition, transition, terminal_execution_state,
}
use mini_sand_box.Runner.Sequencer.{answered, is_started}
use mini_sand_box.Runner.Sequencer.Numbering.{Below, filled, publish_answered}
use mini_sand_box.Runner.EventStore.{EventStore, publish_control, fill_truncated}
use mini_sand_box.Runner.EventStore.Output.{IsReady}
use mini_sand_box.Runner.Arbiter.{
  TerminalCandidate, validate_terminal_candidate, valid_for, terminal_state_and_event,
  TerminalArbiter, publish_winner, state_and_event_for,
}

-- The reasons that can end a running process, and those that can end one that never ran.
abbrev pub ends_running : TerminationReason → Bool
ends_running validation_failed = false
ends_running start_failed = false
ends_running _ = true

abbrev pub ends_pending : TerminationReason → Bool
ends_pending process_exited = false
ends_pending deadline_exceeded = false
ends_pending _ = true

transition_for :
    (r : TerminationReason) (c : TerminalCandidate)
    → valid_for r c ≡ true
    → let next = (state_and_event_for r c).0 in
      (valid_execution_transition running next r c.exit_code ≡ ends_running r)
      × (valid_execution_transition pending next r c.exit_code ≡ ends_pending r)
      × (terminal_execution_state next ≡ true)
unfolding valid_for state_and_event_for valid_execution_transition
transition_for validation_failed c v = ground arith
transition_for _ c v = ground arith

-- The state that a valid candidate leads to is terminal; the state machine accepts it from
-- `Running` for every reason but a failed validation or start, and from `Pending` for every reason
-- but an exit or the deadline.
pub candidate_transition :
    (c : TerminalCandidate)
    → validate_terminal_candidate c ≡ true
    → let next = (terminal_state_and_event c).0 in
      (valid_execution_transition running next c.reason c.exit_code ≡ ends_running c.reason)
      × (valid_execution_transition pending next c.reason c.exit_code ≡ ends_pending c.reason)
      × (terminal_execution_state next ≡ true)
unfolding terminal_state_and_event validate_terminal_candidate
candidate_transition c v = transition_for c.reason c (ground arith)

event_for :
    (r : TerminationReason) (c : TerminalCandidate) (s : EventStore) (now : ℤ)
    → lt c.duration (pos 0) ≡ false
    → valid_for r c ≡ true
    → is_empty s.sequencer.execution_id ≡ false
    → is_zero now ≡ false
    → let e = filled now s.sequencer (fill_truncated s (state_and_event_for r c).1) in
      (validate e ≡ true) × (is_terminal_type e.type ≡ true)
unfolding valid_for state_and_event_for validate
event_for validation_failed c s now d v i z = ground arith
event_for _ c s now d v i z = ground arith

draft_for :
    (r : TerminationReason) (c : TerminalCandidate) (s : EventStore)
    → let e = fill_truncated s (state_and_event_for r c).1 in
      (is_empty e.execution_id ≡ true)
      × (e.sequence ≡ 0)
      × (e.timestamp ≡ pos 0)
      × (is_started e.type ≡ false)
      × (is_terminal_type e.type ≡ true)
      × (is_terminal_type (state_and_event_for r c).1.type ≡ true)
unfolding state_and_event_for
draft_for validation_failed c s = (refl, refl, refl, refl, refl, refl)
draft_for _ c s = (refl, refl, refl, refl, refl, refl)

-- The store after the terminal event of `c`.
stored_terminal :
    (now : ℤ) (c : TerminalCandidate) (s : EventStore)
    → validate_terminal_candidate c ≡ true
    → IsReady s
    → Below s.sequencer
    → is_zero now ≡ false
    → let (t, result) = publish_control answered now s (terminal_state_and_event c).1 in
      (result ≡ ok (filled now s.sequencer (fill_truncated s (terminal_state_and_event c).1)))
      × (t.is_terminal ≡ true)
unfolding publish_control terminal_state_and_event validate_terminal_candidate terminal
stored_terminal now c s v r b z = ground (
  arith,
  draft_for c.reason c s,
  event_for c.reason c s now,
  publish_answered now s.sequencer (fill_truncated s (state_and_event_for c.reason c).1),
)

-- Over a running execution, a store that takes events and has numbers left, and an arbiter without an
-- error so far, at a time that is not the zero time and where the sequencer answers, a valid winner
-- whose reason can end a running execution (any but a failed start and a failed validation) is
-- published whole: no error, the execution in the terminal state that the reason stands for and with
-- that reason, the store terminal.
pub publish_winner_complete :
    (now : ℤ) (w : TerminalCandidate) (a : TerminalArbiter)
    → validate_terminal_candidate w ≡ true
    → ends_running w.reason ≡ true
    → a.execution.state ≡ running
    → a.final_err ≡ none
    → IsReady a.store
    → Below a.store.sequencer
    → is_zero now ≡ false
    → let b = publish_winner answered now w a in
      (b.final_err ≡ none)
      × (b.execution.state ≡ (terminal_state_and_event w).0)
      × (b.execution.termination_reason ≡ w.reason)
      × (terminal_execution_state b.execution.state ≡ true)
      × (b.store.is_terminal ≡ true)
unfolding publish_winner transition
publish_winner_complete now w a v k s f r b z =
    ground (arith, candidate_transition w, stored_terminal now w a.store)
