-- ===== src/Examples/Terminal.antt =====
-- internal/runner/terminal_arbiter.go on an execution that is cancelled while it exits.
use mini_sand_box.Prelude.{
  ◌≡◌, ◌&&◌, refl, true, false, List, [], ◌∷◌, none, some, is_some, ok, arith,
}
use mini_sand_box.Prelude.Int.{pos}
use mini_sand_box.Protocol.Events.{started, empty_event}
use mini_sand_box.Runner.Execution.{
  Execution, running, termination_none, process_exited, explicit_cancel, terminal_execution_state,
  reason_eq,
}
use mini_sand_box.Runner.Sequencer.{answered}
use mini_sand_box.Runner.EventStore.{EventStore}
use mini_sand_box.Runner.EventStore.Output.{IsReady}
use mini_sand_box.Runner.Arbiter.{
  TerminalCandidate, TerminalDecision, validate_terminal_candidate, terminal_state_and_event,
  TerminalArbiter, new_terminal_arbiter, publish_winner, submit, settle, handle_request,
}
use mini_sand_box.Runner.Arbiter.Candidates.{publish_winner_complete}
use mini_sand_box.Runner.Arbiter.FirstWins.{
  ArbiterEvent, finishes, submits, run, first_valid, has_finished, run-first_valid, submit_decision,
}

abbrev active : Execution
active = record {
  id = "e1";
  state = running;
  created_at = pos 1;
  termination_reason = termination_none;
  exit_code = none;
}

abbrev store : EventStore
store = record {
  sequencer = record { execution_id = "e1"; sequence = 1; closed = false };
  max_output_bytes = 64;
  output_bytes = 0;
  output_truncated = false;
  limit_published = false;
  is_terminal = false;
  events =
      record (empty_event started) { execution_id = "e1"; sequence = 1; timestamp = pos 2 } ∷ [];
  changes = 1;
}

store_IsReady : IsReady store
store_IsReady = record {
  running = refl;
  named = refl;
  started = omega arith;
  not_terminal = refl;
  within = omega arith;
}

abbrev cancel : TerminalCandidate
cancel = record {
  reason = explicit_cancel;
  exit_code = none;
  error_code = "";
  message = "";
  duration = pos 3000000;
}

abbrev exit : TerminalCandidate
exit = record {
  reason = process_exited;
  exit_code = some (pos 137);
  error_code = "";
  message = "";
  duration = pos 4000000;
}

cancel_valid : validate_terminal_candidate cancel ≡ true
unfolding validate_terminal_candidate
cancel_valid = refl

-- The cancellation comes first, then the end of the process with its exit code.
abbrev history : List ArbiterEvent
history =
    submits answered answered (pos 5) cancel
    ∷ finishes answered (pos 6)
    ∷ submits answered answered (pos 7) exit
    ∷ []

run-first_valid_example :
    let b = run (new_terminal_arbiter active store) history in
    (b.winner ≡ first_valid history)
    × (b.done ≡ (has_finished history && is_some (first_valid history)))
run-first_valid_example = run-first_valid active store history

abbrev idle : TerminalArbiter
idle = record {
  execution = active;
  store = store;
  finalized = false;
  done = false;
  winner = none;
  final_err = none;
}

abbrev submissions : List ArbiterEvent
submissions = submits answered answered (pos 5) cancel ∷ submits answered answered (pos 7) exit ∷ []

-- What the first caller is told.
abbrev told : TerminalDecision
told = record { won = true; winner = explicit_cancel }

first_answer :
    (submit answered answered (pos 5) cancel (run (new_terminal_arbiter active store) [])).1
    ≡ ok told
unfolding submit run new_terminal_arbiter validate_terminal_candidate handle_request settle
    reason_eq
first_answer = refl

submit_decision_example :
    (w : TerminalCandidate) × ((submit answered answered
        (pos 5)
        cancel
        (run (new_terminal_arbiter active store) [])).0.winner
      ≡ some w)
    × (told ≡ record { won = reason_eq w.reason explicit_cancel; winner = w.reason })
submit_decision_example =
    submit_decision active store [] answered answered (pos 5) cancel first_answer

publish_winner_complete_example :
    let b = publish_winner answered (pos 6) cancel idle in
    (b.final_err ≡ none)
    × (b.execution.state ≡ (terminal_state_and_event cancel).0)
    × (b.execution.termination_reason ≡ cancel.reason)
    × (terminal_execution_state b.execution.state ≡ true)
    × (b.store.is_terminal ≡ true)
publish_winner_complete_example =
    publish_winner_complete (pos 6) cancel idle cancel_valid refl refl refl store_IsReady
      (omega arith) refl
