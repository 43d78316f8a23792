-- ===== src/Examples/Registry.antt =====
-- internal/runner/manager.go on a manager with two slots.
use mini_sand_box.Prelude.{
  if◌then◌else◌, is_some, ◌≡◌, ◌≤◌, refl, true, false, List, [], ◌∷◌, none, some, ok, err,
}
use mini_sand_box.Prelude.Int.{pos}
use mini_sand_box.Prelude.Maps.{sum, Unique, AllValues, lookup}
use mini_sand_box.Runner.Execution.{
  Execution, exited, running, process_exited, termination_none, new_pending_execution,
}
use mini_sand_box.Runner.Manager.{
  Manager, execution_not_found, new_manager, create_execution, runner_shutting_down, complete_at,
  complete_entry,
}
use mini_sand_box.Runner.Manager.Cancellation.{begin_shutdown}
use mini_sand_box.Runner.Manager.Slots.{slot, IsGood}
use mini_sand_box.Runner.Manager.Traces.{
  Call, creates, evolves, completes, cancels, evicts, run, run_slots, shutdown_final,
}
use mini_sand_box.Runner.Manager.Finality.{makes_none, complete_once}

abbrev fresh : Execution
fresh = new_pending_execution "e1" (pos 7)

abbrev empty_manager : Manager
empty_manager = record {
  max_concurrent = 2;
  executions = [];
  active = 0;
  accepting = true;
  changed = 0;
}

-- One execution from its creation to its eviction, reported as complete twice.
abbrev history : List Call
history =
    creates (ok (some fresh))
    ∷ evolves "e1" running termination_none none
    ∷ evolves "e1" exited process_exited (some (pos 0))
    ∷ completes "e1" (pos 9)
    ∷ completes "e1" (pos 10)
    ∷ evicts "e1"
    ∷ []

made_manager : new_manager 2 ≡ some empty_manager
unfolding new_manager
made_manager = refl

run_slots_example :
    ((run empty_manager history).active ≤ 2)
    × ((run empty_manager history).active ≡ sum slot (run empty_manager history).executions)
    × Unique (run empty_manager history).executions
    × AllValues IsGood (run empty_manager history).executions
run_slots_example = run_slots 2 history made_manager

shutdown_final_example :
    create_execution (ok (some fresh)) (run (begin_shutdown empty_manager).0 history)
    ≡ (run (begin_shutdown empty_manager).0 history, err runner_shutting_down)
shutdown_final_example = shutdown_final empty_manager history (ok (some fresh))

-- The entry of an execution that has exited, active or not.
abbrev ended : Execution
ended = record {
  id = "e1";
  state = exited;
  created_at = pos 7;
  termination_reason = process_exited;
  exit_code = some (pos 0);
}

abbrev unreported : Manager
unreported = record {
  max_concurrent = 2;
  executions =
      (
        "e1",
        record {
          execution = ended;
          visible = ended;
          events = none;
          active = true;
          has_handler = false;
          cancel_requested = false;
          cancel_reason = termination_none;
          cancel_started = false;
          cancel_done = false;
          cancel_err = none;
          terminal_done = false;
          completed_at = pos 0;
        },
      )
      ∷ [];
  active = 1;
  accepting = true;
  changed = 0;
}

reported : complete_at "e1" (pos 9) unreported ≡ ((complete_at "e1" (pos 9) unreported).0, none)
unfolding complete_at complete_entry lookup
reported = refl

-- The execution is reported, somebody cancels it, and it is evicted.
abbrev later_calls : List Call
later_calls = completes "e1" (pos 10) ∷ cancels "e1" ∷ evicts "e1" ∷ []

none_made : makes_none "e1" later_calls ≡ true
unfolding makes_none
none_made = refl

complete_once_example :
    let m = run (complete_at "e1" (pos 9) unreported).0 later_calls in
    complete_at "e1" (pos 11) m
    ≡ (m, (if is_some (lookup "e1" m.executions) then none else some execution_not_found))
complete_once_example =
    complete_once "e1" (pos 9) (pos 11) unreported (complete_at "e1" (pos 9) unreported).0
      later_calls reported none_made refl
