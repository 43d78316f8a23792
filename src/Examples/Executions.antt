-- ===== src/Examples/Executions.antt =====
-- internal/runner/execution_model.go on an execution that starts and exits.
use mini_sand_box.Prelude.{◌≡◌, ◌⊎◌, ◌≤◌, refl, List, [], ◌∷◌, none, some}
use mini_sand_box.Prelude.Int.{pos}
use mini_sand_box.Runner.Execution.{
  Execution, running, exited, failed, termination_none, process_exited, start_failed,
  new_pending_execution, transition,
}
use mini_sand_box.Runner.Execution.Lifecycle.{
  Call, run, accepted, IsConsistent, transition-IsConsistent, new-run,
}

abbrev fresh : Execution
fresh = new_pending_execution "e1" (pos 7)

-- A start, an exit, and a failure that comes too late.
abbrev calls : List Call
calls =
    (running, termination_none, none)
    ∷ (exited, process_exited, some (pos 0))
    ∷ (failed, start_failed, none)
    ∷ []

abbrev ended : Execution
ended = record {
  id = "e1";
  state = exited;
  created_at = pos 7;
  termination_reason = process_exited;
  exit_code = some (pos 0);
}

ended_IsConsistent : IsConsistent ended
unfolding IsConsistent
ended_IsConsistent = (refl, refl)

transition-IsConsistent_example :
    IsConsistent (transition ended failed start_failed none).0
    × (((transition ended failed start_failed none).1 ≡ none)
        ⊎ ((transition ended failed start_failed none).0 ≡ ended))
transition-IsConsistent_example =
    transition-IsConsistent ended failed start_failed none ended_IsConsistent

new-run_example : (accepted fresh calls ≤ 2) × IsConsistent (run fresh calls)
new-run_example = new-run "e1" (pos 7) calls
