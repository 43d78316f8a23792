-- ===== src/Runner/Manager.antt =====
-- internal/runner/manager.go: the registry of executions and the concurrency slots.
--
-- Receivers, contexts and handlers are not nil. An entry holds the execution that its pointer
-- shares with the arbiter; an event store is named by a number, and a handler by its presence. What
-- a handler returns is an argument of `finish_cancellation`. `changed` counts the notifications.
use mini_sand_box.Prelude.{
  ℕ, suc, ◌+◌, ◌-◌, Bool, true, false, not, ◌&&◌, ◌||◌, String, List, [], ◌∷◌, Option, none, some,
  is_some, is_none, is_empty, Result, ok, err, leb, ◌==◌, if◌then◌else◌,
}
use mini_sand_box.Prelude.Int.{ℤ, pos}
use mini_sand_box.Prelude.Maps.{lookup, insert, erase}
use mini_sand_box.Protocol.Events.{is_zero}
use mini_sand_box.Runner.Execution.{
  ExecutionState, pending, TerminationReason, termination_none, explicit_cancel, runner_shutdown,
  is_cancellation, Execution, transition, terminal_execution_state,
}
pub mod Cancellation
pub mod Slots
pub mod Traces
pub mod Finality

pub data ManagerError : Type 0 where
  runner_shutting_down execution_limit_reached factory_failed invalid_execution empty_id :
      ManagerError
  execution_already_registered execution_not_found execution_still_active : ManagerError
  event_store_already_set completion_time_required cancellation_handler_already_set : ManagerError
  unsupported_cancellation_reason handler_not_ready handler_failed : ManagerError

-- `completed_at` is 0 until the slot is released. The booleans `cancel_done` and `terminal_done`
-- say that the channel is closed.
pub record ManagedExecution : Type 0 where
  pub execution : Execution
  pub visible : Execution
  pub events : Option ℕ
  pub active : Bool
  pub has_handler : Bool
  pub cancel_requested : Bool
  pub cancel_reason : TerminationReason
  pub cancel_started : Bool
  pub cancel_done : Bool
  pub cancel_err : Option ManagerError
  pub terminal_done : Bool
  pub completed_at : ℤ

pub record Manager : Type 0 where
  pub max_concurrent : ℕ
  pub executions : List (String × ManagedExecution)
  pub active : ℕ
  pub accepting : Bool
  pub changed : ℕ

unfoldable pub new_manager : ℕ → Option Manager
new_manager limit =
    if leb limit 0
    then none
    else some (record {
      max_concurrent = limit;
      executions = [];
      active = 0;
      accepting = true;
      changed = 0;
    })

-- The entry of a new execution.
abbrev pub new_entry : Execution → ManagedExecution
new_entry e = record {
  execution = e;
  visible = e;
  events = none;
  active = true;
  has_handler = false;
  cancel_requested = false;
  cancel_reason = termination_none;
  cancel_started = false;
  cancel_done = false;
  cancel_err = none;
  terminal_done = false;
  completed_at = pos 0;
}

abbrev is_pending : ExecutionState → Bool
is_pending pending = true
is_pending _ = false

-- With the slot taken: what the factory made is registered, or the slot is given back.
register :
    Result ManagerError (Option Execution) → Manager → Manager × Result ManagerError Execution
register (err e) m = (record m { active = m.active - 1 }, err e)
register (ok none) m = (record m { active = m.active - 1 }, err invalid_execution)
register (ok (some e)) m =
    let back = record m { active = m.active - 1 } in
    if not (is_pending e.state)
    then (back, err invalid_execution)
    else if is_empty e.id
    then (back, err empty_id)
    else if is_some (lookup e.id m.executions)
    then (back, err execution_already_registered)
    else (record m { executions = insert e.id (new_entry e) m.executions }, ok e)

-- `made` is what the factory returns.
unfoldable pub create_execution :
    Result ManagerError (Option Execution) → Manager → Manager × Result ManagerError Execution
unfolding register
create_execution made m =
    if not m.accepting
    then (m, err runner_shutting_down)
    else if leb m.max_concurrent m.active
    then (m, err execution_limit_reached)
    else register made (record m { active = m.active + 1 })

-- An entry is changed in place.
abbrev pub put : String → ManagedExecution → Manager → Manager
put id entry m = record m { executions = insert id entry m.executions }

unfoldable pub set_store :
    ℕ → String → Manager → Option ManagedExecution → Manager × Option ManagerError
set_store store id m none = (m, some execution_not_found)
set_store store id m (some entry) = elim entry.events [
  | none ↦ (put id (record entry { events = some store }) m, none)
  | some old ↦
      if old == store
      then (put id (record entry { events = some store }) m, none)
      else (m, some event_store_already_set)
]

unfoldable pub set_event_store : String → ℕ → Manager → Manager × Option ManagerError
unfolding set_store
set_event_store id store m = set_store store id m (lookup id m.executions)

-- `TransitionError` aside, what the arbiter and the launcher do to the shared execution.
unfoldable pub evolve : String → ExecutionState → TerminationReason → Option ℤ → Manager → Manager
evolve id next reason code m = elim (lookup id m.executions) [
  | none ↦ m
  | some entry ↦
      put id (record entry { execution = (transition entry.execution next reason code).0 }) m
]

unfoldable pub complete_entry :
    ℤ → String → Manager → Option ManagedExecution → Manager × Option ManagerError
complete_entry at id m none = (m, some execution_not_found)
complete_entry at id m (some entry) =
    if not (terminal_execution_state entry.execution.state)
    then (m, some execution_still_active)
    else if entry.active
    then (
      record m {
        executions =
            insert id (record entry { active = false; completed_at = at; terminal_done = true })
              m.executions;
        active = m.active - 1;
        changed = m.changed + 1;
      },
      none,
    )
    else (m, none)

unfoldable pub complete_at : String → ℤ → Manager → Manager × Option ManagerError
unfolding complete_entry
complete_at id at m =
    if is_zero at
    then (m, some completion_time_required)
    else complete_entry at id m (lookup id m.executions)
