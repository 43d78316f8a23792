-- ===== src/Runner/Manager/Cancellation.antt =====
-- The cancellation of an execution and the shutdown of internal/runner/manager.go, and the deletion
-- of completed_execution_gc.go.
use mini_sand_box.Prelude.{
  Bool, true, false, not, ◌&&◌, ◌||◌, String, List, [], ◌∷◌, Option, none, some, if◌then◌else◌,
}
use mini_sand_box.Prelude.Maps.{lookup, erase}
use mini_sand_box.Protocol.Events.{is_zero}
use mini_sand_box.Runner.Execution.{
  TerminationReason, explicit_cancel, is_cancellation, terminal_execution_state,
}
use mini_sand_box.Runner.Manager.{
  ManagerError, ManagedExecution, Manager, put, execution_not_found,
  cancellation_handler_already_set, unsupported_cancellation_reason,
}

-- What `beginCancellation` returns beside the entry: whether the caller runs the handler, the
-- reason, and whether there is a channel to wait on.
unfoldable pub begin_cancellation :
    ManagedExecution → ManagedExecution × Bool × TerminationReason × Bool
begin_cancellation entry =
    if not entry.cancel_requested || not entry.has_handler
    then (entry, false, entry.cancel_reason, false)
    else if entry.cancel_started
    then (entry, false, entry.cancel_reason, true)
    else (record entry { cancel_started = true }, true, entry.cancel_reason, true)

-- The locked part of a call: an error, nothing left to do, or how the caller goes on.
pub data Outcome : Type 0 where
  failed : ManagerError → Outcome
  finished : Outcome
  continues : Bool → TerminationReason → Bool → Outcome

unfoldable pub begun :
    String → Manager → ManagedExecution × Bool × TerminationReason × Bool → Manager × Outcome
begun id m (entry, run, reason, waits) = (put id entry m, continues run reason waits)

unfoldable pub bind_handler : String → Manager → Option ManagedExecution → Manager × Outcome
unfolding begun begin_cancellation
bind_handler id m none = (m, failed execution_not_found)
bind_handler id m (some entry) =
    if entry.has_handler
    then (m, failed cancellation_handler_already_set)
    else begun id m (begin_cancellation (record entry { has_handler = true }))

unfoldable pub set_cancellation_handler : String → Manager → Manager × Outcome
unfolding bind_handler
set_cancellation_handler id m = bind_handler id m (lookup id m.executions)

-- The first request fixes the reason.
abbrev pub request : TerminationReason → ManagedExecution → ManagedExecution
request reason entry =
    if entry.cancel_requested
    then entry
    else record entry { cancel_requested = true; cancel_reason = reason }

unfoldable pub request_entry :
    TerminationReason → String → Manager → Option ManagedExecution → Manager × Outcome
unfolding begun begin_cancellation
request_entry reason id m none = (m, failed execution_not_found)
request_entry reason id m (some entry) =
    if terminal_execution_state entry.execution.state
    then (m, finished)
    else begun id m (begin_cancellation (request reason entry))

-- `Cancel` and `Shutdown` come through here; `CancelAsync` does the same with `explicit_cancel`,
-- and starts the handler without waiting for it.
unfoldable pub request_cancellation : String → TerminationReason → Manager → Manager × Outcome
unfolding request_entry
request_cancellation id reason m =
    if not (is_cancellation reason)
    then (m, failed unsupported_cancellation_reason)
    else request_entry reason id m (lookup id m.executions)

unfoldable pub cancel_async : String → Manager → Manager × Outcome
unfolding request_entry
cancel_async id m = request_entry explicit_cancel id m (lookup id m.executions)

-- The end of `runCancellation`: the handler has returned.
unfoldable pub finish_cancellation : String → Option ManagerError → Manager → Manager
finish_cancellation id result m = elim (lookup id m.executions) [
  | none ↦ m
  | some entry ↦ put id (record entry { cancel_err = result; cancel_done = true }) m
]

active_ids : List (String × ManagedExecution) → List String
active_ids [] = []
active_ids ((id, entry) ∷ m) = let rest = active_ids m in if entry.active then id ∷ rest else rest

-- The locked part of `Shutdown`: no more executions, and the IDs that it cancels.
unfoldable pub begin_shutdown : Manager → Manager × List String
unfolding active_ids
begin_shutdown m = (record m { accepting = false }, active_ids m.executions)

-- `evictCompleted` deletes entries of this kind.
abbrev pub is_evictable : ManagedExecution → Bool
is_evictable entry =
    not entry.active
    && not (is_zero entry.completed_at)
    && terminal_execution_state entry.execution.state

-- One deletion of `evictCompleted`.
unfoldable pub evict : String → Manager → Manager
evict id m = elim (lookup id m.executions) [
  | none ↦ m
  | some entry ↦ if is_evictable entry then record m { executions = erase id m.executions } else m
]
