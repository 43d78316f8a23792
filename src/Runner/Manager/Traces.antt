-- ===== src/Runner/Manager/Traces.antt =====
-- Any sequence of calls of internal/runner/manager.go, in the order in which they take the lock.
use mini_sand_box.Prelude.{
  ℕ, ◌≤◌, ◌≡◌, ◌⊎◌, refl, true, false, String, List, [], ◌∷◌, Option, none, some, Result, ok, err,
  arith,
}
use mini_sand_box.Prelude.Int.{ℤ}
use mini_sand_box.Prelude.Maps.{lookup, sum, Unique, AllValues}
use mini_sand_box.Runner.Execution.{ExecutionState, TerminationReason, explicit_cancel, Execution}
use mini_sand_box.Runner.Manager.{
  ManagerError, Manager, new_manager, create_execution, set_event_store, evolve, complete_at,
  runner_shutting_down,
}
use mini_sand_box.Runner.Manager.Cancellation.{
  set_cancellation_handler, request_cancellation, cancel_async, finish_cancellation, begin_shutdown,
  evict,
}
use mini_sand_box.Runner.Manager.Slots.{
  IsSlotted, IsGood, slot, create-IsSlotted, set_store-IsSlotted, evolve-IsSlotted,
  complete-IsSlotted, bind-IsSlotted, request-IsSlotted, finish-IsSlotted, evict-IsSlotted,
}

pub data Call : Type 0 where
  creates : Result ManagerError (Option Execution) → Call
  stores : String → ℕ → Call
  evolves : String → ExecutionState → TerminationReason → Option ℤ → Call
  completes : String → ℤ → Call
  binds : String → Call
  requests : String → TerminationReason → Call
  cancels : String → Call
  returns : String → Option ManagerError → Call
  shuts_down : Call
  evicts : String → Call

unfoldable pub step : Call → Manager → Manager
step (creates made) m = (create_execution made m).0
step (stores id store) m = (set_event_store id store m).0
step (evolves id next reason code) m = evolve id next reason code m
step (completes id at) m = (complete_at id at m).0
step (binds id) m = (set_cancellation_handler id m).0
step (requests id reason) m = (request_cancellation id reason m).0
step (cancels id) m = (cancel_async id m).0
step (returns id result) m = finish_cancellation id result m
step shuts_down m = (begin_shutdown m).0
step (evicts id) m = evict id m

unfoldable pub run : Manager → List Call → Manager
run m [] = m
run m (c ∷ l) = run (step c m) l

completes-IsSlotted :
    (id : String) (at : ℤ) (m : Manager) → IsSlotted m → IsSlotted (complete_at id at m).0
unfolding complete_at
completes-IsSlotted id at m v = ground (arith, complete-IsSlotted at id m (lookup id m.executions))

requests-IsSlotted :
    (id : String) (reason : TerminationReason) (m : Manager)
    → IsSlotted m
    → IsSlotted (request_cancellation id reason m).0
unfolding request_cancellation
requests-IsSlotted id reason m v =
    ground (arith, request-IsSlotted reason id m (lookup id m.executions))

step-IsSlotted : (c : Call) (m : Manager) → IsSlotted m → IsSlotted (step c m)
unfolding step set_event_store set_cancellation_handler cancel_async begin_shutdown
step-IsSlotted (creates made) m v = create-IsSlotted made m v
step-IsSlotted (stores id store) m v =
    set_store-IsSlotted store id m (lookup id m.executions) v refl
step-IsSlotted (evolves id next reason code) m v = evolve-IsSlotted id next reason code m v
step-IsSlotted (completes id at) m v = completes-IsSlotted id at m v
step-IsSlotted (binds id) m v = bind-IsSlotted id m (lookup id m.executions) v refl
step-IsSlotted (requests id reason) m v = requests-IsSlotted id reason m v
step-IsSlotted (cancels id) m v =
    request-IsSlotted explicit_cancel id m (lookup id m.executions) v refl
step-IsSlotted (returns id result) m v = finish-IsSlotted id result m v
step-IsSlotted shuts_down m v = record {
  unique = v.unique;
  counted = v.counted;
  bounded = v.bounded;
  good = v.good;
}
step-IsSlotted (evicts id) m v = evict-IsSlotted id m v

run-IsSlotted : (m : Manager) (l : List Call) → IsSlotted m → IsSlotted (run m l)
unfolding run
run-IsSlotted m [] v = v
run-IsSlotted m (c ∷ l) v = run-IsSlotted (step c m) l (step-IsSlotted c m v)

new_manager-IsSlotted : (limit : ℕ) {m : Manager} → new_manager limit ≡ some m → IsSlotted m
unfolding new_manager sum
new_manager-IsSlotted limit h = ground arith

-- What no call changes: the limit, and a closed door.
abbrev Same : Manager → Manager → Type 0
Same m n = (n.max_concurrent ≡ m.max_concurrent) × ((m.accepting ≡ true) ⊎ (n.accepting ≡ false))

create_Same :
    (made : Result ManagerError (Option Execution)) (m : Manager)
    → Same m (create_execution made m).0
unfolding create_execution
create_Same (err x) m = ground arith
create_Same (ok none) m = ground arith
create_Same (ok (some e)) m = ground arith

step-Same : (c : Call) (m : Manager) → Same m (step c m)
unfolding step set_event_store evolve complete_at set_cancellation_handler request_cancellation
    cancel_async finish_cancellation begin_shutdown evict
step-Same (creates made) m = create_Same made m
step-Same (stores id store) m = ground arith
step-Same (evolves id next reason code) m = ground arith
step-Same (completes id at) m = ground arith
step-Same (binds id) m = ground arith
step-Same (requests id reason) m = ground arith
step-Same (cancels id) m = ground arith
step-Same (returns id result) m = ground arith
step-Same shuts_down m = ground arith
step-Same (evicts id) m = ground arith

run-Same : (m : Manager) (l : List Call) → Same m (run m l)
unfolding run
run-Same m [] = ground arith
run-Same m (c ∷ l) = ground (arith, step-Same c m, run-Same (step c m) l)

new_manager_limit :
    (limit : ℕ) {m : Manager} → new_manager limit ≡ some m → m.max_concurrent ≡ limit
unfolding new_manager
new_manager_limit limit h = ground arith

-- After any sequence of calls on a new manager, the counter of slots is the number of entries whose
-- completion has not been reported, it is within the limit, no ID is registered twice, and every
-- entry is in order: it gives its slot back once, with a time stamp, in a terminal state.
pub run_slots :
    (limit : ℕ) {m : Manager} (l : List Call)
    → new_manager limit ≡ some m
    → ((run m l).active ≤ limit)
      × ((run m l).active ≡ sum slot (run m l).executions)
      × Unique (run m l).executions
      × AllValues IsGood (run m l).executions
run_slots limit {m} l h =
    let v = run-IsSlotted m l (new_manager-IsSlotted limit h) in
    (
      omega (arith, v.bounded, (run-Same m l).0, new_manager_limit limit h),
      v.counted,
      v.unique,
      v.good,
    )

-- Once `Shutdown` has begun, whatever is called afterwards, the manager creates no execution and
-- takes no slot.
pub shutdown_final :
    (m : Manager) (l : List Call) (made : Result ManagerError (Option Execution))
    → create_execution made (run (begin_shutdown m).0 l)
      ≡ (run (begin_shutdown m).0 l, err runner_shutting_down)
unfolding create_execution begin_shutdown
shutdown_final m l made = ground (arith, run-Same (record m { accepting = false }) l)
