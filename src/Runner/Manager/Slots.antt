-- ===== src/Runner/Manager/Slots.antt =====
-- The concurrency slots of internal/runner/manager.go: the counter and the entries agree.
use mini_sand_box.Prelude.{
  ℕ, ◌≤◌, ◌≡◌, ◌⊎◌, inl, inr, refl, ◌∙◌, true, false, not, ◌&&◌, String, Option, none, some, Result,
  ok, err, if◌then◌else◌, arith, Option-cases, Bool-cases,
}
use mini_sand_box.Prelude.Int.{ℤ}
use mini_sand_box.Prelude.Maps.{
  lookup, insert, erase, Unique, insert-Unique, erase-Unique, sum, sum-insert, sum-erase, AllValues,
  insert-AllValues, erase-AllValues, AllValues-lookup,
}
use mini_sand_box.Protocol.Events.{is_zero}
use mini_sand_box.Runner.Execution.{
  ExecutionState, TerminationReason, Execution, terminal_execution_state,
}
use mini_sand_box.Runner.Execution.Lifecycle.{transition_stays}
use mini_sand_box.Runner.Manager.{
  ManagerError, ManagedExecution, Manager, new_entry, create_execution, set_store, evolve,
  complete_entry,
}
use mini_sand_box.Runner.Manager.Cancellation.{
  begin_cancellation, begun, bind_handler, request_entry, request, finish_cancellation, evict,
  is_evictable,
}

abbrev pub slot : ManagedExecution → ℕ
slot entry = if entry.active then 1 else 0

-- An entry is active exactly until its completion, and completed only in a terminal state; its
-- handler is started only once it is bound and a cancellation was asked for.
pub record IsGood (entry : ManagedExecution) : Type 0 where
  pub closes : entry.terminal_done ≡ not entry.active
  pub stamped : is_zero entry.completed_at ≡ entry.active
  pub ended : (entry.active ≡ true) ⊎ (terminal_execution_state entry.execution.state ≡ true)
  pub starts : (entry.cancel_started ≡ false) ⊎ (entry.cancel_requested && entry.has_handler ≡ true)

pub record IsSlotted (m : Manager) : Type 0 where
  pub unique : Unique m.executions
  pub counted : m.active ≡ sum slot m.executions
  pub bounded : m.active ≤ m.max_concurrent
  pub good : AllValues IsGood m.executions

-- Replacing an entry by one that takes the same slot.
put-IsSlotted :
    (id : String) (old new : ManagedExecution) (m : Manager)
    → IsSlotted m
    → lookup id m.executions ≡ some old
    → slot new ≡ slot old
    → IsGood new
    → IsSlotted (record m { executions = insert id new m.executions })
put-IsSlotted id old new m v e same g = record {
  unique = insert-Unique id new m.executions v.unique;
  counted = ground (arith, v.counted, sum-insert slot id new m.executions);
  bounded = v.bounded;
  good = insert-AllValues IsGood id new m.executions g v.good;
}

pub create-IsSlotted :
    (made : Result ManagerError (Option Execution)) (m : Manager)
    → IsSlotted m
    → IsSlotted (create_execution made m).0
unfolding create_execution
create-IsSlotted (err x) m v = ground arith
create-IsSlotted (ok none) m v = ground arith
create-IsSlotted (ok (some e)) m v = ground (
  arith,
  insert-Unique e.id (new_entry e) m.executions v.unique,
  sum-insert slot e.id (new_entry e) m.executions,
  insert-AllValues IsGood e.id (new_entry e) m.executions new_good v.good,
)
  where
    new_good : IsGood (new_entry e)
    new_good = ground arith

-- The entry that an operation finds.
found :
    (id : String) {old : ManagedExecution} (m : Manager)
    → IsSlotted m
    → lookup id m.executions ≡ some old
    → IsGood old
found id m v e = AllValues-lookup IsGood id m.executions v.good e

pub set_store-IsSlotted :
    (store : ℕ) (id : String) (m : Manager) (o : Option ManagedExecution)
    → IsSlotted m
    → lookup id m.executions ≡ o
    → IsSlotted (set_store store id m o).0
unfolding set_store
set_store-IsSlotted store id m none v e = v
set_store-IsSlotted store id m (some old) v e =
    let g = found id m v e in
    let kept =
      put-IsSlotted id old (record old { events = some store }) m v e refl (ground arith) in
    ground arith

pub evolve-IsSlotted :
    (id : String) (next : ExecutionState) (reason : TerminationReason) (code : Option ℤ)
    (m : Manager)
    → IsSlotted m
    → IsSlotted (evolve id next reason code m)
unfolding evolve
evolve-IsSlotted id next reason code m v = elim (Option-cases (lookup id m.executions)) [
  | inl e ↦ rw (e, evolve) v
  | inr (old, e) ↦
      let g = found id m v e in
      rw (e, evolve)
        (put-IsSlotted id old _ m v e refl
          (ground (arith, g, transition_stays old.execution next reason code)))
]

pub complete-IsSlotted :
    (at : ℤ) (id : String) (m : Manager) (o : Option ManagedExecution)
    → is_zero at ≡ false
    → IsSlotted m
    → lookup id m.executions ≡ o
    → IsSlotted (complete_entry at id m o).0
unfolding complete_entry
complete-IsSlotted at id m none z v e = v
complete-IsSlotted at id m (some old) z v e =
    let new = record old { active = false; completed_at = at; terminal_done = true } in
    let g = found id m v e in
    ground (
      arith,
      insert-Unique id new m.executions v.unique,
      sum-insert slot id new m.executions,
      insert-AllValues IsGood id new m.executions,
    )

begin-IsGood : (entry : ManagedExecution) → IsGood entry → IsGood (begin_cancellation entry).0
unfolding begin_cancellation
begin-IsGood entry g = ground arith

slot-begin : (entry : ManagedExecution) → slot (begin_cancellation entry).0 ≡ slot entry
unfolding begin_cancellation
slot-begin entry = ground arith

pub bind-IsSlotted :
    (id : String) (m : Manager) (o : Option ManagedExecution)
    → IsSlotted m
    → lookup id m.executions ≡ o
    → IsSlotted (bind_handler id m o).0
unfolding bind_handler begun
bind-IsSlotted id m none v e = v
bind-IsSlotted id m (some old) v e =
    let g = found id m v e in
    let new = record old { has_handler = true } in
    let kept =
      put-IsSlotted id old (begin_cancellation new).0 m v e (slot-begin new)
        (begin-IsGood new (ground arith)) in
    ground arith

pub request-IsSlotted :
    (reason : TerminationReason) (id : String) (m : Manager) (o : Option ManagedExecution)
    → IsSlotted m
    → lookup id m.executions ≡ o
    → IsSlotted (request_entry reason id m o).0
unfolding request_entry begun
request-IsSlotted reason id m none v e = v
request-IsSlotted reason id m (some old) v e =
    let g = found id m v e in
    let new = request reason old in
    let kept =
      put-IsSlotted id old (begin_cancellation new).0 m v e (slot-begin new ∙ ground arith)
        (begin-IsGood new (ground arith)) in
    ground arith

pub finish-IsSlotted :
    (id : String) (result : Option ManagerError) (m : Manager)
    → IsSlotted m
    → IsSlotted (finish_cancellation id result m)
unfolding finish_cancellation
finish-IsSlotted id result m v = elim (Option-cases (lookup id m.executions)) [
  | inl e ↦ rw (e, finish_cancellation) v
  | inr (old, e) ↦
      let g = found id m v e in
      rw (e, finish_cancellation) (put-IsSlotted id old _ m v e refl (ground (arith, g)))
]

evict_entry-IsSlotted :
    (id : String) (entry : ManagedExecution) (m : Manager)
    → IsSlotted m
    → lookup id m.executions ≡ some entry
    → is_evictable entry ≡ true
    → IsSlotted (record m { executions = erase id m.executions })
evict_entry-IsSlotted id entry m v e k = record {
  unique = erase-Unique id m.executions v.unique;
  counted = ground (arith, v.counted, sum-erase slot id m.executions v.unique);
  bounded = v.bounded;
  good = erase-AllValues IsGood id m.executions v.good;
}

pub evict-IsSlotted : (id : String) (m : Manager) → IsSlotted m → IsSlotted (evict id m)
unfolding evict
evict-IsSlotted id m v = elim (Option-cases (lookup id m.executions)) [
  | inl e ↦ rw (e, evict) v
  | inr (entry, e) ↦ elim (Bool-cases (is_evictable entry)) [
    | inl k ↦ rw (e, evict) (rw k (evict_entry-IsSlotted id entry m v e k))
    | inr k ↦ rw (e, evict) (rw k v)
  ]
]
