-- ===== src/Runner/Manager/Finality.antt =====
-- What stays of an execution of internal/runner/manager.go once its completion has been reported.
use mini_sand_box.Prelude.{
  ℕ, ◌≡◌, refl, Bool, true, false, not, ◌&&◌, String, List, [], ◌∷◌, Option, none, some, Result, ok,
  err, str_eq, if◌then◌else◌, is_some, and_split, Bool-cases, inl, inr, arith, eq_iff,
}
use mini_sand_box.Prelude.Int.{ℤ}
use mini_sand_box.Prelude.Maps.{lookup, erase, lookup-insert, lookup-erase}
use mini_sand_box.Protocol.Events.{is_zero}
use mini_sand_box.Runner.Execution.{
  ExecutionState, TerminationReason, explicit_cancel, Execution, terminal_execution_state,
  transition,
}
use mini_sand_box.Runner.Execution.Lifecycle.{transition_stays}
use mini_sand_box.Runner.Manager.{
  ManagerError, ManagedExecution, Manager, create_execution, set_event_store, set_store, evolve,
  complete_at, complete_entry, new_entry, put, execution_not_found,
}
use mini_sand_box.Runner.Manager.Cancellation.{
  set_cancellation_handler, bind_handler, request_cancellation, request, request_entry,
  begin_cancellation, begun, cancel_async, finish_cancellation, begin_shutdown, is_evictable, evict,
}
use mini_sand_box.Runner.Manager.Traces.{
  Call, creates, stores, evolves, completes, binds, requests, cancels, returns, shuts_down, evicts,
  step, run,
}

-- The entry has given its slot back and is in a terminal state.
abbrev pub is_over : ManagedExecution → Bool
is_over entry = not entry.active && terminal_execution_state entry.execution.state

-- The execution is over, or has been evicted.
abbrev pub is_closed : Option ManagedExecution → Bool
is_closed none = true
is_closed (some entry) = is_over entry

abbrev is_closed_in : String → Manager → Bool
is_closed_in id m = is_closed (lookup id m.executions)

-- The call registers an execution with this ID.
abbrev pub makes : String → Call → Bool
makes id (creates (ok (some e))) = str_eq e.id id
makes id _ = false

put-closed :
    (id key : String) (old entry : ManagedExecution) (m : Manager)
    → lookup key m.executions ≡ some old
    → (is_over old ≡ true → is_over entry ≡ true)
    → is_closed (lookup id m.executions) ≡ true
    → is_closed (lookup id (put key entry m).executions) ≡ true
put-closed id key old entry m f keeps h = elim (Bool-cases (str_eq key id)) [
  | inl same ↦
      let k = (eq_iff key id).0 same in
      rw (lookup-insert key id entry m.executions, same) (keeps (rw (← k, f) at h))
  | inr other ↦ rw (lookup-insert key id entry m.executions, other) h
]

set_store-closed :
    (store : ℕ) (id key : String) (m : Manager) (found : Option ManagedExecution)
    → lookup key m.executions ≡ found
    → is_closed (lookup id m.executions) ≡ true
    → is_closed (lookup id (set_store store key m found).0.executions) ≡ true
unfolding set_store
set_store-closed store id key m none f h = h
set_store-closed store id key m (some entry) f h =
    let k = put-closed id key entry (record entry { events = some store }) m f (λ o. o) h in
    ground arith

-- An entry that is there is changed in place.
change-closed :
    (change : ManagedExecution → ManagedExecution) (id key : String) (m : Manager)
    (found : Option ManagedExecution)
    → lookup key m.executions ≡ found
    → ((entry : ManagedExecution) → is_over entry ≡ true → is_over (change entry) ≡ true)
    → is_closed (lookup id m.executions) ≡ true
    → is_closed_in id (elim found [ none ↦ m | some entry ↦ put key (change entry) m ]) ≡ true
change-closed change id key m none f keeps h = h
change-closed change id key m (some entry) f keeps h =
    put-closed id key entry (change entry) m f (keeps entry) h

evolve-closed :
    (next : ExecutionState) (reason : TerminationReason) (code : Option ℤ) (id key : String)
    (m : Manager)
    → is_closed (lookup id m.executions) ≡ true
    → is_closed (lookup id (evolve key next reason code m).executions) ≡ true
unfolding evolve
evolve-closed next reason code id key m h =
    change-closed
      (λ entry. record entry { execution = (transition entry.execution next reason code).0 }) id key
      m (lookup key m.executions) refl
      (λ entry o.
        let (idle, ended) = and_split _ _ o in
        rw (transition_stays entry.execution next reason code ended) o)
      h

complete-closed :
    (at : ℤ) (id key : String) (m : Manager) (found : Option ManagedExecution)
    → lookup key m.executions ≡ found
    → is_closed (lookup id m.executions) ≡ true
    → is_closed (lookup id (complete_entry at key m found).0.executions) ≡ true
unfolding complete_entry
complete-closed at id key m none f h = h
complete-closed at id key m (some entry) f h =
    let k =
      put-closed id key entry
        (record entry { active = false; completed_at = at; terminal_done = true }) m f
        (λ o. ground arith) h in
    ground arith

bind-closed :
    (id key : String) (m : Manager) (found : Option ManagedExecution)
    → lookup key m.executions ≡ found
    → is_closed (lookup id m.executions) ≡ true
    → is_closed (lookup id (bind_handler key m found).0.executions) ≡ true
unfolding bind_handler begun begin_cancellation
bind-closed id key m none f h = h
bind-closed id key m (some entry) f h =
    let bound = record entry { has_handler = true } in
    let k = put-closed id key entry bound m f (λ o. o) h in
    let j = put-closed id key entry (record bound { cancel_started = true }) m f (λ o. o) h in
    ground arith

finish-closed :
    (result : Option ManagerError) (id key : String) (m : Manager)
    → is_closed (lookup id m.executions) ≡ true
    → is_closed (lookup id (finish_cancellation key result m).executions) ≡ true
unfolding finish_cancellation
finish-closed result id key m h =
    change-closed (λ entry. record entry { cancel_err = result; cancel_done = true }) id key m
      (lookup key m.executions) refl (λ entry o. o) h

erase-closed :
    (id key : String) (m : Manager)
    → is_closed (lookup id m.executions) ≡ true
    → is_closed (lookup id (erase key m.executions)) ≡ true
erase-closed id key m h = elim (Bool-cases (str_eq key id)) [
  | inl same ↦ rw (lookup-erase key id m.executions, same) refl
  | inr other ↦ rw (lookup-erase key id m.executions, other) h
]

evict-closed :
    (id key : String) (m : Manager)
    → is_closed (lookup id m.executions) ≡ true
    → is_closed (lookup id (evict key m).executions) ≡ true
unfolding evict
evict-closed id key m h = evicted (lookup key m.executions)
  where
    evicted :
        (found : Option ManagedExecution)
        → is_closed_in id (elim found [
          | none ↦ m
          | some entry ↦
              if is_evictable entry then record m { executions = erase key m.executions } else m
        ])
          ≡ true
    evicted none = h
    evicted (some entry) = elim (Bool-cases (is_evictable entry)) [
      | inl e ↦ rw e (erase-closed id key m h)
      | inr e ↦ rw e h
    ]

create-closed :
    (id : String) (made : Result ManagerError (Option Execution)) (m : Manager)
    → makes id (creates made) ≡ false
    → is_closed (lookup id m.executions) ≡ true
    → is_closed (lookup id (create_execution made m).0.executions) ≡ true
unfolding create_execution
create-closed id (err e) m n h = ground arith
create-closed id (ok none) m n h = ground arith
create-closed id (ok (some e)) m n h =
    let k = lookup-insert e.id id (new_entry e) m.executions in ground arith

request-closed :
    (reason : TerminationReason) (id key : String) (m : Manager) (found : Option ManagedExecution)
    → lookup key m.executions ≡ found
    → is_closed (lookup id m.executions) ≡ true
    → is_closed (lookup id (request_entry reason key m found).0.executions) ≡ true
unfolding request_entry begun begin_cancellation
request-closed reason id key m none f h = h
request-closed reason id key m (some entry) f h =
    let asked = request reason entry in
    let j = put-closed id key entry asked m f (λ o. ground arith) h in
    let k =
      put-closed id key entry (record asked { cancel_started = true }) m f (λ o. ground arith) h in
    ground arith

completes-closed :
    (at : ℤ) (id key : String) (m : Manager)
    → is_closed (lookup id m.executions) ≡ true
    → is_closed (lookup id (complete_at key at m).0.executions) ≡ true
unfolding complete_at
completes-closed at id key m h =
    ground (arith, complete-closed at id key m (lookup key m.executions) refl h)

requests-closed :
    (reason : TerminationReason) (id key : String) (m : Manager)
    → is_closed (lookup id m.executions) ≡ true
    → is_closed (lookup id (request_cancellation key reason m).0.executions) ≡ true
unfolding request_cancellation
requests-closed reason id key m h =
    ground (arith, request-closed reason id key m (lookup key m.executions) refl h)

step-closed :
    (c : Call) (id : String) (m : Manager)
    → makes id c ≡ false
    → is_closed (lookup id m.executions) ≡ true
    → is_closed (lookup id (step c m).executions) ≡ true
unfolding step set_event_store set_cancellation_handler cancel_async begin_shutdown
step-closed (creates made) id m n h = create-closed id made m n h
step-closed (stores key store) id m n h = set_store-closed store id key m _ refl h
step-closed (evolves key next reason code) id m n h = evolve-closed next reason code id key m h
step-closed (completes key at) id m n h = completes-closed at id key m h
step-closed (binds key) id m n h = bind-closed id key m _ refl h
step-closed (requests key reason) id m n h = requests-closed reason id key m h
step-closed (cancels key) id m n h = request-closed explicit_cancel id key m _ refl h
step-closed (returns key result) id m n h = finish-closed result id key m h
step-closed shuts_down id m n h = h
step-closed (evicts key) id m n h = evict-closed id key m h

-- None of the calls registers an execution with this ID.
unfoldable pub makes_none : String → List Call → Bool
makes_none id [] = true
makes_none id (c ∷ l) = not (makes id c) && makes_none id l

negated : (b : Bool) → not b ≡ true → b ≡ false
negated true h = ground arith
negated false h = refl

run-closed :
    (l : List Call) (id : String) (m : Manager)
    → makes_none id l ≡ true
    → is_closed (lookup id m.executions) ≡ true
    → is_closed (lookup id (run m l).executions) ≡ true
unfolding run makes_none
run-closed [] id m n h = h
run-closed (c ∷ l) id m n h =
    let (first, rest) = and_split _ _ n in
    run-closed l id (step c m) rest (step-closed c id m (negated _ first) h)

completed-closed :
    (id : String) (at : ℤ) (m n : Manager) (found : Option ManagedExecution)
    → lookup id m.executions ≡ found
    → complete_entry at id m found ≡ (n, none)
    → is_closed (lookup id n.executions) ≡ true
unfolding complete_entry
completed-closed id at m n none f h = ground arith
completed-closed id at m n (some entry) f h = ground (
  arith,
  lookup-insert id id (record entry { active = false; completed_at = at; terminal_done = true })
      m.executions,
  eq_iff id id,
)

complete_again :
    (id : String) (later : ℤ) (m : Manager) (found : Option ManagedExecution)
    → is_closed found ≡ true
    → complete_entry later id m found
      ≡ (m, (if is_some found then none else some execution_not_found))
unfolding complete_entry
complete_again id later m none h = refl
complete_again id later m (some entry) h = ground arith

-- When a report of completion has succeeded, and then any calls have run of which none registers an
-- execution with the same ID, a further report of that execution, with any time but the zero time,
-- changes nothing, so that the slot is given back once: it succeeds while the execution is registered,
-- and is answered by the error that the execution is not found once it has been evicted.
pub complete_once :
    (id : String) (at later : ℤ) (m n : Manager) (l : List Call)
    → complete_at id at m ≡ (n, none)
    → makes_none id l ≡ true
    → is_zero later ≡ false
    → complete_at id later (run n l) ≡ (
      run n l,
      (if is_some (lookup id (run n l).executions) then none else some execution_not_found),
    )
unfolding complete_at
complete_once id at later m n l h new z =
    let first : complete_entry at id m (lookup id m.executions) ≡ (n, none) = ground arith in
    let over =
      run-closed l id n new (completed-closed id at m n (lookup id m.executions) refl first) in
    rw z (complete_again id later (run n l) (lookup id (run n l).executions) over)
