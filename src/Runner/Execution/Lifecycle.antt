-- ===== src/Runner/Execution/Lifecycle.antt =====
-- What the state machine of internal/runner/execution_model.go allows.
use mini_sand_box.Prelude.{
  true, List, [], ◌∷◌, Option, none, is_some, ◌≡◌, ◌⊎◌, inl, inr, refl, arith, String, ℕ, suc, ◌≤◌,
  ◌<◌, is_none, if◌then◌else◌, Bool-cases,
}
use mini_sand_box.Prelude.Int.{ℤ}
use mini_sand_box.Runner.Execution.{
  ExecutionState, pending, running, exited, failed, cancelled, timed_out, TerminationReason,
  termination_none, process_exited, Execution, new_pending_execution, valid_execution_transition,
  transition, terminal_execution_state, map_execution_state, is_cancellation, is_start_failure,
  deadline_exceeded, store_code,
}

-- A call of `Transition`.
abbrev pub Call : Type 0
Call = ExecutionState × TerminationReason × Option ℤ

unfoldable pub run : Execution → List Call → Execution
run e [] = e
run e ((next, reason, code) ∷ calls) = run (transition e next reason code).0 calls

-- The fields agree with the state: no reason before the end, and then one of the reasons that the
-- state stands for; an exit code exactly in `exited`.
abbrev pub Agrees : ExecutionState → TerminationReason → Option ℤ → Type 0
Agrees pending reason code = (reason ≡ termination_none) × (code ≡ none)
Agrees running reason code = (reason ≡ termination_none) × (code ≡ none)
Agrees exited reason code = (reason ≡ process_exited) × (is_some code ≡ true)
Agrees failed reason code = (is_start_failure reason ≡ true) × (code ≡ none)
Agrees cancelled reason code = (is_cancellation reason ≡ true) × (code ≡ none)
Agrees timed_out reason code = (reason ≡ deadline_exceeded) × (code ≡ none)
Agrees (ExecutionState.other s) reason code = ⊥

unfoldable pub IsConsistent : Execution → Type 0
IsConsistent e = Agrees e.state e.termination_reason e.exit_code

step_Agrees :
    (s next : ExecutionState) (old reason : TerminationReason) (kept code : Option ℤ)
    → Agrees s old kept
    → valid_execution_transition s next reason code ≡ true
    → Agrees next reason (store_code code kept)
unfolding valid_execution_transition
step_Agrees s pending old reason kept code a h = ground arith
step_Agrees s _ old reason kept code a h = ground arith

-- Every call of `Transition`, valid or not, leaves the reason and the exit code in agreement with
-- the state; a call that fails leaves the execution as it was.
pub transition-IsConsistent :
    (e : Execution) (next : ExecutionState) (reason : TerminationReason) (code : Option ℤ)
    → IsConsistent e
    → IsConsistent (transition e next reason code).0
      × (((transition e next reason code).1 ≡ none) ⊎ ((transition e next reason code).0 ≡ e))
unfolding transition IsConsistent
transition-IsConsistent e next reason code h =
    elim (Bool-cases (valid_execution_transition e.state next reason code)) [
      | inl v ↦
          rw v (step_Agrees e.state next e.termination_reason reason e.exit_code code h v, inl refl)
      | inr v ↦ rw v (h, inr refl)
    ]

run_from-IsConsistent :
    (e : Execution) (calls : List Call) → IsConsistent e → IsConsistent (run e calls)
unfolding run
run_from-IsConsistent e [] h = h
run_from-IsConsistent e ((next, reason, code) ∷ calls) h =
    run_from-IsConsistent (transition e next reason code).0 calls
      (transition-IsConsistent e next reason code h).0

-- How many more transitions an execution can make.
abbrev rank : ExecutionState → ℕ
rank pending = 2
rank running = 1
rank _ = 0

-- How many calls succeed.
unfoldable pub accepted : Execution → List Call → ℕ
accepted e [] = 0
accepted e ((next, reason, code) ∷ calls) =
    let (e', error) = transition e next reason code in
    let rest = accepted e' calls in if is_none error then suc rest else rest

rank_falls :
    (s next : ExecutionState) (reason : TerminationReason) (code : Option ℤ)
    → valid_execution_transition s next reason code ≡ true
    → rank next < rank s
unfolding valid_execution_transition
rank_falls pending next reason code h = ground arith
rank_falls _ next reason code h = ground arith

accepted-le-rank : (e : Execution) (calls : List Call) → accepted e calls ≤ rank e.state
unfolding accepted transition
accepted-le-rank e [] = omega arith
accepted-le-rank e ((next, reason, code) ∷ calls) = ground (
  arith,
  rank_falls e.state next reason code,
  accepted-le-rank (transition e next reason code).0 calls,
)

-- Whatever the callers ask for, in whatever order: a new execution makes at most two transitions,
-- and at the end its reason and exit code agree with its state.
pub new-run :
    (id : String) (created_at : ℤ) (calls : List Call)
    → (accepted (new_pending_execution id created_at) calls ≤ 2)
      × IsConsistent (run (new_pending_execution id created_at) calls)
unfolding new_pending_execution
new-run id created_at calls = (
  accepted-le-rank (new_pending_execution id created_at) calls,
  run_from-IsConsistent (new_pending_execution id created_at) calls
      (unfold IsConsistent in (refl, refl)),
)

pub transition_stays :
    (e : Execution) (next : ExecutionState) (reason : TerminationReason) (code : Option ℤ)
    → terminal_execution_state e.state ≡ true
    → (transition e next reason code).0 ≡ e
unfolding transition valid_execution_transition
transition_stays e next reason code h = ground arith

-- A terminal state is final: no list of calls changes the execution.
pub terminal_absorbs :
    (e : Execution) (calls : List Call) → terminal_execution_state e.state ≡ true → run e calls ≡ e
unfolding run
terminal_absorbs e [] h = refl
terminal_absorbs e ((next, reason, code) ∷ calls) h =
    rw (transition_stays e next reason code h) (terminal_absorbs e calls h)

-- The wire states name exactly the six states, and tell them apart.
pub map_execution_state_faithful :
    (a b : ExecutionState)
    → is_some (map_execution_state a) ≡ true
    → map_execution_state a ≡ map_execution_state b
    → a ≡ b
unfolding map_execution_state
map_execution_state_faithful pending b h e = ground arith
map_execution_state_faithful _ b h e = ground arith
