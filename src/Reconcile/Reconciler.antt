-- ===== src/Reconcile/Reconciler.antt =====
-- internal/reconcile/reconciler.go and running_recovery.go: what the reconciliation of one sandbox
-- calls, with the keyed lock held.
--
-- A call changes the world: the table, the number of calls so far and a trace of what was done. The
-- answers of the runtime, of the probes and of the clock are given for each place in the run, and so
-- is what other writers do to the table before a call of the store.
use mini_sand_box.Prelude.{
  ℕ, suc, Bool, true, false, String, List, [], ◌∷◌, Option, none, some, Result, ok, err,
}
use mini_sand_box.Prelude.Int.{ℤ}
use mini_sand_box.Domain.States.{SandboxState}
use mini_sand_box.Domain.Sandboxes.{Sandbox}
use mini_sand_box.Reconcile.Backoff.{BackoffError}
use mini_sand_box.Reconcile.Retry.{PolicyError}
use mini_sand_box.Runtime.{RuntimeError}
use mini_sand_box.Store.Lifecycle.{Table, StoreError, Answer, transact, get}
pub mod Failures
pub mod Evidence
pub mod Terminated
pub mod Recover
pub mod Running

-- The fields of `runtime.ActualSandbox` that are read.
pub record Actual : Type 0 where
  pub runtime_id : String
  pub spec_hash : String
  pub is_running : Bool

-- The second error is the one that `OperationError` of the first gives, where it has the method.
pub data EnsureAnswer : Type 0 where
  made : Actual → EnsureAnswer
  refused : RuntimeError → Option RuntimeError → EnsureAnswer

-- `wait` is the answer of the wait for an operation slot, and `none` is no error.
pub record Environment : Type 0 where
  pub commits : ℕ → Bool
  pub others : ℕ → Table → Table
  pub now : ℕ → ℤ
  pub random : ℕ → ℕ → Result BackoffError ℤ
  pub wait : ℕ → Option RuntimeError
  pub ensure : ℕ → EnsureAnswer
  pub delete : ℕ → Option RuntimeError
  pub inspect : ℕ → Result RuntimeError Actual
  pub replace : ℕ → Result RuntimeError Actual
  pub probe : ℕ → Option RuntimeError
  pub probe_network : ℕ → Option RuntimeError
  pub check_egress : ℕ → Option RuntimeError
  pub write_lease : ℕ → Option RuntimeError

-- What the reconciler was built with; `behind` is the store's comparison of two times.
pub record Setup : Type 0 where
  pub behind : ℤ → ℤ → Bool
  pub retry_min : ℤ
  pub retry_max : ℤ
  pub has_shutdown : Bool
  pub has_projector : Bool
  pub replaces_compute : Bool
  pub probes_network : Bool
  pub gates_egress : Bool

-- `wrote from to`: a write of the state `to` that is based on the snapshot `from`.
pub data Event : Type 0 where
  wrote : Sandbox → SandboxState → Event
  checked_health : Event
  ensured : Bool → Event
  replaced : Bool → Event
  probed : Bool → Event
  networked : Bool → Event
  gated : Bool → Event
  deleted : Option RuntimeError → Event
  shut_down : Event
  inspected : Bool → Event
  projected : Bool → Event

pub record World : Type 0 where
  pub table : Table
  pub trace : List Event
  pub step : ℕ

-- `of_wait` is a wait that was canceled before the operation began.
pub data ReconcileError : Type 0 where
  of_store : StoreError → ReconcileError
  of_runtime : RuntimeError → ReconcileError
  of_wait : RuntimeError → ReconcileError
  of_policy : PolicyError → ReconcileError
  of_backoff : BackoffError → ReconcileError
  joined : ReconcileError → ReconcileError → ReconcileError
  gate_unavailable invalid_desired_state : ReconcileError

abbrev pub Act : Type 0 → Type 0
Act A = World → World × Result ReconcileError A

abbrev pub done : {A : Type 0} → A → Act A
done a w = (w, ok a)

abbrev pub fail : {A : Type 0} → ReconcileError → Act A
fail e w = (w, err e)

abbrev pub and_then :
    {A B : Type 0} → (A → Act B) → World × Result ReconcileError A → World × Result ReconcileError B
and_then f (w, ok a) = f a w
and_then f (w, err e) = (w, err e)

infixl 5 ◌>>=◌ ◌>>◌
abbrev pub ◌>>=◌ : {A B : Type 0} → Act A → (A → Act B) → Act B
(m >>= f) w = and_then f (m w)

abbrev pub ◌>>◌ : {A B : Type 0} → Act A → Act B → Act B
m >> k = m >>= λ _. k

-- The place in the run.
abbrev pub place : Act ℕ
place w = (w, ok w.step)

-- The next place in the run.
abbrev pub ticked : World → World
ticked w = record w { step = suc w.step }

abbrev pub note : Event → World → World
note event w = record w { trace = event ∷ w.trace }

abbrev pub silent : {A : Type 0} → Option A → Bool
silent none = true
silent (some a) = false

abbrev pub is_made : EnsureAnswer → Bool
is_made (made actual) = true
is_made (refused e cause) = false

abbrev pub succeeded : {A E : Type 0} → Result E A → Bool
succeeded (ok a) = true
succeeded (err e) = false

-- A call outside the store, whose answer at this place is `answer`.
unfoldable pub ask : {A : Type 0} → (ℕ → A) → (A → Event) → Act A
ask answer event w = (ticked (note (event (answer w.step)) w), ok (answer w.step))

-- A write that came through is noted.
abbrev pub noted : (Sandbox → Event) → Result StoreError Sandbox → List Event → List Event
noted event (ok row) trace = event row ∷ trace
noted event (err e) trace = trace

pub data Operation (A : Type 0) : Type 0 where
  waited : RuntimeError → Operation A
  answered : A → Operation A

unfoldable pub after_wait :
    {A : Type 0} → (ℕ → A) → (A → Event) → Option RuntimeError → Act (Operation A)
unfolding ask
after_wait answer event (some e) = done (waited e)
after_wait answer event none = do a ← ask answer event; done (answered a)

module _ (env : Environment) where
  unfoldable pub clock : Act ℤ
  clock w = (ticked w, ok (env.now w.step))

  -- A call of the store that writes; its error is a value.
  unfoldable pub try_write : (Sandbox → Event) → (Table → Answer) → Act (Result StoreError Sandbox)
  unfolding transact
  try_write event f w =
      let answer = transact (env.commits w.step) f (env.others w.step w.table) in
      (
        record { table = answer.0; trace = noted event answer.1 w.trace; step = suc w.step },
        ok answer.1,
      )

  unfoldable pub try_read : String → Act (Result StoreError Sandbox)
  unfolding get
  try_read id w =
      let t = env.others w.step w.table in
      (
        record w { table = t; step = suc w.step },
        ok (elim (env.commits w.step) [ true ↦ get id t | false ↦ err StoreError.store_failed ]),
      )

  abbrev pub or_fail : Result StoreError Sandbox → Act Sandbox
  or_fail (ok row) = done row
  or_fail (err e) = fail (of_store e)

  -- A write whose error ends the run, and one of a state over a snapshot.
  abbrev pub write : Sandbox → (Table → Answer) → Act Sandbox
  write from f = do answer ← try_write (λ row. wrote from row.observed_state) f; or_fail answer

  -- The wait for a slot, then the operation, which is not begun where the wait is canceled.
  unfoldable pub operate : {A : Type 0} → (ℕ → A) → (A → Event) → Act (Operation A)
  unfolding after_wait
  operate answer event w = after_wait answer event (env.wait w.step) (ticked w)

  abbrev pub read : String → Act Sandbox
  read id = do answer ← try_read id; or_fail answer
