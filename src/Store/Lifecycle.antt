-- ===== src/Store/Lifecycle.antt =====
-- internal/store/sqlite/store.go: the compare-and-swap updates of a sandbox record.
--
-- The table is an association list by ID, and a statement with its transaction is one function: a
-- transaction that the database fails is rolled back (`transact`). Times are stored as texts, and
-- SQL compares the texts: `behind a b` is the test that the text of `a` is behind that of `b`, and is
-- a parameter, as is the clock.
use mini_sand_box.Prelude.{
  ℕ, ◌+◌, ◌≡◌, Bool, true, false, not, ◌&&◌, ◌||◌, String, List, [], ◌∷◌, Option, none, some,
  Result, ok, err, ◌==◌, ltb, if◌then◌else◌,
}
use mini_sand_box.Prelude.Int.{ℤ, lt, eq}
use mini_sand_box.Prelude.Maps.{lookup, insert}
use mini_sand_box.Protocol.Events.{is_zero}
use mini_sand_box.Domain.States.{
  SandboxState, DesiredState, is_state, is_desired, desired_running, desired_terminated, running,
  terminated, failed, stopping,
}
use mini_sand_box.Domain.Reasons.{SandboxReason, ttl_expired}
use mini_sand_box.Domain.Sandboxes.{Sandbox}
use mini_sand_box.Application.Renew.{RenewUpdate}
pub mod Updates
pub mod History
pub mod Written
pub mod Renewal

abbrev pub Table : Type 0
Table = List (String × Sandbox)

pub data StoreError : Type 0 where
  not_found conflict invalid limit_reached idempotency_conflict corrupt store_failed : StoreError

abbrev pub Answer : Type 0
Answer = Table × Result StoreError Sandbox

-- A transaction that the database carries out, or fails and rolls back.
unfoldable pub transact {ℓ κ} :
    {S : Type ℓ} {A : Type κ} → Bool → (S → S × Result StoreError A) → S → S × Result StoreError A
transact true f t = f t
transact false f t = (t, err store_failed)

unfoldable pub get : String → Table → Result StoreError Sandbox
get id t = elim (lookup id t) [ none ↦ err not_found | some row ↦ ok row ]

-- The row that an `UPDATE … SET revision = revision + 1, …` writes.
abbrev pub bumped : (Sandbox → Sandbox) → Sandbox → Sandbox
bumped change row = record (change row) { id = row.id; revision = row.revision + 1 }

-- The statement with `WHERE id = ? AND revision = ? AND condition` on the row of the ID, and the
-- answer of `completeSandboxMutation`; `missing` is the answer where there is no row.
unfoldable pub mutate_row :
    StoreError
    → (Sandbox → Bool)
    → (Sandbox → Sandbox)
    → ℕ
    → String
    → Table
    → Option Sandbox
    → Answer
mutate_row missing condition change expected id t none = (t, err missing)
mutate_row missing condition change expected id t (some row) =
    if row.revision == expected && condition row
    then (insert id (bumped change row) t, ok (bumped change row))
    else (t, err conflict)

unfoldable pub mutate :
    StoreError → (Sandbox → Bool) → (Sandbox → Sandbox) → ℕ → String → Table → Answer
unfolding mutate_row
mutate missing condition change expected id t =
    mutate_row missing condition change expected id t (lookup id t)

-- `last_transition_at = CASE WHEN observed_state <> ? THEN ? ELSE last_transition_at END`.
abbrev pub transitioned : SandboxState → ℤ → Sandbox → ℤ
transitioned state now row =
    if is_state row.observed_state state then row.last_transition_at else now

pub record ObservedUpdate : Type 0 where
  pub id : String
  pub expected_revision : ℕ
  pub state : SandboxState
  pub reason : SandboxReason
  pub message : String
  pub runtime_id : String
  pub reconcile_at : Option ℤ

pub record ExpireIntentUpdate : Type 0 where
  pub id : String
  pub expected_revision : ℕ
  pub expected_expires_at : ℤ
  pub now : ℤ

-- `has_reason` is the test that the reason is not blank.
pub record RetryUpdate : Type 0 where
  pub id : String
  pub expected_revision : ℕ
  pub attempted_at : ℤ
  pub next_reconcile_at : ℤ
  pub reason : SandboxReason
  pub has_reason : Bool
  pub message : String
  pub runtime_id : String

pub record RetryResetUpdate : Type 0 where
  pub observed : ObservedUpdate
  pub reconciled_at : ℤ

pub record HealthResultUpdate : Type 0 where
  pub id : String
  pub expected_revision : ℕ
  pub checked_at : ℤ
  pub healthy : Bool

-- `parseObservedState` accepts the six states.
abbrev pub known : SandboxState → Bool
known (SandboxState.other text) = false
known _ = true

abbrev pub zero_time : Option ℤ → Bool
zero_time none = false
zero_time (some t) = is_zero t

abbrev pub or_else : Option ℤ → Option ℤ → Option ℤ
or_else (some t) old = some t
or_else none old = old

unfoldable pub observe : ℤ → ObservedUpdate → Sandbox → Sandbox
observe now u row = record row {
  observed_state = u.state;
  reason = u.reason;
  message = u.message;
  runtime_id = u.runtime_id;
  next_reconcile_at = or_else u.reconcile_at row.next_reconcile_at;
  updated_at = now;
  last_transition_at = transitioned u.state now row;
}

-- A row that is not there is a conflict here.
unfoldable pub update_observed : ℤ → ObservedUpdate → Table → Answer
unfolding mutate observe
update_observed now u t =
    if not (known u.state) || zero_time u.reconcile_at
    then (t, err invalid)
    else mutate conflict (λ row. true) (observe now u) u.expected_revision u.id t
