-- ===== src/Store/Lifecycle/Written.antt =====
-- What an update of internal/store/sqlite/store.go has found and written when it succeeds.
use mini_sand_box.Prelude.{
  ℕ, ◌≡◌, refl, ◌∙◌, ap, Bool, true, false, not, ◌&&◌, ◌||◌, String, Option, none, some, ok, err,
  ◌==◌, ==_iff, if◌then◌else◌, and_split, Bool-cases, inl, inr, arith,
}
use mini_sand_box.Prelude.Int.{ℤ, lt}
use mini_sand_box.Prelude.Maps.{lookup, insert}
use mini_sand_box.Protocol.Events.{is_zero}
use mini_sand_box.Domain.States.{SandboxState, stopping}
use mini_sand_box.Domain.Sandboxes.{Sandbox}
use mini_sand_box.Store.Lifecycle.{
  Table, StoreError, not_found, conflict, invalid, known, zero_time, Answer, bumped, mutate,
  mutate_row, ObservedUpdate, ExpireIntentUpdate, RetryUpdate, RetryResetUpdate, update_observed,
  observe,
}
use mini_sand_box.Store.Lifecycle.Updates.{
  expire_intent, schedule_retry, reset_retry, expirable, expired_row, retriable, retried_row,
  resettable, reset_row,
}

-- What an update that succeeds has found and written.
abbrev pub Mutated : (Sandbox → Sandbox) → ℕ → String → Table → Table → Sandbox → Type 0
Mutated change expected id s t row =
    (old : Sandbox) × (lookup id s ≡ some old)
    × (old.revision ≡ expected)
    × (row ≡ bumped change old)
    × (t ≡ insert id row s)

mutate_row-Mutated :
    (missing : StoreError) (condition : Sandbox → Bool) (change : Sandbox → Sandbox) (expected : ℕ)
    (id : String) (s t : Table) (row : Sandbox) (found : Option Sandbox)
    → lookup id s ≡ found
    → mutate_row missing condition change expected id s found ≡ (t, ok row)
    → Mutated change expected id s t row
unfolding mutate_row
mutate_row-Mutated missing condition change expected id s t row none f h = ground arith
mutate_row-Mutated missing condition change expected id s t row (some old) f h =
    elim (Bool-cases (old.revision == expected && condition old)) [
      | inl e ↦
          let done = rw e at h in
          let (same, checked) = and_split (old.revision == expected) (condition old) e in
          (old, f, (==_iff _ _).0 same, ground arith, ground arith)
      | inr e ↦ ground arith
    ]

pub mutate-Mutated :
    (missing : StoreError) (condition : Sandbox → Bool) (change : Sandbox → Sandbox) (expected : ℕ)
    (id : String) (s t : Table) (row : Sandbox)
    → mutate missing condition change expected id s ≡ (t, ok row)
    → Mutated change expected id s t row
unfolding mutate
mutate-Mutated missing condition change expected id s t row h =
    mutate_row-Mutated missing condition change expected id s t row (lookup id s) refl h

-- An answer without an error is that of the part behind the checks.
pub unrefused :
    (refuses : Bool) (t u : Table) (e : StoreError) (row : Sandbox) (answer : Answer)
    → (if refuses then (t, err e) else answer) ≡ (u, ok row)
    → answer ≡ (u, ok row)
unrefused true t u e row answer h = ground arith
unrefused false t u e row answer h = h

Mutated-state :
    (change : Sandbox → Sandbox) (state : SandboxState) (expected : ℕ) (id : String) (s t : Table)
    (row : Sandbox)
    → ((old : Sandbox) → (change old).observed_state ≡ state)
    → Mutated change expected id s t row
    → row.observed_state ≡ state
Mutated-state change state expected id s t row keeps (old, found, revision, wrote, table) =
    ap (λ r. r.observed_state) wrote ∙ keeps old

pub update_observed-state :
    (now : ℤ) (u : ObservedUpdate) (s t : Table) (row : Sandbox)
    → update_observed now u s ≡ (t, ok row)
    → row.observed_state ≡ u.state
unfolding update_observed observe
update_observed-state now u s t row h =
    Mutated-state (observe now u) u.state u.expected_revision u.id s t row (λ old. refl)
      (mutate-Mutated conflict (λ r. true) (observe now u) u.expected_revision u.id s t row
        (unrefused (not (known u.state) || zero_time u.reconcile_at) s t invalid row _ h))

pub reset_retry-state :
    (u : RetryResetUpdate) (s t : Table) (row : Sandbox)
    → reset_retry u s ≡ (t, ok row)
    → row.observed_state ≡ u.observed.state
unfolding reset_retry
reset_retry-state u s t row h =
    Mutated-state (reset_row u) u.observed.state u.observed.expected_revision u.observed.id s t row
      (λ old. refl)
      (mutate-Mutated not_found (resettable u) (reset_row u) u.observed.expected_revision
        u.observed.id s t row
        (unrefused (is_zero u.reconciled_at || not (known u.observed.state)) s t invalid row _ h))

pub schedule_retry-state :
    (u : RetryUpdate) (s t : Table) (row : Sandbox)
    → schedule_retry u s ≡ (t, ok row)
    → row.observed_state ≡ SandboxState.failed
unfolding schedule_retry
schedule_retry-state u s t row h =
    Mutated-state (retried_row u) SandboxState.failed u.expected_revision u.id s t row (λ old. refl)
      (mutate-Mutated not_found (retriable u) (retried_row u) u.expected_revision u.id s t row (
        unrefused
          (is_zero u.attempted_at
            || is_zero u.next_reconcile_at
            || not (lt u.attempted_at u.next_reconcile_at)
            || not u.has_reason)
          s t invalid row _ h))

pub expire_intent-state :
    (behind : ℤ → ℤ → Bool) (u : ExpireIntentUpdate) (s t : Table) (row : Sandbox)
    → expire_intent behind u s ≡ (t, ok row)
    → row.observed_state ≡ stopping
unfolding expire_intent
expire_intent-state behind u s t row h =
    Mutated-state (expired_row u) stopping u.expected_revision u.id s t row (λ old. refl)
      (mutate-Mutated not_found (expirable behind u) (expired_row u) u.expected_revision u.id s t
        row
        (unrefused
          (is_zero u.now || is_zero u.expected_expires_at || lt u.now u.expected_expires_at) s t
          invalid row _ h))
