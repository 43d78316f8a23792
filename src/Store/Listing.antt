-- ===== src/Store/Listing.antt =====
-- internal/store/sqlite/store.go: the pages of the records that are due, in the order of their IDs.
--
-- `behind` is SQL's comparison of the texts of two times. The rows are given in the order of their
-- IDs, the primary key, which SQL and Go compare by their bytes.
use mini_sand_box.Prelude.{
  ℕ, Bool, true, false, not, ◌&&◌, ◌||◌, String, List, [], ◌∷◌, Option, none, some, Result, ok, err,
  is_some, take, ==_iff, ◌==◌, ltb, if◌then◌else◌,
}
use mini_sand_box.Prelude.Int.{ℤ, pos_part}
use Prim.Native.Nat.{Ordering}
use Prim.Native.String.{compare}
use mini_sand_box.Protocol.Events.{is_zero}
use mini_sand_box.Domain.States.{
  SandboxState, is_state, is_desired, desired_running, desired_terminated, pending, creating,
  running, stopping, terminated,
}
use mini_sand_box.Domain.Reasons.{SandboxReason, cleanup_pending}
use mini_sand_box.Domain.Sandboxes.{Sandbox}
use mini_sand_box.Store.Lifecycle.{StoreError, invalid}
pub mod Order

-- `limit` is the limit where it is positive, and 0 where it is not.
pub record ReconcileCandidateQuery : Type 0 where
  pub now : ℤ
  pub running_cutoff : ℤ
  pub after_id : String
  pub limit : ℕ

abbrev pub is_before : Ordering → Bool
is_before Ordering.lt = true
is_before _ = false

-- The first text is before the second one.
unfoldable pub below : String → String → Bool
below a b = is_before (compare a b)

abbrev pub is_cleanup_pending : SandboxReason → Bool
is_cleanup_pending cleanup_pending = true
is_cleanup_pending _ = false

-- `t <= bound` in SQL, which a NULL does not satisfy.
abbrev pub reached : (ℤ → ℤ → Bool) → ℤ → Option ℤ → Bool
reached behind bound none = false
reached behind bound (some t) = not (behind t bound)

-- `behind a b` is `a > b`, so that a NULL or a time up to the bound is open.
abbrev pub open_at : (ℤ → ℤ → Bool) → ℤ → Option ℤ → Bool
open_at behind bound none = true
open_at behind bound (some t) = not (behind t bound)

abbrev pub expiry_due : (ℤ → ℤ → Bool) → ℤ → Sandbox → Bool
expiry_due behind now row =
    is_desired row.desired_state desired_running
    && not (is_state row.observed_state terminated)
    && reached behind now row.expires_at

-- A transition, an unfinished end, a removal or a retry that is left, or a check of a running one.
abbrev pub work_due : (ℤ → ℤ → Bool) → ℤ → Sandbox → Bool
work_due behind cutoff row =
    is_state row.observed_state pending
    || is_state row.observed_state creating
    || is_state row.observed_state stopping
    || (is_desired row.desired_state desired_terminated
        && not (is_state row.observed_state terminated))
    || (is_desired row.desired_state desired_running && is_state row.observed_state terminated)
    || (is_state row.observed_state SandboxState.failed
        && (is_desired row.desired_state desired_terminated
            || is_cleanup_pending row.reason
            || is_some row.next_reconcile_at))
    || (is_desired row.desired_state desired_running
        && is_state row.observed_state running
        && open_at behind cutoff row.last_reconcile_at)

unfoldable pub due : (ℤ → ℤ → Bool) → ℤ → ℤ → Sandbox → Bool
due behind now cutoff row =
    expiry_due behind now row
    || (open_at behind now row.next_reconcile_at && work_due behind cutoff row)

unfoldable pub select {ℓ} : {A : Type ℓ} → (A → Bool) → List A → List A
select test [] = []
select test (x ∷ xs) = let rest = select test xs in if test x then x ∷ rest else rest

abbrev pub candidate : (ℤ → ℤ → Bool) → ReconcileCandidateQuery → Sandbox → Bool
candidate behind q row = below q.after_id row.id && due behind q.now q.running_cutoff row

unfoldable pub list_reconcile_candidates :
    (ℤ → ℤ → Bool) → List Sandbox → ReconcileCandidateQuery → Result StoreError (List Sandbox)
unfolding below due select
list_reconcile_candidates behind rows q =
    if is_zero q.now || is_zero q.running_cutoff || q.limit == 0
    then err invalid
    else ok (take q.limit (select (candidate behind q) rows))
