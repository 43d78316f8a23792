-- ===== src/Reconcile/Reconciler/Terminated.antt =====
-- internal/reconcile/reconciler.go: the way to `Terminated`, the lease projection and what is left of
-- an earlier retry.
use mini_sand_box.Prelude.{
  false, not, ◌&&◌, ◌||◌, String, Option, none, some, ok, is_none, ◌==◌, if◌then◌else◌,
}
use mini_sand_box.Prelude.Int.{ℤ}
use mini_sand_box.Domain.States.{
  SandboxState, is_state, is_desired, desired_running, running, terminated, stopping,
}
use mini_sand_box.Domain.Reasons.{SandboxReason, deleting_runtime, reason_terminated}
use mini_sand_box.Domain.Sandboxes.{Sandbox}
use mini_sand_box.Reconcile.Retry.{delete, classify_retry_error}
use mini_sand_box.Runtime.{
  Failure, entry, RuntimeError, retry_facts, cleanup_pending_failure, corrupt_error,
}
use mini_sand_box.Store.Lifecycle.{RetryResetUpdate, update_observed}
use mini_sand_box.Store.Lifecycle.Updates.{reset_retry}
use mini_sand_box.Reconcile.Reconciler.{
  Environment, Setup, shut_down, projected, of_wait, Act, done, fail, ◌>>=◌, ◌>>◌, note, silent,
  ask, clock, write, Operation, waited, answered,
}
use mini_sand_box.Reconcile.Reconciler.Failures.{observed_update, record_failure, delete_runtime}

abbrev pub reset_update : Sandbox → SandboxState → Failure → String → ℤ → RetryResetUpdate
reset_update s state text runtime_id now = record {
  observed = observed_update s state text runtime_id;
  reconciled_at = now;
}

-- A reason with its message, for a state that is no failure.
abbrev pub state_text : SandboxReason → String → Failure
state_text reason message = entry reason message false

abbrev pub terminated_text : Failure
terminated_text = state_text reason_terminated "Sandbox runtime has been deleted."

abbrev pub deleting_text : Failure
deleting_text = state_text deleting_runtime "Deleting sandbox runtime."

module _ (env : Environment) (setup : Setup) where
  -- `UpdateObserved` with the state `state`, over the snapshot `s`.
  unfoldable pub mark : Sandbox → SandboxState → Failure → String → Act Sandbox
  unfolding clock update_observed
  mark s state text runtime_id = do
    now ← clock env
    write env s (update_observed now (observed_update s state text runtime_id))

  -- `ResetRetry` with the state `state`, over the snapshot `s`.
  unfoldable pub settle : Sandbox → SandboxState → Failure → String → Act Sandbox
  unfolding clock reset_retry
  settle s state text runtime_id = do
    now ← clock env
    write env s (reset_retry (reset_update s state text runtime_id now))

  unfoldable pub reset_settled_retry : Sandbox → SandboxState → Failure → String → Act Unit
  unfolding settle
  reset_settled_retry s state text runtime_id =
      if s.retry_attempt == 0 && is_none s.next_reconcile_at
      then done tt
      else do row ← settle s state text runtime_id; done tt

  -- The runner is asked to end; its answer is not read.
  unfoldable pub shutdown_runner : Act Unit
  shutdown_runner w = if setup.has_shutdown then (note shut_down w, ok tt) else (w, ok tt)

  -- `none` is no error. A record without its lease is corrupt.
  unfoldable pub project_lease : Sandbox → Act (Option RuntimeError)
  unfolding ask
  project_lease s =
      if not setup.has_projector
        || not (is_desired s.desired_state desired_running)
        || not (is_state s.observed_state running)
      then done none
      else if is_none s.expires_at || s.revision == 0
      then done (some corrupt_error)
      else ask env.write_lease (λ e. projected (silent e))

  unfoldable pub commit_terminated : Sandbox → Act Unit
  unfolding settle
  commit_terminated s = do row ← settle s terminated terminated_text ""; done tt

  -- A runtime that is not there any more is deleted.
  unfoldable pub after_delete : Sandbox → Operation (Option RuntimeError) → Act Unit
  unfolding commit_terminated record_failure classify_retry_error retry_facts
  after_delete s (waited e) = fail (of_wait e)
  after_delete s (answered none) = commit_terminated s
  after_delete s (answered (some e)) =
      if (classify_retry_error delete (some (retry_facts e))).successful
      then commit_terminated s
      else record_failure env setup s (cleanup_pending_failure e) s.runtime_id delete

  unfoldable pub reconcile_terminated : Sandbox → Act Unit
  unfolding reset_settled_retry mark shutdown_runner delete_runtime after_delete
  reconcile_terminated s =
      if is_state s.observed_state terminated
      then reset_settled_retry s terminated terminated_text ""
      else do
        row ← mark s stopping deleting_text s.runtime_id
        shutdown_runner
        answer ← delete_runtime env setup
        after_delete row answer
