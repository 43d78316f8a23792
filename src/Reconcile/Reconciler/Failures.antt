-- ===== src/Reconcile/Reconciler/Failures.antt =====
-- internal/reconcile/reconciler.go: the failure paths `recordFailure`, `deleteRuntime` and
-- `failRunning`.
use mini_sand_box.Prelude.{
  Bool, true, false, not, String, Option, none, some, Result, ok, err, is_empty, if◌then◌else◌,
}
use mini_sand_box.Prelude.Int.{ℤ, ◌+ℤ◌}
use mini_sand_box.Domain.States.{SandboxState}
use mini_sand_box.Domain.Reasons.{reason_text}
use mini_sand_box.Domain.Sandboxes.{Sandbox}
use mini_sand_box.Reconcile.Backoff.{BackoffError, full_jitter_backoff}
use mini_sand_box.Reconcile.Retry.{
  RetryOperation, cleanup, RetryErrorClass, shutdown, RetryDecision, RetryAction, retry_at,
  do_not_retry, immediate_reread, no_action, PolicyError, RetryClassification, decide_retry,
  classify_retry_error,
}
use mini_sand_box.Runtime.{
  Failure, RuntimeError, classify_error, retry_facts, cleanup_pending_failure, join_errors,
}
use mini_sand_box.Store.Lifecycle.{
  StoreError, conflict, ObservedUpdate, RetryUpdate, update_observed,
}
use mini_sand_box.Store.Lifecycle.Updates.{schedule_retry}
use mini_sand_box.Reconcile.Reconciler.{
  Environment, Setup, wrote, deleted, of_store, of_runtime, of_wait, of_policy, of_backoff, joined,
  Act, fail, ◌>>=◌, try_write, try_read, clock, Operation, waited, answered, operate, place,
}

abbrev pub is_shutdown : RetryErrorClass → Bool
is_shutdown shutdown = true
is_shutdown _ = false

abbrev pub observed_update : Sandbox → SandboxState → Failure → String → ObservedUpdate
observed_update s state failure runtime_id = record {
  id = s.id;
  expected_revision = s.revision;
  state = state;
  reason = failure.reason;
  message = failure.message;
  runtime_id = runtime_id;
  reconcile_at = none;
}

abbrev pub retry_update : Sandbox → ℤ → ℤ → Failure → String → RetryUpdate
retry_update s attempted_at delay failure runtime_id = record {
  id = s.id;
  expected_revision = s.revision;
  attempted_at = attempted_at;
  next_reconcile_at = attempted_at +ℤ delay;
  reason = failure.reason;
  has_reason = not (is_empty (reason_text failure.reason));
  message = failure.message;
  runtime_id = runtime_id;
}

-- The error that is recorded once the resources are gone: the one that caused the failure, where
-- the error says which one that was.
abbrev pub cause_of : RuntimeError → Option RuntimeError → RuntimeError
cause_of e (some cause) = cause
cause_of e none = e

module _ (env : Environment) (setup : Setup) where
  -- The answer to `ScheduleRetry`; after a conflict the record is read once more.
  unfoldable pub after_schedule : Sandbox → RuntimeError → Result StoreError Sandbox → Act Unit
  unfolding try_read
  after_schedule s e (ok row) = fail (of_runtime e)
  after_schedule s e (err conflict) = do
    again ← try_read env s.id
    fail (joined (of_runtime e) (of_store conflict))
  after_schedule s e (err failed) = fail (joined (of_runtime e) (of_store failed))

  unfoldable pub schedule : Sandbox → RuntimeError → String → Result BackoffError ℤ → Act Unit
  unfolding try_write clock schedule_retry after_schedule classify_error reason_text
  schedule s e runtime_id (err b) = fail (joined (of_runtime e) (of_backoff b))
  schedule s e runtime_id (ok delay) = do
    attempted_at ← clock env
    answer ←
        try_write env (λ row. wrote s row.observed_state)
          (schedule_retry (retry_update s attempted_at delay (classify_error e) runtime_id))
    after_schedule s e answer

  unfoldable pub after_record : RuntimeError → Result StoreError Sandbox → Act Unit
  after_record e (ok row) = fail (of_runtime e)
  after_record e (err failed) = fail (joined (of_runtime e) (of_store failed))

  -- The state `Failed`, unless the error is a shutdown.
  unfoldable pub record_unretried : Sandbox → RuntimeError → String → RetryClassification → Act Unit
  unfolding try_write clock update_observed after_record classify_error
  record_unretried s e runtime_id c = if is_shutdown c.error_class then fail (of_runtime e) else do
    now ← clock env
    answer ←
        try_write env (λ row. wrote s row.observed_state)
          (update_observed now
            (observed_update s SandboxState.failed (classify_error e) runtime_id))
    after_record e answer

  unfoldable pub follow_action :
      Sandbox → RuntimeError → String → RetryClassification → RetryAction → Act Unit
  unfolding schedule record_unretried full_jitter_backoff try_read
  follow_action s e runtime_id c retry_at = do
    n ← place
    schedule s e runtime_id
        (full_jitter_backoff s.retry_attempt setup.retry_min setup.retry_max (env.random n))
  follow_action s e runtime_id c immediate_reread = do
    again ← try_read env s.id
    fail (of_runtime e)
  follow_action s e runtime_id c do_not_retry = record_unretried s e runtime_id c
  follow_action s e runtime_id c no_action = record_unretried s e runtime_id c

  unfoldable pub follow_decision :
      Sandbox
      → RuntimeError
      → String
      → RetryClassification
      → Result PolicyError RetryDecision
      → Act Unit
  unfolding follow_action
  follow_decision s e runtime_id c (err p) = fail (joined (of_runtime e) (of_policy p))
  follow_decision s e runtime_id c (ok d) = follow_action s e runtime_id c d.action

  unfoldable pub record_failure : Sandbox → RuntimeError → String → RetryOperation → Act Unit
  unfolding follow_decision classify_retry_error decide_retry retry_facts
  record_failure s e runtime_id operation =
      let c = classify_retry_error operation (some (retry_facts e)) in
      follow_decision s e runtime_id c (decide_retry operation c.error_class)

  unfoldable pub delete_runtime : Act (Operation (Option RuntimeError))
  unfolding operate
  delete_runtime = operate env env.delete deleted

  -- The removal answered `failure`.
  unfoldable pub after_cleanup :
      Sandbox
      → RuntimeError
      → Option RuntimeError
      → RetryOperation
      → Operation (Option RuntimeError)
      → Act Unit
  unfolding record_failure classify_retry_error retry_facts join_errors
  after_cleanup s e cause operation (waited w) = fail (joined (of_runtime e) (of_wait w))
  after_cleanup s e cause operation (answered none) =
      record_failure s (cause_of e cause) "" operation
  after_cleanup s e cause operation (answered (some failure)) =
      if not (classify_retry_error cleanup (some (retry_facts failure))).successful
      then record_failure s (cleanup_pending_failure (join_errors e failure)) s.runtime_id cleanup
      else record_failure s (cause_of e cause) "" operation

  unfoldable pub fail_running :
      Sandbox → RuntimeError → Option RuntimeError → RetryOperation → Act Unit
  unfolding delete_runtime after_cleanup
  fail_running s e cause operation = do
    answer ← delete_runtime
    after_cleanup s e cause operation answer
