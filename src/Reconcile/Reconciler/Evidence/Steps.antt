-- ===== src/Reconcile/Reconciler/Evidence/Steps.antt =====
-- The failure paths of internal/reconcile/reconciler.go keep a justified trace.
use mini_sand_box.Prelude.{
  ◌≡◌, refl, Bool, true, not, ◌||◌, String, List, ◌∷◌, Option, none, some, Result, ok, err, arith,
}
use mini_sand_box.Prelude.Int.{ℤ}
use mini_sand_box.Domain.States.{SandboxState}
use mini_sand_box.Domain.Sandboxes.{Sandbox}
use mini_sand_box.Reconcile.Backoff.{BackoffError}
use mini_sand_box.Reconcile.Retry.{
  RetryOperation, cleanup, RetryAction, retry_at, do_not_retry, immediate_reread, no_action,
  RetryDecision, PolicyError, RetryClassification, decide_retry, classify_retry_error,
}
use mini_sand_box.Runtime.{
  Failure, RuntimeError, classify_error, retry_facts, cleanup_pending_failure, join_errors,
}
use mini_sand_box.Store.Lifecycle.{StoreError, conflict, update_observed}
use mini_sand_box.Store.Lifecycle.Updates.{schedule_retry}
use mini_sand_box.Store.Lifecycle.History.{
  Follows, Follows-refl, update_observed-Follows, reset_retry-Follows, schedule_retry-Follows,
}
use mini_sand_box.Store.Lifecycle.Written.{
  update_observed-state, reset_retry-state, schedule_retry-state,
}
use mini_sand_box.Reconcile.Reconciler.{
  Environment, Setup, Event, wrote, deleted, World, of_store, of_runtime, of_wait, of_policy,
  of_backoff, joined, fail, ask, clock, place, try_write, try_read, Operation, waited, answered,
  after_wait, operate, ticked,
}
use mini_sand_box.Reconcile.Reconciler.Failures.{
  observed_update, retry_update, is_shutdown, after_schedule, schedule, after_record,
  record_unretried, follow_action, follow_decision, record_failure, delete_runtime, cause_of,
  after_cleanup, fail_running,
}
use mini_sand_box.Reconcile.Reconciler.Terminated.{mark, settle, reset_update}
use mini_sand_box.Reconcile.Reconciler.Evidence.{
  is_gone, gone, any_before, warranted, justified, Post, always, Ends, Triple, Keeps, bind-Triple,
  fail-Triple, if-Triple, place-Triple,
}
use mini_sand_box.Reconcile.Reconciler.Evidence.Calls.{
  clock-Triple, try_read-Triple, try_write-Triple, write-Triple,
}

module _ (env : Environment) (setup : Setup) where
  pub mark-Triple :
      {p : List Event → Bool} {q : Post Sandbox} (s : Sandbox) (state : SandboxState)
      (text : Failure) (runtime_id : String)
      → ((trace : List Event) → p trace ≡ true → warranted (wrote s state) trace ≡ true)
      → ((row : Sandbox) (trace : List Event)
          → p trace ≡ true
          → q row (wrote s state ∷ trace) ≡ true)
      → Triple env p (mark env setup s state text runtime_id) q
  unfolding mark
  mark-Triple {p} {q} s state text runtime_id free h =
      bind-Triple _
        (λ now.
          write-Triple env s state _
            (update_observed-Follows now (observed_update s state text runtime_id))
            (update_observed-state now (observed_update s state text runtime_id)) free h)
        (clock env) (clock-Triple env)

  pub settle-Triple :
      {p : List Event → Bool} {q : Post Sandbox} (s : Sandbox) (state : SandboxState)
      (text : Failure) (runtime_id : String)
      → ((trace : List Event) → p trace ≡ true → warranted (wrote s state) trace ≡ true)
      → ((row : Sandbox) (trace : List Event)
          → p trace ≡ true
          → q row (wrote s state ∷ trace) ≡ true)
      → Triple env p (settle env setup s state text runtime_id) q
  unfolding settle
  settle-Triple {p} {q} s state text runtime_id free h =
      bind-Triple _
        (λ now.
          write-Triple env s state _
            (reset_retry-Follows (reset_update s state text runtime_id now))
            (reset_retry-state (reset_update s state text runtime_id now)) free h)
        (clock env) (clock-Triple env)

  after_schedule-Keeps :
      (s : Sandbox) (e : RuntimeError) (answer : Result StoreError Sandbox)
      → Keeps env (after_schedule env setup s e answer)
  unfolding after_schedule
  after_schedule-Keeps s e (ok row) = fail-Triple (of_runtime e)
  after_schedule-Keeps s e (err conflict) =
      bind-Triple _ (λ again. fail-Triple (joined (of_runtime e) (of_store conflict)))
        (try_read env s.id) (try_read-Triple env s.id)
  after_schedule-Keeps s e (err f) = fail-Triple (joined (of_runtime e) (of_store f))

  schedule-Keeps :
      (s : Sandbox) (e : RuntimeError) (runtime_id : String) (delay : Result BackoffError ℤ)
      → Keeps env (schedule env setup s e runtime_id delay)
  unfolding schedule
  schedule-Keeps s e runtime_id (err b) = fail-Triple (joined (of_runtime e) (of_backoff b))
  schedule-Keeps s e runtime_id (ok delay) =
      bind-Triple _
        (λ now.
          bind-Triple _ (after_schedule-Keeps s e)
            (try_write env (λ row. wrote s row.observed_state)
              (schedule_retry (retry_update s now delay (classify_error e) runtime_id)))
            (try_write-Triple env _ _
              (schedule_retry-Follows (retry_update s now delay (classify_error e) runtime_id))
              (λ t u row h trace g. (
                rw
                    (schedule_retry-state (retry_update s now delay (classify_error e) runtime_id) t
                      u row h)
                    refl,
                refl,
              ))
              (λ f trace g. refl)))
        (clock env) (clock-Triple env)

  after_record-Keeps :
      (e : RuntimeError) (answer : Result StoreError Sandbox)
      → Keeps env (after_record env setup e answer)
  unfolding after_record
  after_record-Keeps e (ok row) = fail-Triple (of_runtime e)
  after_record-Keeps e (err f) = fail-Triple (joined (of_runtime e) (of_store f))

  record_unretried-Keeps :
      (s : Sandbox) (e : RuntimeError) (runtime_id : String) (c : RetryClassification)
      → Keeps env (record_unretried env setup s e runtime_id c)
  unfolding record_unretried
  record_unretried-Keeps s e runtime_id c =
      if-Triple (is_shutdown c.error_class) (fail (of_runtime e)) _ (fail-Triple (of_runtime e)) (
        bind-Triple _
          (λ now.
            bind-Triple _ (after_record-Keeps e)
              (try_write env (λ row. wrote s row.observed_state)
                (update_observed now
                  (observed_update s SandboxState.failed (classify_error e) runtime_id)))
              (try_write-Triple env _ _
                (update_observed-Follows now
                  (observed_update s SandboxState.failed (classify_error e) runtime_id))
                (λ t u row h trace g. (
                  rw
                      (update_observed-state now
                        (observed_update s SandboxState.failed (classify_error e) runtime_id) t u
                        row h)
                      refl,
                  refl,
                ))
                (λ f trace g. refl)))
          (clock env) (clock-Triple env))

  follow_action-Keeps :
      (s : Sandbox) (e : RuntimeError) (runtime_id : String) (c : RetryClassification)
      (action : RetryAction)
      → Keeps env (follow_action env setup s e runtime_id c action)
  unfolding follow_action
  follow_action-Keeps s e runtime_id c retry_at =
      bind-Triple _ (λ n. schedule-Keeps s e runtime_id _) place place-Triple
  follow_action-Keeps s e runtime_id c immediate_reread =
      bind-Triple _ (λ again. fail-Triple (of_runtime e)) (try_read env s.id)
        (try_read-Triple env s.id)
  follow_action-Keeps s e runtime_id c do_not_retry = record_unretried-Keeps s e runtime_id c
  follow_action-Keeps s e runtime_id c no_action = record_unretried-Keeps s e runtime_id c

  follow_decision-Keeps :
      (s : Sandbox) (e : RuntimeError) (runtime_id : String) (c : RetryClassification)
      (d : Result PolicyError RetryDecision)
      → Keeps env (follow_decision env setup s e runtime_id c d)
  unfolding follow_decision
  follow_decision-Keeps s e runtime_id c (ok d) = follow_action-Keeps s e runtime_id c d.action
  follow_decision-Keeps s e runtime_id c (err f) = fail-Triple (joined (of_runtime e) (of_policy f))

  pub record_failure-Keeps :
      (s : Sandbox) (e : RuntimeError) (runtime_id : String) (operation : RetryOperation)
      → Keeps env (record_failure env setup s e runtime_id operation)
  unfolding record_failure
  record_failure-Keeps s e runtime_id operation =
      let c = classify_retry_error operation (some (retry_facts e)) in
      follow_decision-Keeps s e runtime_id c (decide_retry operation c.error_class)

  -- The answer of a removal says whether the container is gone.
  abbrev pub after_removal : Post (Operation (Option RuntimeError))
  after_removal (waited e) trace = true
  after_removal (answered answer) trace = not (is_gone answer) || gone trace

  pub delete_runtime-Triple : Triple env always (delete_runtime env setup) after_removal
  unfolding delete_runtime operate after_wait ask
  delete_runtime-Triple = record {
    justifies = λ w j g. removal_justifies (env.wait w.step) w j;
    ends = λ w j g. removal_ends (env.wait w.step) w;
    follows = λ o w. removal_follows (env.wait w.step) w;
  }
    where
      removal_justifies :
          (wait : Option RuntimeError) (w : World)
          → justified w.trace ≡ true
          → justified (after_wait env.delete deleted wait (ticked w)).0.trace ≡ true
      removal_justifies (some e) w j = j
      removal_justifies none w j = j

      removal_follows :
          (wait : Option RuntimeError) (w : World)
          → Follows w.table (after_wait env.delete deleted wait (ticked w)).0.table
      removal_follows (some e) w = Follows-refl w.table
      removal_follows none w = Follows-refl w.table

      removal_ends :
          (wait : Option RuntimeError) (w : World)
          → Ends after_removal (after_wait env.delete deleted wait (ticked w))
      removal_ends (some e) w = refl
      removal_ends none w = ground arith

  after_cleanup-Keeps :
      (s : Sandbox) (e : RuntimeError) (cause : Option RuntimeError) (operation : RetryOperation)
      (answer : Operation (Option RuntimeError))
      → Keeps env (after_cleanup env setup s e cause operation answer)
  unfolding after_cleanup
  after_cleanup-Keeps s e cause operation (waited w) =
      fail-Triple (joined (of_runtime e) (of_wait w))
  after_cleanup-Keeps s e cause operation (answered none) =
      record_failure-Keeps s (cause_of e cause) "" operation
  after_cleanup-Keeps s e cause operation (answered (some f)) =
      if-Triple (not (classify_retry_error cleanup (some (retry_facts f))).successful) _ _
        (record_failure-Keeps s (cleanup_pending_failure (join_errors e f)) s.runtime_id cleanup)
        (record_failure-Keeps s (cause_of e cause) "" operation)

  pub fail_running-Keeps :
      (s : Sandbox) (e : RuntimeError) (cause : Option RuntimeError) (operation : RetryOperation)
      → Keeps env (fail_running env setup s e cause operation)
  unfolding fail_running
  fail_running-Keeps s e cause operation =
      bind-Triple _ (λ answer. any_before _ (after_cleanup-Keeps s e cause operation answer))
        (delete_runtime env setup) delete_runtime-Triple
