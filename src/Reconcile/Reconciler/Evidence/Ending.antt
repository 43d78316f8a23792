-- ===== src/Reconcile/Reconciler/Evidence/Ending.antt =====
-- The way to `Terminated` of internal/reconcile/reconciler.go, the lease projection and the settling of
-- an earlier retry keep a justified trace.
use mini_sand_box.Prelude.{
  ◌≡◌, refl, Bool, true, not, ◌&&◌, ◌||◌, String, List, Option, none, some, is_none, ◌==◌,
  Bool-cases, inl, inr, arith,
}
use mini_sand_box.Domain.States.{SandboxState, is_state, terminated, stopping}
use mini_sand_box.Domain.Sandboxes.{Sandbox}
use mini_sand_box.Reconcile.Retry.{delete, classify_retry_error}
use mini_sand_box.Runtime.{
  Failure, RuntimeError, retry_facts, cleanup_pending_failure, corrupt_error,
}
use mini_sand_box.Store.Lifecycle.History.{Follows-refl}
use mini_sand_box.Reconcile.Reconciler.{
  Environment, Setup, Event, wrote, projected, of_wait, done, silent, Operation, waited, answered,
}
use mini_sand_box.Reconcile.Reconciler.Failures.{delete_runtime}
use mini_sand_box.Reconcile.Reconciler.Terminated.{
  mark, settle, reset_settled_retry, shutdown_runner, project_lease, commit_terminated,
  after_delete, reconcile_terminated, terminated_text, deleting_text,
}
use mini_sand_box.Reconcile.Reconciler.Evidence.{
  gone, any_before, stronger, stronger, warranted, anything, Triple, Keeps, bind-Triple,
  done-Triple, fail-Triple, if-Triple, ask-Triple,
}
use mini_sand_box.Reconcile.Reconciler.Evidence.Steps.{
  mark-Triple, settle-Triple, record_failure-Keeps, after_removal, delete_runtime-Triple,
}

implied : (a b : Bool) → a ≡ true → (not a || b) ≡ true → b ≡ true
implied a b h g = ground arith

module _ (env : Environment) (setup : Setup) where
  pub reset_settled_retry-Keeps :
      (s : Sandbox) (state : SandboxState) (text : Failure) (runtime_id : String)
      → ((trace : List Event) → warranted (wrote s state) trace ≡ true)
      → Keeps env (reset_settled_retry env setup s state text runtime_id)
  unfolding reset_settled_retry
  reset_settled_retry-Keeps s state text runtime_id free =
      if-Triple (s.retry_attempt == 0 && is_none s.next_reconcile_at) (done tt) _
        (done-Triple tt (λ t g. refl))
        (bind-Triple _ (λ row. done-Triple tt (λ t g. refl))
          (settle env setup s state text runtime_id)
          (settle-Triple env setup {q = anything} s state text runtime_id (λ trace g. free trace)
            (λ row trace g. refl)))

  pub shutdown_runner-Keeps :
      {p : List Event → Bool} → Triple env p (shutdown_runner env setup) anything
  unfolding shutdown_runner
  shutdown_runner-Keeps = record {
    justifies = λ w j g. elim (Bool-cases setup.has_shutdown) [ inl e ↦ rw e j | inr e ↦ rw e j ];
    ends = λ w j g. elim (Bool-cases setup.has_shutdown) [ inl e ↦ rw e refl | inr e ↦ rw e refl ];
    follows = λ o w. elim (Bool-cases setup.has_shutdown) [
      | inl e ↦ rw e (Follows-refl w.table)
      | inr e ↦ rw e (Follows-refl w.table)
    ];
  }

  pub project_lease-Keeps :
      {p : List Event → Bool} (s : Sandbox) → Triple env p (project_lease env setup s) anything
  unfolding project_lease
  project_lease-Keeps s = if-Triple _ (done none) _ (done-Triple none (λ t g. refl)) (
      if-Triple (is_none s.expires_at || s.revision == 0) (done (some corrupt_error)) _
        (done-Triple (some corrupt_error) (λ t g. refl))
        (ask-Triple env.write_lease (λ e. projected (silent e)) (λ a t. refl) (λ a t g. refl)))

  commit_terminated-Triple :
      (s : Sandbox) → Triple env gone (commit_terminated env setup s) anything
  unfolding commit_terminated
  commit_terminated-Triple s =
      bind-Triple _ (λ row. done-Triple tt (λ t g. refl))
        (settle env setup s terminated terminated_text "")
        (settle-Triple env setup {q = anything} s terminated terminated_text ""
          (λ trace g. ground arith) (λ row trace g. refl))

  after_delete-Triple :
      (s : Sandbox) (answer : Operation (Option RuntimeError))
      → Triple env (after_removal env setup answer) (after_delete env setup s answer) anything
  unfolding after_delete
  after_delete-Triple s (waited e) = fail-Triple (of_wait e)
  after_delete-Triple s (answered none) = commit_terminated-Triple s
  after_delete-Triple s (answered (some e)) =
      elim (Bool-cases (classify_retry_error delete (some (retry_facts e))).successful) [
        | inl h ↦ rw h (
            stronger (commit_terminated env setup s) (λ t g. implied _ _ h g)
              (commit_terminated-Triple s))
        | inr h ↦ rw h (
            any_before _
              (record_failure-Keeps env setup s (cleanup_pending_failure e) s.runtime_id delete))
      ]

  pub reconcile_terminated-Keeps : (s : Sandbox) → Keeps env (reconcile_terminated env setup s)
  unfolding reconcile_terminated
  reconcile_terminated-Keeps s = elim (Bool-cases (is_state s.observed_state terminated)) [
    | inl e ↦ rw e (reset_settled_retry-Keeps s terminated terminated_text "" (λ trace. rw e refl))
    | inr e ↦ rw e (
        bind-Triple _
          (λ row.
            bind-Triple _
              (λ unit.
                bind-Triple _ (λ answer. after_delete-Triple row answer) (delete_runtime env setup)
                  (any_before _ (delete_runtime-Triple env setup)))
              (shutdown_runner env setup) (shutdown_runner-Keeps))
          (mark env setup s stopping deleting_text s.runtime_id)
          (mark-Triple env setup {q = anything} s stopping deleting_text s.runtime_id
            (λ trace g. refl) (λ row trace g. refl)))
  ]
