-- ===== src/Reconcile/Reconciler/Running.antt =====
-- internal/reconcile/reconciler.go: the way to `Running`, the run of `Reconcile`, and `FailEgress`.
use mini_sand_box.Prelude.{
  ℕ, Bool, true, false, not, ◌&&◌, ◌||◌, String, Option, none, some, Result, ok, err, if◌then◌else◌,
}
use mini_sand_box.Prelude.Int.{ℤ}
use mini_sand_box.Domain.States.{
  SandboxState, DesiredState, is_state, is_desired, desired_running, desired_terminated, creating,
  running, terminated, failed,
}
use mini_sand_box.Domain.Reasons.{
  SandboxReason, creating_runtime, waiting_runner, reason_running, egress_unhealthy,
}
use mini_sand_box.Domain.Sandboxes.{Sandbox, expired}
use mini_sand_box.Reconcile.Retry.{RetryOperation, create, start, recover}
use mini_sand_box.Runtime.{Failure, RuntimeError, plain_error}
use mini_sand_box.Store.Lifecycle.{Table, StoreError, Answer, ExpireIntentUpdate}
use mini_sand_box.Store.Lifecycle.Updates.{expire_intent}
use mini_sand_box.Reconcile.Reconciler.{
  Environment, Setup, Actual, EnsureAnswer, made, refused, Event, World, of_wait,
  invalid_desired_state, Act, done, fail, ◌>>=◌, ◌>>◌, clock, write, read, Operation, waited,
  answered,
}
use mini_sand_box.Reconcile.Reconciler.Failures.{record_failure, fail_running}
use mini_sand_box.Reconcile.Reconciler.Terminated.{
  state_text, mark, settle, reset_settled_retry, shutdown_runner, project_lease,
  reconcile_terminated,
}
use mini_sand_box.Reconcile.Reconciler.Recover.{
  Readiness, ready, no_gate, unready, leaky, readiness, ensure_runtime, recover_running,
}
pub mod Reaches
pub mod Writes
pub mod Calm
pub mod Outcome

abbrev pub creating_text : Failure
creating_text = state_text creating_runtime "Preparing sandbox runtime."

abbrev pub waiting_text : Failure
waiting_text = state_text waiting_runner "Waiting for sandbox runner."

abbrev pub running_text : Failure
running_text = state_text reason_running "Sandbox is running."

abbrev pub egress_text : Failure
egress_text = state_text egress_unhealthy "Sandbox outbound isolation is unhealthy."

abbrev pub is_egress_unhealthy : SandboxReason → Bool
is_egress_unhealthy egress_unhealthy = true
is_egress_unhealthy _ = false

-- The record's wish is to run, it is not terminated, and its lease has ended.
abbrev pub sandbox_lease_due : Sandbox → ℤ → Bool
sandbox_lease_due s now =
    is_desired s.desired_state desired_running
    && not (is_state s.observed_state terminated)
    && expired s now

module _ (env : Environment) (setup : Setup) where
  unfoldable pub after_projection : Sandbox → Option RuntimeError → Act Unit
  unfolding record_failure
  after_projection s none = done tt
  after_projection s (some e) = record_failure env setup s e s.runtime_id recover

  -- The write of `Running`, and the projection of its lease.
  unfoldable pub commit_running : Sandbox → String → Act Unit
  unfolding settle project_lease after_projection
  commit_running s runtime_id = do
    row ← settle env setup s running running_text runtime_id
    e ← project_lease env setup row
    after_projection row e

  unfoldable pub after_readiness : Sandbox → String → Readiness → Act Unit
  unfolding commit_running fail_running
  after_readiness s runtime_id ready = commit_running s runtime_id
  after_readiness s runtime_id no_gate = fail_running env setup s plain_error none start
  after_readiness s runtime_id (unready e) = fail_running env setup s e none start
  after_readiness s runtime_id (leaky e) = fail_running env setup s e none start

  unfoldable pub after_ensure : Sandbox → Operation EnsureAnswer → Act Unit
  unfolding fail_running mark readiness after_readiness
  after_ensure s (waited e) = fail (of_wait e)
  after_ensure s (answered (refused e cause)) = fail_running env setup s e cause create
  after_ensure s (answered (made actual)) = do
    waiting ← mark env setup s creating waiting_text actual.runtime_id
    answer ← readiness env setup waiting
    after_readiness waiting actual.runtime_id answer

  unfoldable pub create_running : Sandbox → Act Unit
  unfolding mark ensure_runtime after_ensure
  create_running s = do
    row ← mark env setup s creating creating_text s.runtime_id
    answer ← ensure_runtime env setup
    after_ensure row answer

  unfoldable pub settled_projection : Sandbox → Option RuntimeError → Act Unit
  unfolding record_failure reset_settled_retry
  settled_projection s (some e) = record_failure env setup s e s.runtime_id recover
  settled_projection s none = reset_settled_retry env setup s running running_text s.runtime_id

  unfoldable pub reconcile_running : Sandbox → Act Unit
  unfolding recover_running project_lease settled_projection create_running
  reconcile_running s =
      if not (is_state s.observed_state running)
      then create_running s
      else if setup.replaces_compute
      then recover_running env setup s
      else (do e ← project_lease env setup s; settled_projection s e)

  abbrev pub expiry : Sandbox → ℤ → Option ℤ → ExpireIntentUpdate
  expiry s now none = record {
    id = s.id;
    expected_revision = s.revision;
    expected_expires_at = now;
    now = now;
  }
  expiry s now (some end) = record {
    id = s.id;
    expected_revision = s.revision;
    expected_expires_at = end;
    now = now;
  }

  -- A lease that is due has an end.
  unfoldable pub expire_lease_if_due : Sandbox → Act Sandbox
  unfolding clock expire_intent expired
  expire_lease_if_due s = do
    now ← clock env
    if not (sandbox_lease_due s now)
        then done s
        else write env s (expire_intent setup.behind (expiry s now s.expires_at))

  unfoldable pub converge : Sandbox → DesiredState → Act Unit
  unfolding reconcile_running reconcile_terminated
  converge s desired_running = reconcile_running s
  converge s desired_terminated = reconcile_terminated env setup s
  converge s (DesiredState.other text) = fail invalid_desired_state

  unfoldable pub reconcile : String → Act Unit
  unfolding expire_lease_if_due converge
  reconcile id = do s ← read env id; row ← expire_lease_if_due s; converge row row.desired_state

  unfoldable pub fail_egress : String → Act Unit
  unfolding mark shutdown_runner
  fail_egress id = do
    s ← read env id
    if not (is_desired s.desired_state desired_running)
          || is_state s.observed_state terminated
          || (is_state s.observed_state failed && is_egress_unhealthy s.reason)
        then done tt
        else do row ← mark env setup s failed egress_text s.runtime_id; shutdown_runner env setup
