-- ===== src/Store/Lifecycle/Updates.antt =====
-- internal/store/sqlite/store.go: the updates of a sandbox record, one function for each method.
use mini_sand_box.Prelude.{
  ℕ, ◌+◌, Bool, true, false, not, ◌&&◌, ◌||◌, String, Option, none, some, ok, err, ◌==◌, ltb,
  if◌then◌else◌,
}
use mini_sand_box.Prelude.Int.{ℤ, lt, eq}
use mini_sand_box.Prelude.Maps.{lookup, insert}
use mini_sand_box.Protocol.Events.{is_zero}
use mini_sand_box.Domain.States.{
  SandboxState, DesiredState, is_state, is_desired, desired_running, desired_terminated, running,
  terminated, stopping,
}
use mini_sand_box.Domain.Reasons.{ttl_expired}
use mini_sand_box.Domain.Sandboxes.{Sandbox}
use mini_sand_box.Application.Renew.{RenewUpdate}
use mini_sand_box.Store.Lifecycle.{
  Table, not_found, conflict, invalid, Answer, bumped, mutate, transitioned, ExpireIntentUpdate,
  RetryUpdate, RetryResetUpdate, HealthResultUpdate, known,
}

abbrev pub max_uint32 : ℕ
max_uint32 = 4294967295

-- `next_reconcile_at IS NULL OR next_reconcile_at > now`, by a test on two times.
abbrev pub waits : (ℤ → ℤ → Bool) → ℤ → Option ℤ → Bool
waits after now none = true
waits after now (some next) = after next now

abbrev pub lease_live : (ℤ → ℤ → Bool) → ℤ → ℤ → Option ℤ → Bool
lease_live behind now requested none = false
lease_live behind now requested (some e) = behind e now && behind requested e

abbrev pub lease_ended : (ℤ → ℤ → Bool) → ℤ → ℤ → Option ℤ → Bool
lease_ended behind now expected none = false
lease_ended behind now expected (some e) = eq e expected && not (behind e now)

abbrev pub terminate : ℤ → Sandbox → Sandbox
terminate now row = record row {
  desired_state = desired_terminated;
  next_reconcile_at = some now;
  updated_at = now;
}

-- The row is to be written: it is desired running, or its next attempt can be brought forward.
abbrev pub terminable : (ℤ → ℤ → Bool) → ℤ → Sandbox → Bool
terminable behind now row =
    is_desired row.desired_state desired_running
    || (is_desired row.desired_state desired_terminated && waits behind now row.next_reconcile_at)

-- `UpdateDesired` where no row was written: a row that is terminated and due is the answer, by the
-- clock of the program and not by the texts.
abbrev pub desired_unwritten : ℤ → Sandbox → Table → Answer
desired_unwritten now row t =
    if not (is_desired row.desired_state desired_terminated)
      || waits (λ a b. lt b a) now row.next_reconcile_at
    then (t, err conflict)
    else (t, ok row)

unfoldable pub desired_row : (ℤ → ℤ → Bool) → ℤ → ℕ → String → Table → Option Sandbox → Answer
desired_row behind now expected id t none = (t, err not_found)
desired_row behind now expected id t (some row) =
    if row.revision == expected && terminable behind now row
    then (insert id (bumped (terminate now) row) t, ok (bumped (terminate now) row))
    else desired_unwritten now row t

unfoldable pub update_desired : (ℤ → ℤ → Bool) → ℤ → String → DesiredState → ℕ → Table → Answer
unfolding desired_row
update_desired behind now id desired expected t =
    if not (is_desired desired desired_terminated)
    then (t, err invalid)
    else desired_row behind now expected id t (lookup id t)

abbrev pub renewable : (ℤ → ℤ → Bool) → RenewUpdate → Sandbox → Bool
renewable behind u row =
    is_desired row.desired_state desired_running
    && not (is_state row.observed_state terminated)
    && lease_live behind u.now u.expires_at row.expires_at

abbrev pub renewed_row : RenewUpdate → Sandbox → Sandbox
renewed_row u row = record row {
  expires_at = some u.expires_at;
  next_reconcile_at = some u.now;
  updated_at = u.now;
}

unfoldable pub renew : (ℤ → ℤ → Bool) → RenewUpdate → Table → Answer
unfolding mutate
renew behind u t =
    if is_zero u.now || is_zero u.expires_at || not (lt u.now u.expires_at)
    then (t, err invalid)
    else mutate not_found (renewable behind u) (renewed_row u) u.expected_revision u.id t

abbrev pub expirable : (ℤ → ℤ → Bool) → ExpireIntentUpdate → Sandbox → Bool
expirable behind u row =
    is_desired row.desired_state desired_running
    && not (is_state row.observed_state terminated)
    && lease_ended behind u.now u.expected_expires_at row.expires_at

abbrev pub expired_row : ExpireIntentUpdate → Sandbox → Sandbox
expired_row u row = record row {
  desired_state = desired_terminated;
  observed_state = stopping;
  reason = ttl_expired;
  message = "Sandbox lease has expired.";
  next_reconcile_at = some u.now;
  updated_at = u.now;
  last_transition_at = transitioned stopping u.now row;
}

unfoldable pub expire_intent : (ℤ → ℤ → Bool) → ExpireIntentUpdate → Table → Answer
unfolding mutate
expire_intent behind u t =
    if is_zero u.now || is_zero u.expected_expires_at || lt u.now u.expected_expires_at
    then (t, err invalid)
    else mutate not_found (expirable behind u) (expired_row u) u.expected_revision u.id t

abbrev pub retriable : RetryUpdate → Sandbox → Bool
retriable u row = not (is_state row.observed_state terminated) && ltb row.retry_attempt max_uint32

abbrev pub retried_row : RetryUpdate → Sandbox → Sandbox
retried_row u row = record row {
  observed_state = SandboxState.failed;
  reason = u.reason;
  message = u.message;
  runtime_id = u.runtime_id;
  retry_attempt = row.retry_attempt + 1;
  next_reconcile_at = some u.next_reconcile_at;
  last_reconcile_at = some u.attempted_at;
  updated_at = u.attempted_at;
  last_transition_at = transitioned SandboxState.failed u.attempted_at row;
}

unfoldable pub schedule_retry : RetryUpdate → Table → Answer
unfolding mutate
schedule_retry u t =
    if is_zero u.attempted_at
      || is_zero u.next_reconcile_at
      || not (lt u.attempted_at u.next_reconcile_at)
      || not u.has_reason
    then (t, err invalid)
    else mutate not_found (retriable u) (retried_row u) u.expected_revision u.id t

-- The observation is the one that the desired state asks for.
abbrev pub settles : SandboxState → DesiredState → Bool
settles state desired =
    (is_desired desired desired_running && is_state state running)
    || (is_desired desired desired_terminated && is_state state terminated)

abbrev pub resettable : RetryResetUpdate → Sandbox → Bool
resettable u row = settles u.observed.state row.desired_state

abbrev pub reset_row : RetryResetUpdate → Sandbox → Sandbox
reset_row u row = record row {
  observed_state = u.observed.state;
  reason = u.observed.reason;
  message = u.observed.message;
  runtime_id = u.observed.runtime_id;
  retry_attempt = 0;
  next_reconcile_at = none;
  last_reconcile_at = some u.reconciled_at;
  updated_at = u.reconciled_at;
  last_transition_at = transitioned u.observed.state u.reconciled_at row;
}

unfoldable pub reset_retry : RetryResetUpdate → Table → Answer
unfolding mutate
reset_retry u t =
    if is_zero u.reconciled_at || not (known u.observed.state)
    then (t, err invalid)
    else mutate not_found (resettable u) (reset_row u) u.observed.expected_revision u.observed.id t

abbrev pub counted_failures : Bool → ℕ → ℕ
counted_failures true n = 0
counted_failures false n = if ltb n max_uint32 then n + 1 else n

abbrev pub checkable : HealthResultUpdate → Sandbox → Bool
checkable u row =
    is_desired row.desired_state desired_running && is_state row.observed_state running

abbrev pub checked_row : HealthResultUpdate → Sandbox → Sandbox
checked_row u row = record row {
  health_failure_count = counted_failures u.healthy row.health_failure_count;
  last_reconcile_at = some u.checked_at;
  updated_at = u.checked_at;
}

unfoldable pub record_health_result : HealthResultUpdate → Table → Answer
unfolding mutate
record_health_result u t =
    if is_zero u.checked_at
    then (t, err invalid)
    else mutate not_found (checkable u) (checked_row u) u.expected_revision u.id t
