-- ===== src/Application/Renew.antt =====
-- internal/application/renew.go and renew_validator.go: the renewal of a lease, as a loop of reads
-- and compare-and-swap writes.
use mini_sand_box.Prelude.{
  ℕ, zero, suc, ◌+◌, ◌*◌, ◌≡◌, Bool, true, false, not, ◌&&◌, ◌||◌, String, Option, none, some,
  Result, ok, err, is_empty, if◌then◌else◌,
}
use mini_sand_box.Prelude.Int.{ℤ, pos, lt, le, eq, ◌+ℤ◌}
use mini_sand_box.Protocol.Events.{is_zero}
use mini_sand_box.Domain.States.{
  SandboxState, DesiredState, is_state, is_desired, desired_running, terminated,
}
use mini_sand_box.Domain.Sandboxes.{Sandbox}
pub mod Commit

-- `store_failed` is any other error of the store.
pub data RenewError : Type 0 where
  invalid invalid_expiration sandbox_expiring lease_conflict conflict store_failed : RenewError

pub record RenewUpdate : Type 0 where
  pub id : String
  pub expected_revision : ℕ
  pub now : ℤ
  pub expires_at : ℤ

pub record RenewValidation : Type 0 where
  pub requested_expires_at : ℤ
  pub now : ℤ
  pub no_op : Bool

-- The bounds of `createPolicy`, and `Time.Year`.
pub record RenewPolicy : Type 0 where
  pub minimum_ttl : ℤ
  pub maximum_ttl : ℤ
  pub year : ℤ → ℤ

-- The record's lease is there and has not ended.
abbrev pub lives : ℤ → Option ℤ → Bool
lives now none = false
lives now (some expires) = lt now expires

-- The checks behind the one of the current lease, which ends at `expires`.
unfoldable pub validate_extension :
    RenewPolicy → ℤ → ℤ → Option ℤ → Result RenewError RenewValidation
validate_extension policy now requested none = err sandbox_expiring
validate_extension policy now requested (some expires) =
    if lt (policy.year requested) (pos 0) || lt (pos 9999) (policy.year requested)
    then err invalid_expiration
    else if eq requested expires
    then ok (record { requested_expires_at = requested; now = now; no_op = true })
    else if lt requested expires
    then err lease_conflict
    else let minimum = now +ℤ policy.minimum_ttl in
      let maximum = now +ℤ policy.maximum_ttl in
      if not (lt now minimum)
        || not (lt now maximum)
        || lt (pos 9999) (policy.year minimum)
        || lt (pos 9999) (policy.year maximum)
      then err invalid_expiration
      else if lt requested minimum || lt maximum requested
      then err invalid_expiration
      else ok (record { requested_expires_at = requested; now = now; no_op = false })

-- `now` is the reading of the clock.
unfoldable pub validate_renew : RenewPolicy → ℤ → Sandbox → ℤ → Result RenewError RenewValidation
unfolding validate_extension
validate_renew policy now current requested =
    if le policy.minimum_ttl (pos 0)
      || lt policy.maximum_ttl policy.minimum_ttl
      || is_zero requested
    then err invalid_expiration
    else if not (is_desired current.desired_state desired_running)
        || is_state current.observed_state terminated
        || not (lives now current.expires_at)
    then err sandbox_expiring
    else validate_extension policy now requested current.expires_at

-- What the service asks of the store of one sandbox, whose states are `S`: `get` and `renew` are the
-- calls, `others` is what other writers do at the n-th place between two calls, counted from the end
-- of the loop, and `wake` is the waker, which does nothing where the service has none.
pub record LeaseStore (S : Type 0) : Type 0 where
  pub get : S → Result RenewError Sandbox
  pub renew : RenewUpdate → S → S × Result RenewError Sandbox
  pub others : ℕ → S → S
  pub wake : String → S → S

abbrev pub renew_cas_attempts : ℕ
renew_cas_attempts = 3

module _ {S : Type 0} (store : LeaseStore S) (policy : RenewPolicy) (clock : ℕ → ℤ)
    (requested : ℤ) where
  abbrev pub update_of : Sandbox → RenewValidation → RenewUpdate
  update_of current d = record {
    id = current.id;
    expected_revision = current.revision;
    now = d.now;
    expires_at = d.requested_expires_at;
  }

  abbrev Outcome : Type 0
  Outcome = S × Result RenewError Sandbox

  -- A record that was read goes on to the next attempt.
  unfoldable pub with_read : (Sandbox → S → Outcome) → S → Result RenewError Sandbox → Outcome
  with_read next s (err e) = (s, err e)
  with_read next s (ok current) = next current s

  -- What follows a write, with `n` attempts left: a success wakes the sandbox, and only a conflict is
  -- tried again, from a new read.
  unfoldable pub after_write : ℕ → (Sandbox → S → Outcome) → Outcome → Outcome
  unfolding with_read
  after_write n next (s, ok updated) = (store.wake updated.id s, ok updated)
  after_write zero next (s, err conflict) = (s, err conflict)
  after_write (suc n) next (s, err conflict) =
      let t = store.others (2 * n + 1) s in with_read next t (store.get t)
  after_write n next (s, err e) = (s, err e)

  unfoldable pub after_validation :
      ℕ → (Sandbox → S → Outcome) → Sandbox → S → Result RenewError RenewValidation → Outcome
  unfolding after_write
  after_validation n next current s (err e) = (s, err e)
  after_validation n next current s (ok d) =
      if d.no_op
      then (s, ok current)
      else after_write n next (store.renew (update_of current d) (store.others (2 * n) s))

  -- The attempts left, the record read last, and the store when it was read. The result is that of
  -- the last call, with the store then.
  unfoldable pub renew_loop : ℕ → Sandbox → S → Outcome
  unfolding after_validation
  renew_loop zero current s = (s, err conflict)
  renew_loop (suc n) current s =
      after_validation n (λ c t. renew_loop n c t) current s
        (validate_renew policy (clock n) current requested)

  unfoldable pub renew : String → S → Outcome
  unfolding renew_loop with_read
  renew id s =
      if is_empty id
      then (s, err invalid)
      else with_read (renew_loop renew_cas_attempts) s (store.get s)
