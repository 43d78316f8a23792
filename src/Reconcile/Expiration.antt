-- ===== src/Reconcile/Expiration.antt =====
-- internal/reconcile/ttl_due_validator.go and ttl_expiration.go: a lease timer that fires.
--
-- Others write between the calls: `rival n` is what they write before the read of an attempt, and
-- `meanwhile n` before its commit, the attempts counted from the end of the loop. `read` says whether
-- a read is carried out and `commits` whether a commit is, `clock` is the clock of the attempt and
-- `behind` the test of the store on times.
use mini_sand_box.Prelude.{
  ℕ, zero, suc, Bool, true, false, not, ◌||◌, String, List, [], ◌∷◌, Option, none, some, Result, ok,
  err, is_empty, if◌then◌else◌,
}
use mini_sand_box.Prelude.Int.{ℤ, lt, eq}
use mini_sand_box.Protocol.Events.{is_zero}
use mini_sand_box.Domain.States.{is_state, is_desired, desired_terminated, terminated}
use mini_sand_box.Domain.Sandboxes.{Sandbox}
use mini_sand_box.Store.Lifecycle.{
  Table, StoreError, not_found, conflict, invalid, corrupt, store_failed, Answer, transact, get,
  ExpireIntentUpdate,
}
use mini_sand_box.Store.Lifecycle.Updates.{expire_intent}
pub mod Justified

abbrev pub ttl_expire_cas_attempts : ℕ
ttl_expire_cas_attempts = 3

pub record TtlHeapEntry : Type 0 where
  pub sandbox_id : String
  pub expected_expires_at : ℤ

-- What is asked of the timer index and of the work queue.
pub data TtlEffect : Type 0 where
  upsert : TtlHeapEntry → TtlEffect
  remove woken : String → TtlEffect

-- `settled` is `ok = false` without an error.
pub data ValidatedTtl : Type 0 where
  rejected : StoreError → List TtlEffect → ValidatedTtl
  settled : List TtlEffect → ValidatedTtl
  due : Sandbox → ℤ → ValidatedTtl

unfoldable pub validate_lease : ℤ → TtlHeapEntry → Sandbox → Option ℤ → ValidatedTtl
validate_lease now entry current none = rejected corrupt (remove entry.sandbox_id ∷ [])
validate_lease now entry current (some e) =
    let again =
      settled (upsert (record { sandbox_id = current.id; expected_expires_at = e }) ∷ []) in
    if not (eq e entry.expected_expires_at)
    then again
    else if lt now e
    then again
    else due current now

unfoldable pub validate_read : ℤ → TtlHeapEntry → Result StoreError Sandbox → ValidatedTtl
unfolding validate_lease
validate_read now entry (err not_found) = settled (remove entry.sandbox_id ∷ [])
validate_read now entry (err e) = rejected e []
validate_read now entry (ok current) =
    if is_desired current.desired_state desired_terminated
      || is_state current.observed_state terminated
    then settled (remove entry.sandbox_id ∷ [])
    else validate_lease now entry current current.expires_at

unfoldable pub validate : ℤ → TtlHeapEntry → Result StoreError Sandbox → ValidatedTtl
unfolding validate_read
validate now entry answer =
    if is_empty entry.sandbox_id || is_zero entry.expected_expires_at
    then rejected invalid []
    else validate_read now entry answer

abbrev pub Expiry : Type 0
Expiry = Table × List TtlEffect × Option StoreError

-- The intent that an attempt commits for the record that it has read.
abbrev pub intent : TtlHeapEntry → Sandbox → ℤ → ExpireIntentUpdate
intent entry row now = record {
  id = row.id;
  expected_revision = row.revision;
  expected_expires_at = entry.expected_expires_at;
  now = now;
}

unfoldable pub after_expire : TtlHeapEntry → (Table → Expiry) → Answer → Expiry
after_expire entry next (t, ok row) = (t, remove row.id ∷ woken row.id ∷ [], none)
after_expire entry next (t, err conflict) = next t
after_expire entry next (t, err not_found) = (t, remove entry.sandbox_id ∷ [], none)
after_expire entry next (t, err e) = (t, [], some e)

module _ (behind : ℤ → ℤ → Bool) (clock : ℕ → ℤ) (read commits : ℕ → Bool)
    (rival meanwhile : ℕ → Table → Table) where
  unfoldable pub read_current : Bool → String → Table → Result StoreError Sandbox
  unfolding get
  read_current true id t = get id t
  read_current false id t = err store_failed

  unfoldable pub after_validate :
      ℕ → TtlHeapEntry → (Table → Expiry) → Table → ValidatedTtl → Expiry
  unfolding after_expire transact expire_intent
  after_validate n entry next t (rejected e effects) = (t, effects, some e)
  after_validate n entry next t (settled effects) = (t, effects, none)
  after_validate n entry next t (due row now) =
      after_expire entry next
        (transact (commits n) (expire_intent behind (intent entry row now)) (meanwhile n t))

  -- The attempts that are left.
  unfoldable pub expire_attempts : ℕ → TtlHeapEntry → Table → Expiry
  unfolding after_validate validate read_current
  expire_attempts zero entry t = (t, [], some conflict)
  expire_attempts (suc n) entry t =
      after_validate n entry (λ s. expire_attempts n entry s) (rival n t)
        (validate (clock n) entry (read_current (read n) entry.sandbox_id (rival n t)))

  unfoldable pub expire_entry : TtlHeapEntry → Table → Expiry
  unfolding expire_attempts
  expire_entry entry t = expire_attempts ttl_expire_cas_attempts entry t
