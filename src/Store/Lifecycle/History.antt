-- ===== src/Store/Lifecycle/History.antt =====
-- The history of a record of internal/store/sqlite/store.go over any list of updates, committed or
-- rolled back.
use mini_sand_box.Prelude.{
  ℕ, ◌≤◌, ◌≡◌, refl, ◌∙◌, Bool, true, false, ◌&&◌, String, Option, none, some, ok, err, ◌==◌,
  str_eq, eq_iff, if◌then◌else◌, and_split, Bool-cases, inl, inr, arith,
}
use mini_sand_box.Prelude.Int.{ℤ}
use mini_sand_box.Prelude.Maps.{lookup, insert, lookup-insert}
use mini_sand_box.Domain.States.{DesiredState, is_desired, desired_terminated}
use mini_sand_box.Domain.Sandboxes.{Sandbox}
use mini_sand_box.Application.Renew.{RenewUpdate}
use mini_sand_box.Store.Lifecycle.{
  Table, StoreError, conflict, Answer, bumped, mutate, mutate_row, ObservedUpdate,
  ExpireIntentUpdate, RetryUpdate, RetryResetUpdate, HealthResultUpdate, observe, update_observed,
}
use mini_sand_box.Store.Lifecycle.Updates.{
  terminate, terminable, desired_row, update_desired, renew, expire_intent, schedule_retry,
  reset_retry, record_health_result, renewable, renewed_row, expirable, expired_row, retriable,
  retried_row, resettable, reset_row, checkable, checked_row,
}

-- The fields that no update writes.
pub record SameIdentity (a b : Sandbox) : Type 0 where
  id : b.id ≡ a.id
  spec : b.spec ≡ a.spec
  spec_hash : b.spec_hash ≡ a.spec_hash
  created_at : b.created_at ≡ a.created_at
  origin : b.origin ≡ a.origin

-- What a record may become: its revision tells every change, the identity stays, and the wish to
-- terminate it stays.
pub record Succeeds (a b : Sandbox) : Type 0 where
  pub grows : a.revision ≤ b.revision
  pub tells : b.revision ≡ a.revision → b ≡ a
  pub identity : SameIdentity a b
  pub ends :
      is_desired a.desired_state desired_terminated ≡ true
      → is_desired b.desired_state desired_terminated ≡ true

Succeeds-refl : (a : Sandbox) → Succeeds a a
Succeeds-refl a = record {
  grows = omega arith;
  tells = λ e. refl;
  identity = ground arith;
  ends = λ e. e;
}

Succeeds-trans : (a b c : Sandbox) → Succeeds a b → Succeeds b c → Succeeds a c
Succeeds-trans a b c v w = record {
  grows = omega (arith, v.grows, w.grows);
  tells =
      λ e. w.tells (omega (arith, v.grows, w.grows)) ∙ v.tells (omega (arith, v.grows, w.grows));
  identity = ground (arith, v.identity, w.identity);
  ends = λ e. w.ends (v.ends e);
}

abbrev pub Kept : Option Sandbox → Option Sandbox → Type 0
Kept none found = Unit
Kept (some a) none = ⊥
Kept (some a) (some b) = Succeeds a b

-- Every record of the first table is in the second one, with a history between.
abbrev pub Follows : Table → Table → Type 0
Follows t u = (key : String) → Kept (lookup key t) (lookup key u)

Kept-refl : (a : Option Sandbox) → Kept a a
Kept-refl none = tt
Kept-refl (some a) = Succeeds-refl a

Kept-trans : (a b c : Option Sandbox) → Kept a b → Kept b c → Kept a c
Kept-trans none b c v w = tt
Kept-trans (some a) none c v w = elim v [ ]
Kept-trans (some a) (some b) (some c) v w = Succeeds-trans a b c v w
Kept-trans (some a) (some b) none v w = w

pub Follows-refl : (t : Table) → Follows t t
Follows-refl t key = Kept-refl (lookup key t)

pub Follows-trans : (t u v : Table) → Follows t u → Follows u v → Follows t v
Follows-trans t u v f g key =
    Kept-trans (lookup key t) (lookup key u) (lookup key v) (f key) (g key)

-- A change of a row that leaves its identity and the wish to terminate it.
abbrev Frames : (Sandbox → Bool) → (Sandbox → Sandbox) → Type 0
Frames condition change =
    (a : Sandbox)
    → condition a ≡ true
    → SameIdentity a (bumped change a)
      × (is_desired a.desired_state desired_terminated ≡ true
          → is_desired (change a).desired_state desired_terminated ≡ true)

bumped-Succeeds :
    (condition : Sandbox → Bool) (change : Sandbox → Sandbox) (a : Sandbox)
    → Frames condition change
    → condition a ≡ true
    → Succeeds a (bumped change a)
bumped-Succeeds condition change a f c = record {
  grows = omega arith;
  tells = λ e. absurd (omega arith);
  identity = (f a c).0;
  ends = (f a c).1;
}

-- Writing over a row of the table.
insert-Follows :
    (id : String) (t : Table) (a b : Sandbox)
    → lookup id t ≡ some a
    → Succeeds a b
    → Follows t (insert id b t)
insert-Follows id t a b e v key = elim (Bool-cases (str_eq id key)) [
  | inl same ↦ let k = (eq_iff id key).0 same in rw (lookup-insert id key b t, same) (rw (← k, e) v)
  | inr other ↦ rw (lookup-insert id key b t, other) (Kept-refl (lookup key t))
]

mutate_row-Follows :
    (missing : StoreError) (condition : Sandbox → Bool) (change : Sandbox → Sandbox) (expected : ℕ)
    (id : String) (t : Table) (found : Option Sandbox)
    → Frames condition change
    → lookup id t ≡ found
    → Follows t (mutate_row missing condition change expected id t found).0
unfolding mutate_row
mutate_row-Follows missing condition change expected id t none f e = Follows-refl t
mutate_row-Follows missing condition change expected id t (some a) f e =
    elim (Bool-cases (a.revision == expected && condition a)) [
      | inl c ↦ rw c (
          insert-Follows id t a (bumped change a) e
            (bumped-Succeeds condition change a f (and_split _ _ c).1))
      | inr c ↦ rw c (Follows-refl t)
    ]

mutate-Follows :
    (missing : StoreError) (condition : Sandbox → Bool) (change : Sandbox → Sandbox) (expected : ℕ)
    (id : String) (t : Table)
    → Frames condition change
    → Follows t (mutate missing condition change expected id t).0
unfolding mutate
mutate-Follows missing condition change expected id t f =
    mutate_row-Follows missing condition change expected id t (lookup id t) f refl

-- A call that checks its arguments first.
checked-Follows :
    (t : Table) (refuses : Bool) (e : StoreError) (answer : Answer)
    → Follows t answer.0
    → Follows t (if refuses then (t, err e) else answer).0
checked-Follows t true e answer f = Follows-refl t
checked-Follows t false e answer f = f

pub update_observed-Follows :
    (now : ℤ) (u : ObservedUpdate) (t : Table) → Follows t (update_observed now u t).0
unfolding update_observed observe
update_observed-Follows now u t = checked-Follows t _ _ _ (
    mutate-Follows conflict (λ row. true) (observe now u) u.expected_revision u.id t
      (λ a c. ground arith))

module _ (behind : ℤ → ℤ → Bool) where
  pub renew-Follows : (u : RenewUpdate) (t : Table) → Follows t (renew behind u t).0
  unfolding renew
  renew-Follows u t =
      checked-Follows t _ _ _
        (mutate-Follows _ (renewable behind u) (renewed_row u) _ _ t (λ a c. ground arith))

  pub expire_intent-Follows :
      (u : ExpireIntentUpdate) (t : Table) → Follows t (expire_intent behind u t).0
  unfolding expire_intent
  expire_intent-Follows u t =
      checked-Follows t _ _ _
        (mutate-Follows _ (expirable behind u) (expired_row u) _ _ t (λ a c. ground arith))

  desired_row-Follows :
      (now : ℤ) (expected : ℕ) (id : String) (t : Table) (found : Option Sandbox)
      → lookup id t ≡ found
      → Follows t (desired_row behind now expected id t found).0
  unfolding desired_row
  desired_row-Follows now expected id t none e = Follows-refl t
  desired_row-Follows now expected id t (some a) e =
      elim (Bool-cases (a.revision == expected && terminable behind now a)) [
        | inl c ↦ rw c (
            insert-Follows id t a (bumped (terminate now) a) e (
              bumped-Succeeds (terminable behind now) (terminate now) a (λ b d. ground arith)
                (and_split _ _ c).1))
        | inr c ↦ rw c (checked-Follows t _ conflict (t, ok a) (Follows-refl t))
      ]

  pub update_desired-Follows :
      (now : ℤ) (id : String) (desired : DesiredState) (expected : ℕ) (t : Table)
      → Follows t (update_desired behind now id desired expected t).0
  unfolding update_desired
  update_desired-Follows now id desired expected t =
      checked-Follows t _ _ _ (desired_row-Follows now expected id t (lookup id t) refl)

pub schedule_retry-Follows : (u : RetryUpdate) (t : Table) → Follows t (schedule_retry u t).0
unfolding schedule_retry
schedule_retry-Follows u t =
    checked-Follows t _ _ _
      (mutate-Follows _ (retriable u) (retried_row u) _ _ t (λ a c. ground arith))

pub reset_retry-Follows : (u : RetryResetUpdate) (t : Table) → Follows t (reset_retry u t).0
unfolding reset_retry
reset_retry-Follows u t =
    checked-Follows t _ _ _
      (mutate-Follows _ (resettable u) (reset_row u) _ _ t (λ a c. ground arith))

pub record_health_result-Follows :
    (u : HealthResultUpdate) (t : Table) → Follows t (record_health_result u t).0
unfolding record_health_result
record_health_result-Follows u t =
    checked-Follows t _ _ _
      (mutate-Follows _ (checkable u) (checked_row u) _ _ t (λ a c. ground arith))
