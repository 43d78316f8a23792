-- ===== src/Application/Renew/Commit.antt =====
-- What a renewal of internal/application/renew.go has done when it returns a record, whatever other
-- writers do between its reads and its writes.
use mini_sand_box.Prelude.{
  ℕ, zero, suc, ◌+◌, ◌*◌, ◌≡◌, ◌⊎◌, inl, inr, refl, subst, ◌∙◌, ap, Bool, true, false, String,
  Option, none, some, Result, ok, err, is_empty, Bool-cases, arith,
}
use mini_sand_box.Prelude.Int.{ℤ, lt, eq, ◌+ℤ◌}
use mini_sand_box.Domain.States.{is_state, is_desired, desired_running, terminated}
use mini_sand_box.Domain.Sandboxes.{Sandbox}
use mini_sand_box.Application.Renew.{
  RenewError, conflict, RenewUpdate, RenewValidation, RenewPolicy, lives, validate_extension,
  validate_renew, LeaseStore, update_of, with_read, after_write, after_validation, renew_loop,
  renew, renew_cas_attempts,
}

-- The lease ends before the requested time.
abbrev pub ends_before : ℤ → Option ℤ → Bool
ends_before requested none = false
ends_before requested (some expires) = lt expires requested

-- The lease ends at the requested time.
abbrev pub ends_at : ℤ → Option ℤ → Bool
ends_at requested none = false
ends_at requested (some expires) = eq requested expires

-- A record whose lease may be extended to the requested time.
pub record IsExtensible (policy : RenewPolicy) (now requested : ℤ) (current : Sandbox)
    : Type 0 where
  pub wanted : is_desired current.desired_state desired_running ≡ true
  pub alive : is_state current.observed_state terminated ≡ false
  pub leased : lives now current.expires_at ≡ true
  pub longer : ends_before requested current.expires_at ≡ true
  pub at_least : lt requested (now +ℤ policy.minimum_ttl) ≡ false
  pub at_most : lt (now +ℤ policy.maximum_ttl) requested ≡ false

-- A record that asks for no change: it runs, its lease has not ended by this reading of the clock,
-- and ends at the requested time.
pub record IsIdle (now requested : ℤ) (current : Sandbox) : Type 0 where
  pub wanted : is_desired current.desired_state desired_running ≡ true
  pub alive : is_state current.observed_state terminated ≡ false
  pub leased : lives now current.expires_at ≡ true
  pub ends : ends_at requested current.expires_at ≡ true

-- What a validation without an error says.
record Validated (policy : RenewPolicy) (now requested : ℤ) (current : Sandbox)
    (d : RenewValidation) : Type 0 where
  asks : d.requested_expires_at ≡ requested
  at : d.now ≡ now
  either :
      ((d.no_op ≡ true) × IsIdle now requested current)
      ⊎ ((d.no_op ≡ false) × IsExtensible policy now requested current)

extension_Validated :
    (policy : RenewPolicy) (now requested : ℤ) (expires : Option ℤ) (d : RenewValidation)
    → validate_extension policy now requested expires ≡ ok d
    → (d.requested_expires_at ≡ requested)
      × (d.now ≡ now)
      × (((d.no_op ≡ true) × (ends_at requested expires ≡ true))
          ⊎ ((d.no_op ≡ false)
              × (ends_before requested expires ≡ true)
              × (lt requested (now +ℤ policy.minimum_ttl) ≡ false)
              × (lt (now +ℤ policy.maximum_ttl) requested ≡ false)))
unfolding validate_extension
extension_Validated policy now requested none d h = ground arith
extension_Validated policy now requested (some expires) d h = ground arith

validate_Validated :
    (policy : RenewPolicy) (now requested : ℤ) (current : Sandbox) (d : RenewValidation)
    → validate_renew policy now current requested ≡ ok d
    → Validated policy now requested current d
unfolding validate_renew
validate_Validated policy now requested current d h =
    let e = extension_Validated policy now requested current.expires_at d in ground arith

-- The row that a renewal writes: the end of the lease, the next attempt, the time of the update and
-- the revision change, and nothing else.
abbrev pub extended : RenewUpdate → Sandbox → Sandbox
extended u old = record old {
  revision = old.revision + 1;
  expires_at = some u.expires_at;
  next_reconcile_at = some u.now;
  updated_at = u.now;
}

-- What a renewal relies on: a write that succeeds has found the expected revision and has written
-- `extended`; two records with one revision are the same record, whatever other
-- writers did in between; and the waker leaves the record.
pub record IsLeaseStore {S : Type 0} (store : LeaseStore S) : Type 0 where
  pub renews :
      (u : RenewUpdate) (s t : S) (r : Sandbox)
      → store.renew u s ≡ (t, ok r)
      → (old : Sandbox) × (store.get s ≡ ok old)
        × (old.revision ≡ u.expected_revision)
        × (store.get t ≡ ok r)
        × (r ≡ extended u old)
  pub one_revision :
      (n : ℕ) (s : S) (a b : Sandbox)
      → store.get s ≡ ok a
      → store.get (store.others n s) ≡ ok b
      → b.revision ≡ a.revision
      → b ≡ a
  pub wakes : (id : String) (s : S) → store.get (store.wake id s) ≡ store.get s

-- What the store can become while a renewal has written nothing: other writers come in, and writes
-- of the renewal are refused.
pub data Waits {S : Type 0} (store : LeaseStore S) (s : S) : S → Type 0 where
  at_once : Waits store s s
  others_came : (n : ℕ) (t : S) → Waits store s t → Waits store s (store.others n t)
  write_refused :
      (u : RenewUpdate) (t v : S) (e : RenewError)
      → Waits store s t
      → store.renew u t ≡ (v, err e)
      → Waits store s v

-- A renewal without a write: the store is one that it has written nothing to, and has the record.
pub record Unwritten {S : Type 0} (store : LeaseStore S) (clock : ℕ → ℤ) (requested : ℤ) (s t : S)
    (r : Sandbox) : Type 0 where
  pub attempt : ℕ
  pub waited : Waits store s t
  pub stored : store.get t ≡ ok r
  pub idle : IsIdle (clock attempt) requested r

-- A renewal with one write, to a store that it has written nothing to before: the record there could
-- be extended, by the reading of the clock in that attempt, and the result is that record extended.
pub record Extended {S : Type 0} (store : LeaseStore S) (policy : RenewPolicy) (clock : ℕ → ℤ)
    (requested : ℤ) (s t : S) (r : Sandbox) : Type 0 where
  pub attempt : ℕ
  pub before : S
  pub old : Sandbox
  pub update : RenewUpdate
  pub waited : Waits store s before
  pub stored_before : store.get before ≡ ok old
  pub extensible : IsExtensible policy (clock attempt) requested old
  pub asks : (update.now ≡ clock attempt) × (update.expires_at ≡ requested)
  pub wrote : t ≡ store.wake r.id (store.renew update before).0
  pub stored : store.get t ≡ ok r
  pub written : r ≡ extended update old

module _ {S : Type 0} (store : LeaseStore S) (policy : RenewPolicy) (clock : ℕ → ℤ) (requested : ℤ)
    (contract : IsLeaseStore store) where
  -- Nothing was written, since nothing was to change, or the lease was extended by one write.
  abbrev pub Renewed : S → S → Sandbox → Type 0
  Renewed s t r =
      Unwritten store clock requested s t r ⊎ Extended store policy clock requested s t r

  abbrev Keeps : S → (Sandbox → S → S × Result RenewError Sandbox) → Type 0
  Keeps first next =
      (c : Sandbox) (s t : S) (r : Sandbox)
      → Waits store first s
      → store.get s ≡ ok c
      → next c s ≡ (t, ok r)
      → Renewed first t r

  with_read-Keeps :
      (next : Sandbox → S → S × Result RenewError Sandbox) (first s t : S) (r : Sandbox)
      (found : Result RenewError Sandbox)
      → Keeps first next
      → Waits store first s
      → store.get s ≡ found
      → with_read store policy clock requested next s found ≡ (t, ok r)
      → Renewed first t r
  unfolding with_read
  with_read-Keeps next first s t r (err e) k i f h = ground arith
  with_read-Keeps next first s t r (ok c) k i f h = k c s t r i f h

  after_write-Keeps :
      (n : ℕ) (next : Sandbox → S → S × Result RenewError Sandbox) (first s t : S) (r : Sandbox)
      (answer : Result RenewError Sandbox)
      → Keeps first next
      → ((u : Sandbox) → answer ≡ ok u → Renewed first (store.wake u.id s) u)
      → ((e : RenewError) → answer ≡ err e → Waits store first s)
      → after_write store policy clock requested n next (s, answer) ≡ (t, ok r)
      → Renewed first t r
  unfolding after_write
  after_write-Keeps n next first s t r (ok u) k w i h =
      let same_store : store.wake u.id s ≡ t = ap (λ x. x.0) h in
      let same : u ≡ r = ground arith in
      subst (λ x. Renewed first x r) same_store
        (subst (λ x. Renewed first (store.wake u.id s) x) same (w u refl))
  after_write-Keeps zero next first s t r (err conflict) k w i h = ground arith
  after_write-Keeps (suc n) next first s t r (err conflict) k w i h =
      with_read-Keeps next first (store.others (2 * n + 1) s) t r
        (store.get (store.others (2 * n + 1) s)) k (others_came (2 * n + 1) s (i conflict refl))
        refl h
  after_write-Keeps n next first s t r (err e) k w i h = ground arith

  -- A write that succeeds, after a validation of the record that was read.
  written_Extended :
      (n : ℕ) (current : Sandbox) (d : RenewValidation) (first s t : S) (r : Sandbox)
      → Waits store first s
      → store.get s ≡ ok current
      → d.requested_expires_at ≡ requested
      → d.now ≡ clock n
      → IsExtensible policy (clock n) requested current
      → store.renew (update_of store policy clock requested current d) (store.others (2 * n) s)
        ≡ (t, ok r)
      → Extended store policy clock requested first (store.wake r.id t) r
  written_Extended n current d first s t r i read asked read_at x written =
      let u = update_of store policy clock requested current d in
      let (old, found, revision, stored, change) = contract.renews _ _ t r written in
      let same = contract.one_revision (2 * n) s current old read found revision in
      record {
        attempt = n;
        before = store.others (2 * n) s;
        old = current;
        update = u;
        waited = others_came (2 * n) s i;
        stored_before = rw (← same) found;
        extensible = x;
        asks = (read_at, asked);
        wrote = rw written refl;
        stored = contract.wakes r.id t ∙ stored;
        written = change ∙ ap (extended u) same;
      }

  after_validation-Keeps :
      (n : ℕ) (next : Sandbox → S → S × Result RenewError Sandbox) (current : Sandbox)
      (first s t : S) (r : Sandbox) (v : Result RenewError RenewValidation)
      → Keeps first next
      → Waits store first s
      → store.get s ≡ ok current
      → validate_renew policy (clock n) current requested ≡ v
      → after_validation store policy clock requested n next current s v ≡ (t, ok r)
      → Renewed first t r
  unfolding after_validation
  after_validation-Keeps n next current first s t r (err e) k i read valid h = ground arith
  after_validation-Keeps n next current first s t r (ok d) k i read valid h =
      let v = validate_Validated policy (clock n) requested current d valid in
      elim v.either [
        | inl (no_op, idle) ↦
            let same : s ≡ t = ground arith in
            let result : current ≡ r = ground arith in
            inl (
              subst (λ x. Unwritten store clock requested first x r) same
                (subst (λ x. Unwritten store clock requested first s x) result
                  (record { attempt = n; waited = i; stored = read; idle = idle })))
        | inr (moves, x) ↦
            let u = update_of store policy clock requested current d in
            let answer = store.renew u (store.others (2 * n) s) in
            after_write-Keeps n next first answer.0 t r answer.1 k
              (λ row e. inr (
                written_Extended n current d first s answer.0 row i read v.asks v.at x
                  (ap (λ o. (answer.0, o)) e)))
              (λ f e.
                write_refused u (store.others (2 * n) s) answer.0 f (others_came (2 * n) s i)
                  (ap (λ o. (answer.0, o)) e))
              (rw moves at h)
      ]

  renew_loop-Keeps : (n : ℕ) (first : S) → Keeps first (renew_loop store policy clock requested n)
  unfolding renew_loop
  renew_loop-Keeps zero first current s t r i read h = ground arith
  renew_loop-Keeps (suc n) first current s t r i read h =
      after_validation-Keeps n (λ c u. renew_loop store policy clock requested n c u) current first
        s t r (validate_renew policy (clock n) current requested) (renew_loop-Keeps n first) i read
        refl h

  -- With a store that keeps the contract, whatever other writers do between the reads and the writes
  -- of the loop, a renewal that returns a record has left it in the store, in one of two ways.
  -- Either it has written nothing, and the record is desired running, not terminated, not expired by
  -- a reading of the clock and its lease ends at the requested time. Or it has written once, to a
  -- record that was desired running, not terminated, not expired by a reading of the clock and with
  -- an earlier end of its lease, by a request within the bounds of the policy at that time, and the
  -- result is that record with the requested end, the next revision, and that time as its next
  -- attempt and its update.
  pub renew-Renewed :
      (id : String) (s t : S) (r : Sandbox)
      → renew store policy clock requested id s ≡ (t, ok r)
      → Renewed s t r
  unfolding renew
  renew-Renewed id s t r h = elim (Bool-cases (is_empty id)) [
    | inl e ↦ ground arith
    | inr e ↦
        with_read-Keeps (renew_loop store policy clock requested renew_cas_attempts) s s t r
          (store.get s) (renew_loop-Keeps renew_cas_attempts s) at_once refl (rw e at h)
  ]
