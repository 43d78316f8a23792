-- ===== src/Store/Lifecycle/Renewal.antt =====
-- The renewals of internal/application/renew.go on the records of internal/store/sqlite/store.go.
use mini_sand_box.Prelude.{
  ℕ, ◌≡◌, refl, ◌∙◌, ap, Bool, not, ◌||◌, String, some, Result, ok, err, eq_refl, Option-cases, inl,
  inr, arith,
}
use mini_sand_box.Prelude.Int.{ℤ, lt}
use mini_sand_box.Prelude.Maps.{lookup, insert, lookup-insert}
use mini_sand_box.Protocol.Events.{is_zero}
use mini_sand_box.Domain.Sandboxes.{Sandbox}
use mini_sand_box.Application.Renew.{RenewError, RenewUpdate, LeaseStore}
use mini_sand_box.Application.Renew.Commit.{IsLeaseStore}
use mini_sand_box.Store.Lifecycle.{Table, StoreError, get}
use mini_sand_box.Store.Lifecycle.Updates.{renew, renewable, renewed_row}
use mini_sand_box.Store.Lifecycle.Written.{Mutated, mutate-Mutated, unrefused}
use mini_sand_box.Store.Lifecycle.History.{Follows}

abbrev pub renew_error : StoreError → RenewError
renew_error StoreError.conflict = RenewError.conflict
renew_error StoreError.invalid = RenewError.invalid
renew_error _ = RenewError.store_failed

abbrev pub lease_answer : Result StoreError Sandbox → Result RenewError Sandbox
lease_answer (ok row) = ok row
lease_answer (err e) = err (renew_error e)

renew-Mutated :
    (behind : ℤ → ℤ → Bool) (u : RenewUpdate) (s t : Table) (row : Sandbox)
    → renew behind u s ≡ (t, ok row)
    → Mutated (renewed_row u) u.expected_revision u.id s t row
unfolding renew
renew-Mutated behind u s t row h =
    mutate-Mutated StoreError.not_found (renewable behind u) (renewed_row u) u.expected_revision
      u.id s t row
      (unrefused (is_zero u.now || is_zero u.expires_at || not (lt u.now u.expires_at)) s t
        StoreError.invalid row _ h)

get_some : (key : String) (t : Table) (row : Sandbox) → lookup key t ≡ some row → get key t ≡ ok row
unfolding get
get_some key t row h = rw (get, h) refl

insert-get : (key : String) (row : Sandbox) (t : Table) → get key (insert key row t) ≡ ok row
unfolding get
insert-get key row t =
    rw (get_some key (insert key row t) row (rw (lookup-insert key key row t, eq_refl key) refl))
      refl

-- A record that was read is in the table.
lease_read :
    (key : String) (t : Table) (r : Sandbox)
    → lease_answer (get key t) ≡ ok r
    → lookup key t ≡ some r
unfolding get
lease_read key t r h = elim (Option-cases (lookup key t)) [
  | inl e ↦ ground arith
  | inr (row, e) ↦ ground arith
]

lease_answer_ok :
    (answer : Result StoreError Sandbox) (r : Sandbox) → lease_answer answer ≡ ok r → answer ≡ ok r
lease_answer_ok (ok row) r h = ground arith
lease_answer_ok (err e) r h = ground arith

-- Later rows with one revision are one row.
kept_row :
    (key : String) (t u : Table) (a b : Sandbox)
    → Follows t u
    → lookup key t ≡ some a
    → lookup key u ≡ some b
    → b.revision ≡ a.revision
    → b ≡ a
kept_row key t u a b f e g same =
    let kept = f key in let succeeds = rw (e, g) at kept in succeeds.tells same

module _ (behind : ℤ → ℤ → Bool) (key : String) (others : ℕ → Table → Table) where
  -- The store of one sandbox, for the service. A waker does not write records.
  abbrev pub sqlite_lease_store : LeaseStore Table
  sqlite_lease_store = record {
    get = λ t. lease_answer (get key t);
    renew = λ u t.
        let answer = renew behind (record u { id = key }) t in (answer.0, lease_answer answer.1);
    others = others;
    wake = λ id t. t;
  }

  -- When every other writer leaves a table that follows the one it found, as the creates, imports and
  -- updates of the store do, the store keeps what a renewal relies on: a write that succeeds has
  -- found the expected revision, and has written the record with the requested end of the lease, the
  -- next revision, and the time of the request as its next attempt and its update, and with every
  -- other field as it was; and a revision is never used for two records.
  pub sqlite_lease_store-IsLeaseStore :
      ((n : ℕ) (t : Table) → Follows t (others n t)) → IsLeaseStore sqlite_lease_store
  sqlite_lease_store-IsLeaseStore follows = record {
    renews = λ u s t r h.
        let answer = renew behind (record u { id = key }) s in
        let gave = lease_answer_ok answer.1 r (ap (λ x. x.1) h) in
        let (old, found, revision, change, wrote) =
          renew-Mutated behind (record u { id = key }) s t r (ground arith) in
        (
          old,
          ap lease_answer (get_some key s old found),
          revision,
          ap (λ x. lease_answer (get key x)) wrote ∙ ap lease_answer (insert-get key r s),
          change,
        );
    one_revision = λ n s a b read later e.
        kept_row key s (others n s) a b (follows n s) (lease_read key s a read)
          (lease_read key (others n s) b later) e;
    wakes = λ id s. refl;
  }
