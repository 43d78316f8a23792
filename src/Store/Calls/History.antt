-- ===== src/Store/Calls/History.antt =====
-- The history of the records of internal/store/sqlite/store.go.
use mini_sand_box.Prelude.{
  ℕ, ◌≡◌, refl, Bool, true, false, String, List, [], ◌∷◌, Option, none, some, Result, err, str_eq,
  eq_iff, if◌then◌else◌, Bool-cases, inl, inr,
}
use mini_sand_box.Prelude.Int.{ℤ}
use mini_sand_box.Prelude.Maps.{lookup, insert, lookup-insert}
use mini_sand_box.Domain.Sandboxes.{Sandbox, SandboxSpec}
use mini_sand_box.Store.Lifecycle.{Table, StoreError, transact}
use mini_sand_box.Store.Lifecycle.History.{
  Follows, Follows-refl, Follows-trans, update_observed-Follows, renew-Follows,
  expire_intent-Follows, update_desired-Follows, schedule_retry-Follows, reset_retry-Follows,
  record_health_result-Follows,
}
use mini_sand_box.Store.Tokens.{StoredIdempotencyResponse}
use mini_sand_box.Store.Creates.{
  Database, IdempotentCreateRequest, create_non_idempotent, import_recovered, inserted,
  insert_found, insert_atomic_sandbox, admitted, IdempotencyRecord,
}
use mini_sand_box.Store.Creates.Idempotent.{
  create_idempotent, idempotent_inserted, idempotent_admitted, idempotent_found,
}
use mini_sand_box.Store.Calls.{
  Update, observed, desired, renewed, expired, retried, reset, checked, StoreCall, idempotent,
  plain, recovered, update, write, act, run,
}

-- A new row.
fresh-Follows :
    (s : Sandbox) (key : String) (t : Table) → lookup key t ≡ none → Follows t (insert key s t)
fresh-Follows s key t e other = elim (Bool-cases (str_eq key other)) [
  | inl same ↦
      let k = (eq_iff key other).0 same in rw (lookup-insert key other s t, same) (rw (← k, e) tt)
  | inr apart ↦ rw (lookup-insert key other s t, apart) (Follows-refl t other)
]

insert_found-Follows :
    (s : Sandbox) (t : Table) (found : Option Sandbox)
    → lookup s.id t ≡ found
    → Follows t (insert_found s t found).0
unfolding insert_found
insert_found-Follows s t (some row) e = Follows-refl t
insert_found-Follows s t none e = fresh-Follows _ s.id t e

insert_atomic_sandbox-Follows : (s : Sandbox) (t : Table) → Follows t (insert_atomic_sandbox s t).0
unfolding insert_atomic_sandbox
insert_atomic_sandbox-Follows s t = insert_found-Follows s t (lookup s.id t) refl

inserted-Follows :
    (s : Sandbox) (db : Database) (answer : Table × Option StoreError)
    → Follows db.sandboxes answer.0
    → Follows db.sandboxes (inserted s db answer).0.sandboxes
unfolding inserted
inserted-Follows s db (t, some e) f = Follows-refl db.sandboxes
inserted-Follows s db (t, none) f = f

idempotent_inserted-Follows :
    (r : IdempotentCreateRequest) (db : Database) (answer : Table × Option StoreError)
    → Follows db.sandboxes answer.0
    → Follows db.sandboxes (idempotent_inserted r db answer).0.sandboxes
unfolding idempotent_inserted
idempotent_inserted-Follows r db (t, some e) f = Follows-refl db.sandboxes
idempotent_inserted-Follows r db (t, none) f = f

admitted-Follows :
    (s : Sandbox) (db : Database) (refusal : Option StoreError)
    → Follows db.sandboxes (admitted s db refusal).0.sandboxes
unfolding admitted
admitted-Follows s db (some e) = Follows-refl db.sandboxes
admitted-Follows s db none = inserted-Follows s db _ (insert_atomic_sandbox-Follows s db.sandboxes)

idempotent_admitted-Follows :
    (r : IdempotentCreateRequest) (db : Database) (refusal : Option StoreError)
    → Follows db.sandboxes (idempotent_admitted r db refusal).0.sandboxes
unfolding idempotent_admitted
idempotent_admitted-Follows r db (some e) = Follows-refl db.sandboxes
idempotent_admitted-Follows r db none =
    idempotent_inserted-Follows r db _ (insert_atomic_sandbox-Follows r.sandbox db.sandboxes)

idempotent_found-Follows :
    (decode : List ℕ → Option StoredIdempotencyResponse) (r : IdempotentCreateRequest)
    (db : Database) (found : Option IdempotencyRecord)
    → Follows db.sandboxes (idempotent_found decode r db found).0.sandboxes
unfolding idempotent_found
idempotent_found-Follows decode r db (some old) =
    elim (Bool-cases (str_eq old.request_hash r.request_hash)) [
      | inl e ↦ rw e (Follows-refl db.sandboxes)
      | inr e ↦ rw e (Follows-refl db.sandboxes)
    ]
idempotent_found-Follows decode r db none = idempotent_admitted-Follows r db _

-- A transaction that is checked first and carried out or rolled back.
guarded-Follows {ℓ} :
    {A : Type ℓ} (refuses committed : Bool) (e : StoreError)
    (f : Database → Database × Result StoreError A) (db : Database)
    → Follows db.sandboxes (f db).0.sandboxes
    → Follows db.sandboxes (if refuses then (db, err e) else transact committed f db).0.sandboxes
unfolding transact
guarded-Follows true committed e f db h = Follows-refl db.sandboxes
guarded-Follows false true e f db h = h
guarded-Follows false false e f db h = Follows-refl db.sandboxes

module _ (behind : ℤ → ℤ → Bool) where
  write-Follows : (u : Update) (t : Table) → Follows t (write behind u t).0
  unfolding write
  write-Follows (observed now u) t = update_observed-Follows now u t
  write-Follows (desired now id d expected) t = update_desired-Follows behind now id d expected t
  write-Follows (renewed u) t = renew-Follows behind u t
  write-Follows (expired u) t = expire_intent-Follows behind u t
  write-Follows (retried u) t = schedule_retry-Follows u t
  write-Follows (reset u) t = reset_retry-Follows u t
  write-Follows (checked u) t = record_health_result-Follows u t

  -- A write that is carried out or rolled back.
  pub transact-write-Follows :
      (committed : Bool) (u : Update) (t : Table)
      → Follows t (transact committed (write behind u) t).0
  unfolding transact
  transact-write-Follows true u t = write-Follows u t
  transact-write-Follows false u t = Follows-refl t

  module _ (hash : SandboxSpec → String) (decode : List ℕ → Option StoredIdempotencyResponse)
      (json_valid : List ℕ → Bool) where
    act-Follows :
        (committed : Bool) (call : StoreCall) (db : Database)
        → Follows db.sandboxes (act behind hash decode json_valid committed call db).sandboxes
    unfolding act create_idempotent create_non_idempotent import_recovered
    act-Follows committed (idempotent r) db =
        guarded-Follows _ committed _ _ db (idempotent_found-Follows decode r db _)
    act-Follows committed (plain max s) db =
        guarded-Follows _ committed _ _ db (admitted-Follows s db _)
    act-Follows committed (recovered s) db =
        guarded-Follows _ committed _ _ db
          (inserted-Follows s db _ (insert_atomic_sandbox-Follows s db.sandboxes))
    act-Follows committed (update u) db = transact-write-Follows committed u db.sandboxes

    -- Over any list of creates, imports and updates, each carried out or rolled back, every record
    -- stays in the table: its ID, specification, hash, time of creation and origin do not change, the
    -- wish to terminate it is never withdrawn, its revision never falls, and a record with the same
    -- revision is the same record.
    pub run-Follows :
        (calls : List (Bool × StoreCall)) (db : Database)
        → Follows db.sandboxes (run behind hash decode json_valid calls db).sandboxes
    unfolding run
    run-Follows [] db = Follows-refl db.sandboxes
    run-Follows ((committed, call) ∷ calls) db =
        let next = act behind hash decode json_valid committed call db in
        Follows-trans db.sandboxes next.sandboxes
          (run behind hash decode json_valid calls next).sandboxes (act-Follows committed call db)
          (run-Follows calls next)
