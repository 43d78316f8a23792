-- ===== src/Store/Creates/Admission.antt =====
-- The limit on the sandboxes in internal/store/sqlite/store.go.
use mini_sand_box.Prelude.{
  ℕ, ◌+◌, ◌≡◌, ◌⊎◌, refl, Bool, true, false, String, str_eq, List, Option, none, some, Result, err,
  Bool-cases, inl, inr, if◌then◌else◌, arith,
}
use mini_sand_box.Prelude.Int.{ℤ, pos, ◌≤ℤ◌}
use mini_sand_box.Prelude.Maps.{lookup, sum-insert}
use mini_sand_box.Domain.Sandboxes.{Sandbox, SandboxSpec}
use mini_sand_box.Store.Lifecycle.{Table, StoreError, transact}
use mini_sand_box.Store.Tokens.{StoredIdempotencyResponse}
use mini_sand_box.Store.Creates.{
  Database, IdempotentCreateRequest, IdempotencyRecord, active, active_one,
  enforce_sandbox_admission, insert_found, insert_atomic_sandbox, inserted, admitted,
  create_non_idempotent,
}
use mini_sand_box.Store.Creates.Idempotent.{
  idempotent_inserted, idempotent_admitted, idempotent_found, create_idempotent,
}

-- The sandboxes that are not terminated stay below a bound, or nothing was inserted.
abbrev pub Bounded : ℤ → Table → Table → Type 0
Bounded max before after = (after ≡ before) ⊎ (pos (active after) ≤ℤ max)

insert_found-active :
    (s : Sandbox) (t : Table) (found : Option Sandbox)
    → lookup s.id t ≡ found
    → ((insert_found s t found).0 ≡ t)
      ⊎ (active (insert_found s t found).0 ≡ active t + active_one s)
unfolding insert_found active
insert_found-active s t (some row) e = inl refl
insert_found-active s t none e =
    let total = sum-insert active_one s.id (record s { revision = 1 }) t in
    let added = rw e at total in inr (omega (arith, added))

insert_atomic_sandbox-active :
    (s : Sandbox) (t : Table)
    → ((insert_atomic_sandbox s t).0 ≡ t)
      ⊎ (active (insert_atomic_sandbox s t).0 ≡ active t + active_one s)
unfolding insert_atomic_sandbox
insert_atomic_sandbox-active s t = insert_found-active s t (lookup s.id t) refl

-- A sandbox that is admitted counts one at most.
insert_admitted :
    (max : ℤ) (s : Sandbox) (t : Table)
    → enforce_sandbox_admission max t ≡ none
    → Bounded max t (insert_atomic_sandbox s t).0
unfolding enforce_sandbox_admission
insert_admitted max s t h = elim (insert_atomic_sandbox-active s t) [
  | inl e ↦ inl e
  | inr e ↦ inr (rw e (ground arith))
]

inserted-Bounded :
    (max : ℤ) (s : Sandbox) (db : Database) (answer : Table × Option StoreError)
    → Bounded max db.sandboxes answer.0
    → Bounded max db.sandboxes (inserted s db answer).0.sandboxes
unfolding inserted
inserted-Bounded max s db (t, some e) b = inl refl
inserted-Bounded max s db (t, none) b = b

admitted-Bounded :
    (max : ℤ) (s : Sandbox) (db : Database) (refusal : Option StoreError)
    → enforce_sandbox_admission max db.sandboxes ≡ refusal
    → Bounded max db.sandboxes (admitted s db refusal).0.sandboxes
unfolding admitted
admitted-Bounded max s db (some e) h = inl refl
admitted-Bounded max s db none h =
    inserted-Bounded max s db _ (insert_admitted max s db.sandboxes h)

idempotent_inserted-Bounded :
    (r : IdempotentCreateRequest) (db : Database) (answer : Table × Option StoreError)
    → Bounded r.max_sandboxes db.sandboxes answer.0
    → Bounded r.max_sandboxes db.sandboxes (idempotent_inserted r db answer).0.sandboxes
unfolding idempotent_inserted
idempotent_inserted-Bounded r db (t, some e) b = inl refl
idempotent_inserted-Bounded r db (t, none) b = b

idempotent_admitted-Bounded :
    (r : IdempotentCreateRequest) (db : Database) (refusal : Option StoreError)
    → enforce_sandbox_admission r.max_sandboxes db.sandboxes ≡ refusal
    → Bounded r.max_sandboxes db.sandboxes (idempotent_admitted r db refusal).0.sandboxes
unfolding idempotent_admitted
idempotent_admitted-Bounded r db (some e) h = inl refl
idempotent_admitted-Bounded r db none h =
    idempotent_inserted-Bounded r db _ (insert_admitted r.max_sandboxes r.sandbox db.sandboxes h)

idempotent_found-Bounded :
    (decode : List ℕ → Option StoredIdempotencyResponse) (r : IdempotentCreateRequest)
    (db : Database) (found : Option IdempotencyRecord)
    → Bounded r.max_sandboxes db.sandboxes (idempotent_found decode r db found).0.sandboxes
unfolding idempotent_found
idempotent_found-Bounded decode r db (some old) =
    elim (Bool-cases (str_eq old.request_hash r.request_hash)) [
      | inl e ↦ rw e (inl refl)
      | inr e ↦ rw e (inl refl)
    ]
idempotent_found-Bounded decode r db none = idempotent_admitted-Bounded r db _ refl

guarded_Bounded {ℓ} :
    {A : Type ℓ} (max : ℤ) (refuses committed : Bool) (e : StoreError)
    (f : Database → Database × Result StoreError A) (db : Database)
    → Bounded max db.sandboxes (f db).0.sandboxes
    → Bounded max db.sandboxes
        (if refuses then (db, err e) else transact committed f db).0.sandboxes
unfolding transact
guarded_Bounded max true committed e f db h = inl refl
guarded_Bounded max false true e f db h = h
guarded_Bounded max false false e f db h = inl refl

-- A create, with or without an idempotency key, carried out or rolled back, leaves the table as it
-- is, or leaves no more sandboxes that are not terminated than its limit.
pub create-active :
    (hash : SandboxSpec → String) (decode : List ℕ → Option StoredIdempotencyResponse)
    (json_valid : List ℕ → Bool) (committed : Bool) (max : ℤ) (s : Sandbox)
    (r : IdempotentCreateRequest) (db : Database)
    → Bounded max db.sandboxes (create_non_idempotent hash committed max s db).0.sandboxes
      × Bounded r.max_sandboxes db.sandboxes
          (create_idempotent hash decode json_valid committed r db).0.sandboxes
unfolding create_non_idempotent create_idempotent
create-active hash decode json_valid committed max s r db = (
  guarded_Bounded max _ committed _ _ db (admitted-Bounded max s db _ refl),
  guarded_Bounded r.max_sandboxes _ committed _ _ db (idempotent_found-Bounded decode r db _),
)
