-- ===== src/Store/Calls/Records.antt =====
-- The idempotency records of internal/store/sqlite/store.go stay when a call comes back.
use mini_sand_box.Prelude.{
  ◌≡◌, refl, Bool, true, false, String, List, ◌∷◌, Option, none, some, Result, err, eq_iff, eq_refl,
  if◌then◌else◌, arith,
}
use mini_sand_box.Domain.Sandboxes.{Sandbox}
use mini_sand_box.Store.Lifecycle.{Table, StoreError, transact}
use mini_sand_box.Store.Creates.{
  Database, IdempotencyRecord, IdempotentCreateRequest, inserted, admitted, find_record,
}
use mini_sand_box.Store.Creates.Idempotent.{record_of, idempotent_inserted, idempotent_admitted}

abbrev pub found_in : IdempotentCreateRequest → Database → Option IdempotencyRecord
found_in r db = find_record r.scope_id r.key db.records

-- The records of the keys stay when a call comes back.
abbrev pub Remembers : List IdempotencyRecord → List IdempotencyRecord → Type 0
Remembers old new =
    (scope key : String) (r : IdempotencyRecord)
    → find_record scope key old ≡ some r
    → find_record scope key new ≡ some r

pub cons-Remembers :
    (r : IdempotencyRecord) (old : List IdempotencyRecord)
    → find_record r.scope_id r.key old ≡ none
    → Remembers old (r ∷ old)
unfolding find_record
cons-Remembers r old e scope key found h = ground (arith, eq_iff r.scope_id scope, eq_iff r.key key)

pub find_record-cons :
    (r : IdempotencyRecord) (old : List IdempotencyRecord)
    → find_record r.scope_id r.key (r ∷ old) ≡ some r
unfolding find_record
find_record-cons r old = ground (arith, eq_refl r.scope_id, eq_refl r.key)

pub inserted-records :
    (s : Sandbox) (db : Database) (answer : Table × Option StoreError)
    → (inserted s db answer).0.records ≡ db.records
unfolding inserted
inserted-records s db (t, some e) = refl
inserted-records s db (t, none) = refl

pub admitted-records :
    (s : Sandbox) (db : Database) (refusal : Option StoreError)
    → (admitted s db refusal).0.records ≡ db.records
unfolding admitted
admitted-records s db (some e) = refl
admitted-records s db none = inserted-records s db _

pub guarded-records {ℓ} :
    {A : Type ℓ} (refuses committed : Bool) (e : StoreError)
    (f : Database → Database × Result StoreError A) (db : Database)
    → Remembers db.records (f db).0.records
    → Remembers db.records (if refuses then (db, err e) else transact committed f db).0.records
unfolding transact
guarded-records true committed e f db h = λ scope key r found. found
guarded-records false true e f db h = h
guarded-records false false e f db h = λ scope key r found. found

pub idempotent_inserted-Remembers :
    (r : IdempotentCreateRequest) (db : Database) (answer : Table × Option StoreError)
    → found_in r db ≡ none
    → Remembers db.records (idempotent_inserted r db answer).0.records
unfolding idempotent_inserted
idempotent_inserted-Remembers r db (t, some e) h = λ scope key old found. found
idempotent_inserted-Remembers r db (t, none) h = cons-Remembers (record_of r) db.records h

pub idempotent_admitted-Remembers :
    (r : IdempotentCreateRequest) (db : Database) (refusal : Option StoreError)
    → found_in r db ≡ none
    → Remembers db.records (idempotent_admitted r db refusal).0.records
unfolding idempotent_admitted
idempotent_admitted-Remembers r db (some e) h = λ scope key old found. found
idempotent_admitted-Remembers r db none h = idempotent_inserted-Remembers r db _ h
