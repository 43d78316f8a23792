-- ===== src/Store/Calls/Replay.antt =====
-- The repetition of an idempotent create of internal/store/sqlite/store.go.
use mini_sand_box.Prelude.{
  ℕ, ◌≡◌, refl, ◌∙◌, sym, ap, Bool, true, ◌&&◌, String, List, [], ◌∷◌, Option, none, some, Result,
  ok, err, str_eq, eq_iff, if◌then◌else◌, Bool-cases, Option-cases, inl, inr, arith,
}
use mini_sand_box.Prelude.Int.{ℤ}
use mini_sand_box.Domain.Sandboxes.{SandboxSpec}
use mini_sand_box.Store.Lifecycle.{Table, StoreError, transact}
use mini_sand_box.Store.Tokens.{
  IdempotentResponse, StoredIdempotencyResponse, idempotency_response_schema_version,
  decode_idempotent_response,
}
use mini_sand_box.Store.Creates.{
  Database, IdempotencyRecord, IdempotentCreateRequest, IdempotentCreateResult,
  create_non_idempotent, import_recovered, insert_atomic_sandbox, enforce_sandbox_admission,
  find_record, validate_atomic_create_request,
}
use mini_sand_box.Store.Creates.Idempotent.{
  record_of, replay_of, create_idempotent, idempotent_inserted, idempotent_admitted,
  idempotent_found, readable, valid_request_fields, validate_idempotent_create_request,
}
use mini_sand_box.Store.Calls.{StoreCall, idempotent, plain, recovered, update, act, run}
use mini_sand_box.Store.Calls.Records.{
  found_in, Remembers, find_record-cons, inserted-records, admitted-records, guarded-records,
  idempotent_admitted-Remembers,
}

first_and_last : (a b c : Bool) → (a && b && c) ≡ true → (a ≡ true) × (c ≡ true)
first_and_last a b c t = ground arith

valid_request_fields-schema :
    (json_valid : List ℕ → Bool) (r : IdempotentCreateRequest)
    → valid_request_fields json_valid r ≡ true
    → r.response.schema_version ≡ idempotency_response_schema_version
unfolding valid_request_fields
valid_request_fields-schema json_valid r h = ground arith

module _ (decode : List ℕ → Option StoredIdempotencyResponse) where
  readable-decode :
      (id : String) (response : IdempotentResponse)
      → response.schema_version ≡ idempotency_response_schema_version
      → readable (
          decode_idempotent_response decode id response.status_code response.location response.body
            response.created_at)
        ≡ true
      → decode_idempotent_response decode id response.status_code response.location response.body
          response.created_at
        ≡ ok response
  unfolding decode_idempotent_response
  readable-decode id response v h = ground arith

  idempotent_found-Remembers :
      (r : IdempotentCreateRequest) (db : Database) (found : Option IdempotencyRecord)
      → found_in r db ≡ found
      → Remembers db.records (idempotent_found decode r db found).0.records
  unfolding idempotent_found
  idempotent_found-Remembers r db (some old) h =
      elim (Bool-cases (str_eq old.request_hash r.request_hash)) [
        | inl e ↦ rw e (λ scope key a found. found)
        | inr e ↦ rw e (λ scope key a found. found)
      ]
  idempotent_found-Remembers r db none h = idempotent_admitted-Remembers r db _ h

  -- The record that a result comes from.
  abbrev Answers : IdempotentCreateRequest → Database → IdempotentCreateResult → Type 0
  Answers r db a =
      (old : IdempotencyRecord) × (found_in r db ≡ some old)
      × (old.request_hash ≡ r.request_hash)
      × (old.sandbox_id ≡ a.id)
      × (decode_idempotent_response decode old.sandbox_id old.status_code old.location old.body
            old.created_at
          ≡ ok a.response)

  replayed_Answers :
      (r : IdempotentCreateRequest) (db : Database) (old : IdempotencyRecord)
      (a : IdempotentCreateResult) (response : Result StoreError IdempotentResponse)
      → found_in r db ≡ some old
      → old.request_hash ≡ r.request_hash
      → decode_idempotent_response decode old.sandbox_id old.status_code old.location old.body
          old.created_at
        ≡ response
      → replay_of old response ≡ ok a
      → Answers r db a
  replayed_Answers r db old a (ok response) f e d h =
      (old, f, e, ground arith, d ∙ ap ok (ground arith))
  replayed_Answers r db old a (err e) f g d h = ground arith

  inserted_Answers :
      (r : IdempotentCreateRequest) (db after : Database) (a : IdempotentCreateResult)
      (answer : Table × Option StoreError)
      → decode_idempotent_response decode r.sandbox.id r.response.status_code r.response.location
          r.response.body r.response.created_at
        ≡ ok r.response
      → idempotent_inserted r db answer ≡ (after, ok a)
      → Answers r after a
  unfolding idempotent_inserted find_record
  inserted_Answers r db after a (t, some e) d h = ground arith
  inserted_Answers r db after a (t, none) d h = (
    record_of r,
    ap (λ x. found_in r x.0) (sym h) ∙ find_record-cons (record_of r) db.records,
    refl,
    ground arith,
    d ∙ ap ok (ground arith),
  )

  found_Answers :
      (r : IdempotentCreateRequest) (db after : Database) (a : IdempotentCreateResult)
      (found : Option IdempotencyRecord)
      → found_in r db ≡ found
      → decode_idempotent_response decode r.sandbox.id r.response.status_code r.response.location
          r.response.body r.response.created_at
        ≡ ok r.response
      → idempotent_found decode r db found ≡ (after, ok a)
      → Answers r after a
  unfolding idempotent_found idempotent_admitted
  found_Answers r db after a (some old) f d h =
      elim (Bool-cases (str_eq old.request_hash r.request_hash)) [
        | inl e ↦
            let same = rw e at h in
            rw (← ap (λ x. x.0) same)
              (replayed_Answers r db old a _ f ((eq_iff _ _).0 e) refl (ground arith))
        | inr e ↦ ground arith
      ]
  found_Answers r db after a none f d h =
      elim (Option-cases (enforce_sandbox_admission r.max_sandboxes db.sandboxes)) [
        | inl e ↦
            inserted_Answers r db after a (insert_atomic_sandbox r.sandbox db.sandboxes) d
              (rw e at h)
        | inr (error, e) ↦ ground arith
      ]

  -- A record that stays answers every later request of its key.
  remembered_answer :
      (r later : IdempotentCreateRequest) (after db : Database) (a : IdempotentCreateResult)
      → Answers r after a
      → Remembers after.records db.records
      → later.scope_id ≡ r.scope_id
      → later.key ≡ r.key
      → idempotent_found decode later db (found_in later db) ≡ (
        db,
        if str_eq r.request_hash later.request_hash
            then ok (record a { sandbox = none; replayed = true })
            else err StoreError.idempotency_conflict,
      )
  unfolding idempotent_found
  remembered_answer r later after db a (old, f, e, i, d) m s k =
      rw (s, k, m r.scope_id r.key old f) (ground arith)

  module _ (behind : ℤ → ℤ → Bool) (hash : SandboxSpec → String) (json_valid : List ℕ → Bool) where
    valid-readable :
        (r : IdempotentCreateRequest)
        → validate_idempotent_create_request hash decode json_valid r ≡ true
        → (valid_request_fields json_valid r ≡ true)
          × (readable (
                decode_idempotent_response decode r.sandbox.id r.response.status_code
                  r.response.location r.response.body r.response.created_at)
              ≡ true)
    unfolding validate_idempotent_create_request
    valid-readable r h =
        first_and_last (valid_request_fields json_valid r)
          (validate_atomic_create_request hash r.sandbox r.max_sandboxes)
          (readable (
            decode_idempotent_response decode r.sandbox.id r.response.status_code
              r.response.location r.response.body r.response.created_at))
          h

    valid-decode :
        (r : IdempotentCreateRequest)
        → validate_idempotent_create_request hash decode json_valid r ≡ true
        → decode_idempotent_response decode r.sandbox.id r.response.status_code r.response.location
            r.response.body r.response.created_at
          ≡ ok r.response
    valid-decode r h =
        let (fields, read) = valid-readable r h in
        readable-decode r.sandbox.id r.response (valid_request_fields-schema json_valid r fields)
          read

    create_Answers :
        (r : IdempotentCreateRequest) (db after : Database) (a : IdempotentCreateResult)
        → create_idempotent hash decode json_valid true r db ≡ (after, ok a)
        → Answers r after a
    unfolding create_idempotent transact
    create_Answers r db after a h =
        elim (Bool-cases (validate_idempotent_create_request hash decode json_valid r)) [
          | inl e ↦ found_Answers r db after a (found_in r db) refl (valid-decode r e) (rw e at h)
          | inr e ↦ ground arith
        ]

    act-Remembers :
        (committed : Bool) (call : StoreCall) (db : Database)
        → Remembers db.records (act behind hash decode json_valid committed call db).records
    unfolding act create_idempotent create_non_idempotent import_recovered
    act-Remembers committed (idempotent r) db =
        guarded-records _ committed _ _ db (idempotent_found-Remembers r db _ refl)
    act-Remembers committed (plain max s) db =
        guarded-records _ committed _ _ db (rw (admitted-records s db _) (λ scope key r e. e))
    act-Remembers committed (recovered s) db =
        guarded-records _ committed _ _ db (rw (inserted-records s db _) (λ scope key r e. e))
    act-Remembers committed (update u) db = λ scope key r e. e

    run-Remembers :
        (calls : List (Bool × StoreCall)) (db : Database)
        → Remembers db.records (run behind hash decode json_valid calls db).records
    unfolding run
    run-Remembers [] db = λ scope key r e. e
    run-Remembers ((committed, call) ∷ calls) db = λ scope key r e.
        run-Remembers calls (act behind hash decode json_valid committed call db) scope key r
          (act-Remembers committed call db scope key r e)

    -- When an idempotent create has given a result and any creates, imports and updates have followed,
    -- each carried out or rolled back, another valid request with its scope and key changes nothing,
    -- whatever its limit is: with the hash of the first request it has the ID and the response of the
    -- first result, as a replay, and with another hash it is an idempotency conflict.
    pub create-replay :
        (r later : IdempotentCreateRequest) (db after : Database) (a : IdempotentCreateResult)
        (calls : List (Bool × StoreCall))
        → create_idempotent hash decode json_valid true r db ≡ (after, ok a)
        → later.scope_id ≡ r.scope_id
        → later.key ≡ r.key
        → validate_idempotent_create_request hash decode json_valid later ≡ true
        → create_idempotent hash decode json_valid true later
            (run behind hash decode json_valid calls after)
          ≡ (
            run behind hash decode json_valid calls after,
            if str_eq r.request_hash later.request_hash
                then ok (record a { sandbox = none; replayed = true })
                else err StoreError.idempotency_conflict,
          )
    unfolding create_idempotent transact
    create-replay r later db after a calls h s k v = rw v (
        remembered_answer r later after (run behind hash decode json_valid calls after) a
          (create_Answers r db after a h) (run-Remembers calls after) s k)
