-- ===== src/Store/Creates/Idempotent.antt =====
-- internal/store/sqlite/store.go: the creation of a sandbox with an idempotency key, and the answer to
-- its repetition.
use mini_sand_box.Prelude.{
  ℕ, Bool, true, false, not, ◌&&◌, String, List, ◌∷◌, Option, none, some, Result, ok, err, length,
  leb, str_eq, ◌==◌, if◌then◌else◌,
}
use mini_sand_box.Prelude.Int.{pos, eq}
use Prim.Native.String.{len}
use mini_sand_box.Protocol.Events.{is_zero}
use mini_sand_box.Domain.Sandboxes.{SandboxSpec}
use mini_sand_box.Store.Lifecycle.{Table, StoreError, invalid, idempotency_conflict, transact}
use mini_sand_box.Store.Tokens.{
  IdempotentResponse, StoredIdempotencyResponse, valid_idempotency_token, valid_lower_hex_hash,
  max_idempotency_response_bytes, idempotency_response_schema_version, decode_idempotent_response,
}
use mini_sand_box.Store.Creates.{
  IdempotencyRecord, Database, IdempotentCreateRequest, IdempotentCreateResult,
  enforce_sandbox_admission, insert_atomic_sandbox, find_record, validate_atomic_create_request,
}

abbrev pub IdempotentAnswer : Type 0
IdempotentAnswer = Database × Result StoreError IdempotentCreateResult

abbrev pub record_of : IdempotentCreateRequest → IdempotencyRecord
record_of r = record {
  scope_id = r.scope_id;
  key = r.key;
  request_hash = r.request_hash;
  sandbox_id = r.sandbox.id;
  status_code = r.response.status_code;
  location = r.response.location;
  body = r.response.body;
  created_at = r.response.created_at;
}

abbrev pub replay_of :
    IdempotencyRecord
    → Result StoreError IdempotentResponse
    → Result StoreError IdempotentCreateResult
replay_of record_found (err e) = err e
replay_of record_found (ok response) =
    ok (record {
      id = record_found.sandbox_id;
      sandbox = none;
      response = response;
      replayed = true;
    })

unfoldable pub idempotent_inserted :
    IdempotentCreateRequest → Database → Table × Option StoreError → IdempotentAnswer
idempotent_inserted r db (t, some e) = (db, err e)
idempotent_inserted r db (t, none) = (
  record { sandboxes = t; records = record_of r ∷ db.records },
  ok (record {
    id = r.sandbox.id;
    sandbox = some (record r.sandbox { revision = 1 });
    response = r.response;
    replayed = false;
  }),
)

unfoldable pub idempotent_admitted :
    IdempotentCreateRequest → Database → Option StoreError → IdempotentAnswer
unfolding idempotent_inserted insert_atomic_sandbox
idempotent_admitted r db (some e) = (db, err e)
idempotent_admitted r db none =
    idempotent_inserted r db (insert_atomic_sandbox r.sandbox db.sandboxes)

abbrev pub readable : Result StoreError IdempotentResponse → Bool
readable (ok r) = true
readable (err e) = false

-- The record of the key is looked at before the limit.
unfoldable pub idempotent_found :
    (List ℕ → Option StoredIdempotencyResponse)
    → IdempotentCreateRequest
    → Database
    → Option IdempotencyRecord
    → IdempotentAnswer
unfolding idempotent_admitted enforce_sandbox_admission decode_idempotent_response
idempotent_found decode r db (some old) =
    if not (str_eq old.request_hash r.request_hash) then (db, err idempotency_conflict) else (
      db,
      replay_of old (
          decode_idempotent_response decode old.sandbox_id old.status_code old.location old.body
            old.created_at),
    )
idempotent_found decode r db none =
    idempotent_admitted r db (enforce_sandbox_admission r.max_sandboxes db.sandboxes)

unfoldable pub valid_request_fields : (List ℕ → Bool) → IdempotentCreateRequest → Bool
unfolding valid_idempotency_token valid_lower_hex_hash
valid_request_fields json_valid r =
    valid_idempotency_token r.scope_id 64
    && valid_idempotency_token r.key 128
    && valid_lower_hex_hash r.request_hash
    && r.response.schema_version == idempotency_response_schema_version
    && eq r.response.status_code (pos 202)
    && not (is_zero r.response.created_at)
    && leb 1 (len r.response.location)
    && leb (len r.response.location) 1024
    && leb 2 (length r.response.body)
    && leb (length r.response.body) max_idempotency_response_bytes
    && json_valid r.response.body

module _ (hash : SandboxSpec → String) (decode : List ℕ → Option StoredIdempotencyResponse)
    (json_valid : List ℕ → Bool) where
  unfoldable pub validate_idempotent_create_request : IdempotentCreateRequest → Bool
  unfolding valid_request_fields validate_atomic_create_request decode_idempotent_response
  validate_idempotent_create_request r =
      valid_request_fields json_valid r
      && validate_atomic_create_request hash r.sandbox r.max_sandboxes
      && readable (
          decode_idempotent_response decode r.sandbox.id r.response.status_code r.response.location
            r.response.body r.response.created_at)

  unfoldable pub create_idempotent : Bool → IdempotentCreateRequest → Database → IdempotentAnswer
  unfolding idempotent_found validate_idempotent_create_request transact
  create_idempotent committed r db =
      if not (validate_idempotent_create_request r)
      then (db, err invalid)
      else transact committed
          (λ d. idempotent_found decode r d (find_record r.scope_id r.key d.records)) db
