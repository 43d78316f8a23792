-- ===== src/Store/Creates.antt =====
-- internal/store/sqlite/store.go: the creation of a sandbox, with and without an idempotency key, and
-- the import of a recovered one.
--
-- `hash` stands for the SHA-256 of a specification's canonical text, `decode` and `json_valid` for the
-- JSON decoder. A transaction is exclusive, so that its queries and inserts are one function; one
-- that the database fails is rolled back (`transact`).
use mini_sand_box.Prelude.{
  ℕ, zero, ◌+◌, Bool, true, false, not, ◌&&◌, ◌||◌, String, List, [], ◌∷◌, Option, none, some,
  Result, ok, err, is_empty, is_some, is_none, length, leb, str_eq, ◌==◌, if◌then◌else◌,
}
use mini_sand_box.Prelude.Int.{ℤ, pos, lt, le, eq}
use mini_sand_box.Prelude.Maps.{lookup, insert, sum}
use Prim.Native.String.{len}
use mini_sand_box.Protocol.Events.{is_zero}
use mini_sand_box.Domain.States.{
  SandboxState, DesiredState, is_state, is_desired, desired_running, desired_terminated, pending,
  creating, stopping, terminated,
}
use mini_sand_box.Domain.Reasons.{SandboxReason, orphan_imported, orphan_expired}
use mini_sand_box.Domain.Sandboxes.{Sandbox, SandboxSpec, SandboxOrigin, api, recovered_orphan}
use mini_sand_box.Store.Lifecycle.{
  Table, StoreError, conflict, invalid, limit_reached, idempotency_conflict, transact,
}
use mini_sand_box.Store.Tokens.{
  IdempotentResponse, StoredIdempotencyResponse, valid_idempotency_token, valid_lower_hex_hash,
  max_idempotency_response_bytes, idempotency_response_schema_version, decode_idempotent_response,
}
pub mod Idempotent
pub mod Admission

-- A row of `idempotency_records`.
pub record IdempotencyRecord : Type 0 where
  pub scope_id : String
  pub key : String
  pub request_hash : String
  pub sandbox_id : String
  pub status_code : ℤ
  pub location : String
  pub body : List ℕ
  pub created_at : ℤ

pub record Database : Type 0 where
  pub sandboxes : Table
  pub records : List IdempotencyRecord

pub record IdempotentCreateRequest : Type 0 where
  pub scope_id : String
  pub key : String
  pub request_hash : String
  pub sandbox : Sandbox
  pub response : IdempotentResponse
  pub max_sandboxes : ℤ

-- The sandbox of a replay has the ID alone (`none`).
pub record IdempotentCreateResult : Type 0 where
  pub id : String
  pub sandbox : Option Sandbox
  pub response : IdempotentResponse
  pub replayed : Bool

-- One for a row that `COUNT(*) … WHERE observed_state <> 'Terminated'` counts.
abbrev pub active_one : Sandbox → ℕ
active_one row = if is_state row.observed_state terminated then 0 else 1

unfoldable pub active : Table → ℕ
unfolding sum
active t = sum active_one t

unfoldable pub enforce_sandbox_admission : ℤ → Table → Option StoreError
unfolding active
enforce_sandbox_admission max t = if le max (pos (active t)) then some limit_reached else none

unfoldable pub insert_found : Sandbox → Table → Option Sandbox → Table × Option StoreError
insert_found s t (some row) = (t, some conflict)
insert_found s t none = (insert s.id (record s { revision = 1 }) t, none)

unfoldable pub insert_atomic_sandbox : Sandbox → Table → Table × Option StoreError
unfolding insert_found
insert_atomic_sandbox s t = insert_found s t (lookup s.id t)

abbrev pub missing_or_early : ℤ → Option ℤ → Bool
missing_or_early created none = true
missing_or_early created (some expires) = not (lt created expires)

abbrev is_api : SandboxOrigin → Bool
is_api api = true
is_api _ = false

abbrev is_recovered : SandboxOrigin → Bool
is_recovered recovered_orphan = true
is_recovered _ = false

abbrev is_reason : SandboxReason → SandboxReason → Bool
is_reason orphan_imported orphan_imported = true
is_reason orphan_expired orphan_expired = true
is_reason _ _ = false

unfoldable pub find_record : String → String → List IdempotencyRecord → Option IdempotencyRecord
find_record scope key [] = none
find_record scope key (r ∷ rest) =
    if str_eq r.scope_id scope && str_eq r.key key then some r else find_record scope key rest

abbrev pub Created : Type 0
Created = Database × Result StoreError Sandbox

-- The answer to a transaction on the sandboxes, whose row is read back.
unfoldable pub inserted : Sandbox → Database → Table × Option StoreError → Created
inserted s db (t, some e) = (db, err e)
inserted s db (t, none) = (record db { sandboxes = t }, ok (record s { revision = 1 }))

unfoldable pub admitted : Sandbox → Database → Option StoreError → Created
unfolding inserted insert_atomic_sandbox
admitted s db (some e) = (db, err e)
admitted s db none = inserted s db (insert_atomic_sandbox s db.sandboxes)

-- A trusted orphan that runs, or one whose lease has ended.
abbrev pub valid_import : Sandbox → Bool
valid_import s =
    (is_desired s.desired_state desired_running
      && is_state s.observed_state creating
      && is_reason s.reason orphan_imported)
    || (is_desired s.desired_state desired_terminated
        && is_state s.observed_state stopping
        && is_reason s.reason orphan_expired)

module _ (hash : SandboxSpec → String) where
  unfoldable pub validate_atomic_sandbox : Sandbox → Bool
  validate_atomic_sandbox s =
      not (is_empty s.id)
      && not (is_zero s.created_at)
      && not (is_zero s.updated_at)
      && not (is_zero s.last_transition_at)
      && not (missing_or_early s.created_at s.expires_at)
      && is_desired s.desired_state desired_running
      && is_state s.observed_state pending
      && s.revision == 0
      && s.retry_attempt == 0
      && is_none s.next_reconcile_at
      && is_none s.last_reconcile_at
      && s.health_failure_count == 0
      && is_api s.origin
      && not (is_empty s.spec_hash)
      && str_eq s.spec_hash (hash s.spec)

  unfoldable pub validate_atomic_create_request : Sandbox → ℤ → Bool
  unfolding validate_atomic_sandbox
  validate_atomic_create_request s max = not (lt max (pos 1)) && validate_atomic_sandbox s

  unfoldable pub create_non_idempotent : Bool → ℤ → Sandbox → Database → Created
  unfolding validate_atomic_create_request enforce_sandbox_admission admitted transact
  create_non_idempotent committed max s db =
      if not (validate_atomic_create_request s max)
      then (db, err invalid)
      else transact committed (λ d. admitted s d (enforce_sandbox_admission max d.sandboxes)) db

  unfoldable pub import_recovered : Bool → Sandbox → Database → Created
  unfolding inserted insert_atomic_sandbox transact
  import_recovered committed s db =
      if is_empty s.id
        || not (is_recovered s.origin)
        || not (valid_import s)
        || is_empty s.runtime_id
        || is_empty s.spec_hash
        || not (str_eq (hash s.spec) s.spec_hash)
        || is_none s.expires_at
        || is_zero s.created_at
        || is_zero s.updated_at
        || is_zero s.last_transition_at
      then (db, err invalid)
      else transact committed (λ d. inserted s d (insert_atomic_sandbox s d.sandboxes)) db
