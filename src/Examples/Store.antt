-- ===== src/Examples/Store.antt =====
-- internal/store/sqlite/store.go on small tables.
use mini_sand_box.Prelude.{
  ℕ, ◌≡◌, refl, Bool, true, false, String, List, [], ◌∷◌, Option, none, some, ok, ◌==◌,
  if◌then◌else◌,
}
use mini_sand_box.Prelude.Int.{pos, lt}
use mini_sand_box.Prelude.Maps.{lookup, insert, sum}
use mini_sand_box.Domain.States.{pending, running, desired_running, desired_terminated}
use mini_sand_box.Domain.Reasons.{create_accepted, reason_running}
use mini_sand_box.Domain.Sandboxes.{Sandbox, SandboxSpec, api}
use mini_sand_box.Store.Lifecycle.{ObservedUpdate, transact}
use mini_sand_box.Store.Lifecycle.History.{Follows}
use mini_sand_box.Store.Tokens.{
  StoredIdempotencyResponse, IdempotentResponse, valid_idempotency_token, valid_lower_hex_hash,
  all_characters, decode_idempotent_response, decoded_complete,
}
use mini_sand_box.Store.Creates.{
  Database, IdempotentCreateRequest, IdempotentCreateResult, create_non_idempotent,
  validate_atomic_create_request, validate_atomic_sandbox, insert_atomic_sandbox, insert_found,
  enforce_sandbox_admission, active, find_record,
}
use mini_sand_box.Store.Creates.Idempotent.{
  record_of, create_idempotent, validate_idempotent_create_request, valid_request_fields,
  idempotent_found, idempotent_admitted, idempotent_inserted,
}
use mini_sand_box.Store.Creates.Admission.{Bounded, create-active}
use mini_sand_box.Store.Calls.{observed, desired, StoreCall, plain, update, run}
use mini_sand_box.Store.Calls.History.{run-Follows}
use mini_sand_box.Store.Calls.Replay.{create-replay}

abbrev hash : SandboxSpec → String
hash spec = "5e"

abbrev accepted : String → Sandbox
accepted id = record {
  id = id;
  spec = record {
    image = "alpine";
    resources = record { cpu_quota_millis = pos 500; memory_mib = pos 128; pids = pos 64 };
    workspace = record { mount_path = "/workspace"; persistent = true };
    outbound = false;
    platform = record { os = "linux"; arch = "amd64" };
  };
  desired_state = desired_running;
  observed_state = pending;
  reason = create_accepted;
  message = "Sandbox creation has been accepted.";
  runtime_id = "";
  spec_hash = "5e";
  revision = 0;
  created_at = pos 10;
  updated_at = pos 10;
  last_transition_at = pos 10;
  expires_at = some (pos 100);
  retry_attempt = 0;
  next_reconcile_at = none;
  last_reconcile_at = none;
  health_failure_count = 0;
  origin = api;
}

-- A body of one byte repeated: 1 for the response about "s1", anything else for "s2".
abbrev named : String → StoredIdempotencyResponse
named id = record {
  id = id;
  state = "Pending";
  reason = "CREATE_ACCEPTED";
  message = "Sandbox creation has been accepted.";
  image = "alpine";
  expires_at = pos 100;
  created_at = pos 10;
  updated_at = pos 10;
  utc = true;
}

abbrev decode : List ℕ → Option StoredIdempotencyResponse
decode [] = none
decode (b ∷ rest) = some (named (if b == 1 then "s1" else "s2"))

abbrev json_valid : List ℕ → Bool
json_valid body = true

abbrev digest : String
digest = "0123456789abcdef0123456789abcdef0123456789abcdef0123456789abcdef"

abbrev first_response : IdempotentResponse
first_response = record {
  schema_version = 1;
  status_code = pos 202;
  location = "/v1/sandboxes/s1";
  body = 1 ∷ 1 ∷ [];
  created_at = pos 10;
}

abbrev first : IdempotentCreateRequest
first = record {
  scope_id = "tenant";
  key = "key-1";
  request_hash = digest;
  sandbox = accepted "s1";
  response = first_response;
  max_sandboxes = pos 1;
}

-- The same request again: the client has no answer yet, so the service has made another sandbox.
abbrev again : IdempotentCreateRequest
again = record first {
  sandbox = accepted "s2";
  response = record first_response { location = "/v1/sandboxes/s2"; body = 2 ∷ 2 ∷ [] };
}

abbrev empty : Database
empty = record { sandboxes = []; records = [] }

abbrev created : Database
created = record {
  sandboxes = ("s1", record (accepted "s1") { revision = 1 }) ∷ [];
  records = record_of first ∷ [];
}

abbrev first_result : IdempotentCreateResult
first_result = record {
  id = "s1";
  sandbox = some (record (accepted "s1") { revision = 1 });
  response = first_response;
  replayed = false;
}

first-created :
    create_idempotent hash decode json_valid true first empty ≡ (created, ok first_result)
unfolding create_idempotent transact validate_idempotent_create_request valid_request_fields
    valid_idempotency_token valid_lower_hex_hash all_characters validate_atomic_create_request
    validate_atomic_sandbox decode_idempotent_response decoded_complete idempotent_found
    idempotent_admitted idempotent_inserted insert_atomic_sandbox insert_found
    enforce_sandbox_admission active find_record lookup insert sum
first-created = refl

again_valid : validate_idempotent_create_request hash decode json_valid again ≡ true
unfolding validate_idempotent_create_request valid_request_fields valid_idempotency_token
    valid_lower_hex_hash all_characters validate_atomic_create_request validate_atomic_sandbox
    decode_idempotent_response decoded_complete
again_valid = refl

abbrev observation : ObservedUpdate
observation = record {
  id = "s1";
  expected_revision = 1;
  state = running;
  reason = reason_running;
  message = "Sandbox is running.";
  runtime_id = "c1";
  reconcile_at = none;
}

abbrev calls : List (Bool × StoreCall)
calls =
    (true, plain (pos 3) (accepted "s3"))
    ∷ (false, update (desired (pos 20) "s1" desired_terminated 1))
    ∷ (true, update (observed (pos 30) observation))
    ∷ []

-- The limit of one sandbox is met by then.
create-replay_example :
    create_idempotent hash decode json_valid true again
      (run (λ a b. lt b a) hash decode json_valid calls created)
    ≡ (
      run (λ a b. lt b a) hash decode json_valid calls created,
      ok (record first_result { sandbox = none; replayed = true }),
    )
create-replay_example =
    create-replay decode (λ a b. lt b a) hash json_valid first again empty created first_result
      calls first-created refl refl again_valid

run-Follows_example :
    Follows created.sandboxes (run (λ a b. lt b a) hash decode json_valid calls created).sandboxes
run-Follows_example = run-Follows (λ a b. lt b a) hash decode json_valid calls created

create-active_example :
    Bounded
      (pos 2)
      created.sandboxes
      (create_non_idempotent hash true (pos 2) (accepted "s3") created).0.sandboxes
    × Bounded
        (pos 1)
        created.sandboxes
        (create_idempotent hash decode json_valid true again created).0.sandboxes
create-active_example =
    create-active hash decode json_valid true (pos 2) (accepted "s3") again created
