-- ===== src/Store/Tokens.antt =====
-- internal/store/sqlite/store.go: the checks of an idempotent create's texts and of its stored
-- response.
--
-- The JSON decoder is a parameter: `decode` is what a strict decoding of the whole body gives.
use mini_sand_box.Prelude.{
  ℕ, Bool, true, false, not, ◌&&◌, ◌||◌, String, List, Option, none, some, Result, ok, err, length,
  is_empty, str_eq, leb, ◌==◌, if◌then◌else◌,
}
use mini_sand_box.Prelude.Int.{ℤ, pos, eq}
use Prim.Native.Char.{code}
use Prim.Native.String.{len, ◌++◌, [] as empty, ◌∷◌ as join}
use mini_sand_box.Protocol.Events.{is_zero}
use mini_sand_box.Store.Lifecycle.{StoreError, corrupt}

abbrev within : ℕ → ℕ → ℕ → Bool
within low high c = leb low c && leb c high

-- A letter, a digit or one of `._:-`.
abbrev pub token_character : ℕ → Bool
token_character c =
    within 65 90 c || within 97 122 c || within 48 57 c || c == 46 || c == 95 || c == 58 || c == 45

abbrev pub hex_digit : ℕ → Bool
hex_digit c = within 48 57 c || within 97 102 c

unfoldable pub all_characters : (ℕ → Bool) → String → Bool
all_characters test empty = true
all_characters test (join c s) = test (code c) && all_characters test s

unfoldable pub valid_idempotency_token : String → ℕ → Bool
unfolding all_characters
valid_idempotency_token value limit =
    within 1 limit (len value) && all_characters token_character value

unfoldable pub valid_lower_hex_hash : String → Bool
unfolding all_characters
valid_lower_hex_hash value = len value == 64 && all_characters hex_digit value

-- `utc` says that the three times are in UTC.
pub record StoredIdempotencyResponse : Type 0 where
  pub id : String
  pub state : String
  pub reason : String
  pub message : String
  pub image : String
  pub expires_at : ℤ
  pub created_at : ℤ
  pub updated_at : ℤ
  pub utc : Bool

pub record IdempotentResponse : Type 0 where
  pub schema_version : ℕ
  pub status_code : ℤ
  pub location : String
  pub body : List ℕ
  pub created_at : ℤ

abbrev pub max_idempotency_response_bytes : ℕ
max_idempotency_response_bytes = 65536

abbrev pub idempotency_response_schema_version : ℕ
idempotency_response_schema_version = 1

abbrev pub schema_complete : String → StoredIdempotencyResponse → Bool
schema_complete sandbox_id schema =
    str_eq schema.id sandbox_id
    && not (is_empty schema.id)
    && not (is_empty schema.state)
    && not (is_empty schema.reason)
    && not (is_empty schema.message)
    && not (is_empty schema.image)
    && not (is_zero schema.expires_at)
    && not (is_zero schema.created_at)
    && not (is_zero schema.updated_at)
    && schema.utc

module _ (decode : List ℕ → Option StoredIdempotencyResponse) where
  unfoldable pub decoded_complete : String → Option StoredIdempotencyResponse → Bool
  decoded_complete sandbox_id none = false
  decoded_complete sandbox_id (some schema) = schema_complete sandbox_id schema

  -- The stored time of creation is read as it was written.
  unfoldable pub decode_idempotent_response :
      String → ℤ → String → List ℕ → ℤ → Result StoreError IdempotentResponse
  unfolding decoded_complete
  decode_idempotent_response sandbox_id status_code location body created_at =
      if not (eq status_code (pos 202))
        || not (str_eq location ("/v1/sandboxes/" ++ sandbox_id))
        || not (within 2 max_idempotency_response_bytes (length body))
        || not (decoded_complete sandbox_id (decode body))
      then err corrupt
      else ok (record {
        schema_version = idempotency_response_schema_version;
        status_code = status_code;
        location = location;
        body = body;
        created_at = created_at;
      })
