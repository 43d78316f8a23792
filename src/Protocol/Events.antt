-- ===== src/Protocol/Events.antt =====
-- pkg/protocol/events.go: one event of an execution, and the check of its fields.
use mini_sand_box.Prelude.{
  ℕ, Bool, true, false, not, ◌&&◌, ◌||◌, String, List, [], Option, none, some, is_some, is_none,
  is_nil, is_empty, ◌==◌,
}
use mini_sand_box.Prelude.Int.{ℤ, pos, lt, eq}
use mini_sand_box.Prelude.Base64.{decode}

-- `other` is a type string that the program does not define.
pub data EventType : Type 0 where
  started stdout stderr output_limit_reached exited failed cancelled timed_out : EventType
  other : String → EventType

-- A nil pointer is `none`. A time is counted in nanoseconds from the zero `time.Time`.
pub record ExecutionEvent : Type 0 where
  pub execution_id : String
  pub sequence : ℕ
  pub timestamp : ℤ
  pub type : EventType
  pub data_base64 : List ℕ
  pub exit_code : Option ℤ
  pub duration_ms : Option ℤ
  pub output_truncated : Option Bool
  pub error_code : String
  pub message : String

-- `ExecutionEvent{Type: t}`.
abbrev pub empty_event : EventType → ExecutionEvent
empty_event t = record {
  execution_id = "";
  sequence = 0;
  timestamp = pos 0;
  type = t;
  data_base64 = [];
  exit_code = none;
  duration_ms = none;
  output_truncated = none;
  error_code = "";
  message = "";
}

-- `Time.IsZero`.
abbrev pub is_zero : ℤ → Bool
is_zero t = eq t (pos 0)

abbrev pub has_terminal : ExecutionEvent → Bool
has_terminal e = is_some e.duration_ms && is_some e.output_truncated

abbrev pub has_no_terminal : ExecutionEvent → Bool
has_no_terminal e = is_none e.duration_ms && is_none e.output_truncated

abbrev pub has_failure : ExecutionEvent → Bool
has_failure e = not (is_empty e.error_code) || not (is_empty e.message)

-- The switch of `Validate` on the type.
unfoldable pub valid_fields : EventType → ExecutionEvent → Bool
valid_fields started e =
    not (
      not (is_nil e.data_base64) || is_some e.exit_code || not (has_no_terminal e) || has_failure e)
valid_fields output_limit_reached e =
    not (
      not (is_nil e.data_base64) || is_some e.exit_code || not (has_no_terminal e) || has_failure e)
valid_fields stdout e =
    not (is_nil e.data_base64 || is_some e.exit_code || not (has_no_terminal e) || has_failure e)
    && is_some (decode e.data_base64)
valid_fields stderr e =
    not (is_nil e.data_base64 || is_some e.exit_code || not (has_no_terminal e) || has_failure e)
    && is_some (decode e.data_base64)
valid_fields exited e =
    not (not (is_nil e.data_base64) || is_none e.exit_code || not (has_terminal e) || has_failure e)
valid_fields failed e = not (
    not (is_nil e.data_base64)
    || is_some e.exit_code
    || not (has_terminal e)
    || is_empty e.error_code
    || is_empty e.message)
valid_fields cancelled e =
    not (not (is_nil e.data_base64) || is_some e.exit_code || not (has_terminal e) || has_failure e)
valid_fields timed_out e =
    not (not (is_nil e.data_base64) || is_some e.exit_code || not (has_terminal e) || has_failure e)
valid_fields (other t) e = false

abbrev pub negative : Option ℤ → Bool
negative none = false
negative (some d) = lt d (pos 0)

-- `Validate() == nil`.
unfoldable pub validate : ExecutionEvent → Bool
unfolding valid_fields
validate e =
    not (is_empty e.execution_id || e.sequence == 0 || is_zero e.timestamp)
    && valid_fields e.type e
    && not (negative e.duration_ms)

-- The four types that `Terminal` and `terminalEventType` list.
abbrev pub is_terminal_type : EventType → Bool
is_terminal_type exited = true
is_terminal_type failed = true
is_terminal_type cancelled = true
is_terminal_type timed_out = true
is_terminal_type _ = false

unfoldable pub terminal : ExecutionEvent → Bool
terminal e = is_terminal_type e.type
