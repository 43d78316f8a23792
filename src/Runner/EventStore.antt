-- ===== src/Runner/EventStore.antt =====
-- internal/runner/event_store.go: the events of one execution in memory, with one byte budget for
-- stdout and stderr together.
use mini_sand_box.Prelude.{
  ℕ, suc, ◌+◌, ◌-◌, Bool, true, false, not, ◌&&◌, ◌||◌, String, List, [], ◌∷◌, ◌++◌, Option, none,
  some, Result, ok, err, length, take, is_nil, ltb, leb, ◌==◌, if◌then◌else◌,
}
use mini_sand_box.Prelude.Int.{ℤ}
use mini_sand_box.Prelude.Base64.{encode}
use mini_sand_box.Protocol.Events.{
  EventType, started, stdout, stderr, output_limit_reached, ExecutionEvent, empty_event,
  is_terminal_type, terminal,
}
use mini_sand_box.Runner.Sequencer.{
  EventError, invalid_event_draft, event_store_terminal, Sequencer, new_event_sequencer, is_started,
  Delivery, publish, close,
}
pub mod Sequences
pub mod Sound
pub mod Append
pub mod Cursor
pub mod Output
pub mod Budget

-- `changes` counts how often the `changed` channel was closed and replaced.
pub record EventStore : Type 0 where
  pub sequencer : Sequencer
  pub max_output_bytes : ℕ
  pub output_bytes : ℕ
  pub output_truncated : Bool
  pub limit_published : Bool
  pub is_terminal : Bool
  pub events : List ExecutionEvent
  pub changes : ℕ

-- The budget must be positive.
unfoldable pub new_event_store : String → ℕ → Option EventStore
new_event_store id budget = if leb budget 0 then none else elim (new_event_sequencer id) [
  | none ↦ none
  | some s ↦ some (record {
    sequencer = s;
    max_output_bytes = budget;
    output_bytes = 0;
    output_truncated = false;
    limit_published = false;
    is_terminal = false;
    events = [];
    changes = 0;
  })
]

unfoldable pub notify_changed : EventStore → EventStore
notify_changed s = record s { changes = s.changes + 1 }

-- A terminal draft gets the truncation flag of the store.
abbrev pub fill_truncated : EventStore → ExecutionEvent → ExecutionEvent
fill_truncated s draft =
    if is_terminal_type draft.type
    then record draft { output_truncated = some s.output_truncated }
    else draft

control_published :
    EventStore
    → Sequencer × Result EventError ExecutionEvent
    → EventStore × Result EventError ExecutionEvent
unfolding notify_changed
control_published s (q, err e) = (record s { sequencer = q }, err e)
control_published s (q, ok event) = (
  notify_changed (record s {
    sequencer = q;
    events = s.events ++ event ∷ [];
    is_terminal = if terminal event then true else s.is_terminal;
  }),
  ok event,
)

unfoldable pub publish_control :
    Delivery → ℤ → EventStore → ExecutionEvent → EventStore × Result EventError ExecutionEvent
unfolding control_published
publish_control d now s draft =
    if s.is_terminal
    then (s, err event_store_terminal)
    else if not (is_started draft.type) && not (is_terminal_type draft.type)
    then (s, err invalid_event_draft)
    else control_published s (publish d now s.sequencer (fill_truncated s draft))

-- `other` is a stream name that the program does not define.
pub data OutputStream : Type 0 where
  stdout_stream stderr_stream : OutputStream
  other_stream : String → OutputStream

pub record RawOutputChunk : Type 0 where
  pub stream : OutputStream
  pub bytes : List ℕ

abbrev pub known_stream : OutputStream → Bool
known_stream (other_stream name) = false
known_stream _ = true

abbrev pub stream_event : OutputStream → EventType
stream_event stderr_stream = stderr
stream_event _ = stdout

-- The budget left, and what of the chunk fits in. `output_bytes` is at most `max_output_bytes`
-- (`IsSound` of the child module), so that the difference does not fall below 0.
abbrev pub remaining : EventStore → ℕ
remaining s = s.max_output_bytes - s.output_bytes

abbrev pub exceeds : EventStore → RawOutputChunk → Bool
exceeds s c = ltb (remaining s) (length c.bytes)

abbrev pub retained : EventStore → RawOutputChunk → ℕ
retained s c = if exceeds s c then remaining s else length c.bytes

output_published :
    ℕ → EventStore → Sequencer × Result EventError ExecutionEvent → EventStore × Option EventError
output_published n s (q, err e) = (record s { sequencer = q }, some e)
output_published n s (q, ok event) = (
  record s { sequencer = q; events = s.events ++ event ∷ []; output_bytes = s.output_bytes + n },
  none,
)

-- The part of the chunk that fits, as one event; an empty part is no event.
unfoldable pub store_retained :
    Delivery → ℤ → EventStore → RawOutputChunk → EventStore × Option EventError
unfolding output_published
store_retained d now s c =
    let n = retained s c in
    if ltb 0 n
    then output_published n s (
        publish d now s.sequencer
          (record (empty_event (stream_event c.stream)) { data_base64 = encode (take n c.bytes) }))
    else (s, none)

limit_stored :
    EventStore → Sequencer × Result EventError ExecutionEvent → EventStore × Option EventError
limit_stored s (q, err e) = (record s { sequencer = q }, some e)
limit_stored s (q, ok event) =
    (record s { sequencer = q; events = s.events ++ event ∷ []; limit_published = true }, none)

-- The limit event, unless there was one; the chunk does not fit.
unfoldable pub store_limit : Delivery → ℤ → EventStore → EventStore × Option EventError
unfolding limit_stored
store_limit d now s =
    let t = record s { output_truncated = true } in
    if s.limit_published
    then (t, none)
    else limit_stored t (publish d now s.sequencer (empty_event output_limit_reached))

-- The change is announced if the events have grown since `before`.
unfoldable pub notify_grown : ℕ → EventStore → EventStore
unfolding notify_changed
notify_grown before s = if length s.events == before then s else notify_changed s

append_announced : ℕ → EventStore × Option EventError → EventStore × Option EventError
unfolding notify_grown
append_announced before (s, some e) = (s, some e)
append_announced before (s, none) = (notify_grown before s, none)

append_rest :
    Delivery → ℤ → ℕ → Bool → EventStore × Option EventError → EventStore × Option EventError
unfolding store_limit append_announced
append_rest d now before truncated (s, some e) = (s, some e)
append_rest d now before true (s, none) = append_announced before (store_limit d now s)
append_rest d now before false (s, none) = append_announced before (s, none)

-- The first delivery and clock reading are those of the output event, the second those of the
-- limit event.
unfoldable pub append_output :
    Delivery × ℤ → Delivery × ℤ → EventStore → RawOutputChunk → EventStore × Option EventError
unfolding store_retained append_rest
append_output (d, now) (d', now') s c =
    if not (known_stream c.stream)
    then (s, some invalid_event_draft)
    else if s.is_terminal
    then (s, some event_store_terminal)
    else append_rest d' now' (length s.events) (exceeds s c) (store_retained d now s c)

-- The first event behind the cursor and all that follow it.
unfoldable pub after_cursor : ℕ → List ExecutionEvent → List ExecutionEvent
after_cursor cursor [] = []
after_cursor cursor (e ∷ l) =
    let rest = after_cursor cursor l in if ltb cursor e.sequence then e ∷ l else rest

-- The events, whether the store is terminal, and the channel to wait on, as its number.
unfoldable pub events_after : EventStore → ℕ → List ExecutionEvent × Bool × ℕ
unfolding after_cursor
events_after s cursor = (after_cursor cursor s.events, s.is_terminal, s.changes)

unfoldable pub close_store : EventStore → EventStore
close_store s = record s { sequencer = close s.sequencer }
