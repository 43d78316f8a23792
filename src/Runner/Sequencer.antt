-- ===== src/Runner/Sequencer.antt =====
-- internal/runner/event_sequencer.go: one goroutine numbers and stamps the events of an execution.
use mini_sand_box.Prelude.{
  ℕ, ◌+◌, ◌%◌, ◌^◌, Bool, true, false, not, ◌&&◌, ◌||◌, String, Option, none, some, Result, ok, err,
  is_empty, is_ok, ◌==◌, if◌then◌else◌,
}
use mini_sand_box.Prelude.Int.{ℤ}
use mini_sand_box.Protocol.Events.{EventType, started, failed, ExecutionEvent, is_zero, validate}
pub mod Numbering

pub data EventError : Type 0 where
  sequencer_closed invalid_event_draft context_ended event_store_terminal : EventError

-- `sequence` is the local variable of `run`; `closed` says that `run` has returned.
pub record Sequencer : Type 0 where
  pub execution_id : String
  pub sequence : ℕ
  pub closed : Bool

unfoldable pub new_event_sequencer : String → Option Sequencer
new_event_sequencer id =
    if is_empty id then none else some (record { execution_id = id; sequence = 0; closed = false })

abbrev pub is_started : EventType → Bool
is_started started = true
is_started _ = false

abbrev is_failed : EventType → Bool
is_failed failed = true
is_failed _ = false

-- `now` is the reading of the injected clock.
unfoldable pub sequence_event : String → ℤ → ℕ → ExecutionEvent → Result EventError ExecutionEvent
sequence_event id now n draft =
    let filled = record draft { execution_id = id; sequence = n; timestamp = now } in
    if not (is_empty draft.execution_id)
      || not (draft.sequence == 0)
      || not (is_zero draft.timestamp)
    then err invalid_event_draft
    else if is_started draft.type && not (n == 1)
    then err invalid_event_draft
    else if n == 1 && not (is_started draft.type) && not (is_failed draft.type)
    then err invalid_event_draft
    else if is_zero filled.timestamp || not (validate filled)
    then err invalid_event_draft
    else ok filled

-- A uint64 wraps.
abbrev pub u64 : ℕ → ℕ
u64 n = n % 18446744073709551616

-- One request in the loop of `run`.
unfoldable pub serve : ℤ → Sequencer → ExecutionEvent → Sequencer × Result EventError ExecutionEvent
serve now s draft =
    let result = sequence_event s.execution_id now (u64 (s.sequence + 1)) draft in
    (if is_ok result then record s { sequence = u64 (s.sequence + 1) } else s, result)

-- What the two `select`s of `Publish` see: the context ends before the request is taken, or the
-- answer arrives, or the context ends between the two, when the request has been served.
pub data Delivery : Type 0 where
  refused answered forgotten : Delivery

publish_open :
    Delivery → ℤ → Sequencer → ExecutionEvent → Sequencer × Result EventError ExecutionEvent
unfolding serve
publish_open refused now s draft = (s, err context_ended)
publish_open answered now s draft = serve now s draft
publish_open forgotten now s draft = ((serve now s draft).0, err context_ended)

publish_closed : Delivery → EventError
publish_closed refused = context_ended
publish_closed _ = sequencer_closed

unfoldable pub publish :
    Delivery → ℤ → Sequencer → ExecutionEvent → Sequencer × Result EventError ExecutionEvent
unfolding publish_open publish_closed
publish d now s draft = if s.closed then (s, err (publish_closed d)) else publish_open d now s draft

unfoldable pub close : Sequencer → Sequencer
close s = record s { closed = true }
