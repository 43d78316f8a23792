-- ===== src/Runner/Sequencer/Numbering.antt =====
-- The numbers that internal/runner/event_sequencer.go gives.
use mini_sand_box.Prelude.{◌+◌, ◌<◌, ◌≤◌, ◌≡◌, ◌⊎◌, ◌==◌, true, false, ok, err, arith, is_empty}
use mini_sand_box.Prelude.Int.{ℤ, pos}
use mini_sand_box.Protocol.Events.{failed, ExecutionEvent, validate, is_zero}
use mini_sand_box.Runner.Sequencer.{
  EventError, Sequencer, sequence_event, serve, Delivery, refused, answered, forgotten, publish,
  is_started,
}

-- Below the last uint64 the number does not wrap.
abbrev pub Below : Sequencer → Type 0
Below s = s.sequence + 1 < 18446744073709551616

-- An event that `Publish` returns is valid, belongs to the execution, has the next number and is
-- the draft but for the three fields filled in; and it is the first event exactly if it is
-- `started`, unless it is `failed`.
pub publish_ok :
    (d : Delivery) (now : ℤ) (s : Sequencer) (draft e : ExecutionEvent)
    → Below s
    → (publish d now s draft).1 ≡ ok e
    → (e ≡ record draft {
      execution_id = s.execution_id;
      sequence = s.sequence + 1;
      timestamp = now;
    })
      × (validate e ≡ true)
      × ((publish d now s draft).0 ≡ record s { sequence = s.sequence + 1 })
      × ((is_started draft.type ≡ (s.sequence == 0)) ⊎ (draft.type ≡ failed))
unfolding publish sequence_event
publish_ok refused now s draft e b h = ground arith
publish_ok answered now s draft e b h = ground arith
publish_ok forgotten now s draft e b h = ground arith

-- A call that fails consumes at most one number, and none unless the context ended after the
-- request was taken.
pub publish_error :
    (d : Delivery) (now : ℤ) (s : Sequencer) (draft : ExecutionEvent) {x : EventError}
    → Below s
    → (publish d now s draft).1 ≡ err x
    → (s.sequence ≤ (publish d now s draft).0.sequence)
      × ((publish d now s draft).0.sequence ≤ s.sequence + 1)
      × ((d ≡ forgotten) ⊎ ((publish d now s draft).0 ≡ s))
      × ((publish d now s draft).0.execution_id ≡ s.execution_id)
unfolding publish sequence_event
publish_error refused now s draft b h = ground arith
publish_error answered now s draft b h = ground arith
publish_error forgotten now s draft b h = ground arith

pub publish_bump :
    (d : Delivery) (now : ℤ) (s : Sequencer) (draft : ExecutionEvent)
    → Below s
    → ((publish d now s draft).0.sequence ≤ s.sequence + 1)
      × ((publish d now s draft).0.closed ≡ s.closed)
unfolding publish serve
publish_bump refused now s draft b = ground arith
publish_bump answered now s draft b = ground arith
publish_bump forgotten now s draft b = ground arith

-- The event that the sequencer makes of a draft.
abbrev pub filled : ℤ → Sequencer → ExecutionEvent → ExecutionEvent
filled now s draft = record draft {
  execution_id = s.execution_id;
  sequence = s.sequence + 1;
  timestamp = now;
}

-- A draft behind the first event that leaves the three fields blank, is no `started` event and is
-- valid once they are filled in gets through, if the sequencer runs and answers.
pub publish_answered :
    (now : ℤ) (s : Sequencer) (draft : ExecutionEvent)
    → Below s
    → s.closed ≡ false
    → 1 ≤ s.sequence
    → is_zero now ≡ false
    → (is_empty draft.execution_id ≡ true) × (draft.sequence ≡ 0) × (draft.timestamp ≡ pos 0)
    → is_started draft.type ≡ false
    → validate (filled now s draft) ≡ true
    → publish answered now s draft
      ≡ (record s { sequence = s.sequence + 1 }, ok (filled now s draft))
unfolding publish sequence_event
publish_answered now s draft b o n z blank k v = ground arith
