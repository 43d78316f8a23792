-- ===== src/Examples/Events.antt =====
-- internal/runner/event_sequencer.go and internal/runner/event_store.go on one execution.
use mini_sand_box.Prelude.{
  ℕ, ◌+◌, ◌-◌, ◌≡◌, ◌⊎◌, ◌≤◌, ◌<◌, ◌++◌, ◌||◌, refl, true, false, List, [], ◌∷◌, some, ok, err, All,
  length, take, ltb, ◌==◌, arith,
}
use mini_sand_box.Prelude.Int.{pos}
use mini_sand_box.Prelude.Base64.{IsBytes}
use mini_sand_box.Protocol.Events.{
  started, exited, failed, ExecutionEvent, empty_event, validate, valid_fields,
}
use mini_sand_box.Runner.Sequencer.{
  invalid_event_draft, Sequencer, refused, answered, forgotten, sequence_event, serve, publish,
  is_started,
}
use mini_sand_box.Runner.Sequencer.Numbering.{filled, publish_ok, publish_error}
use mini_sand_box.Runner.EventStore.{
  EventStore, RawOutputChunk, stdout_stream, publish_control, append_output, events_after,
}
use mini_sand_box.Runner.EventStore.Sound.{IsSound, publish_control-IsSound}
use mini_sand_box.Runner.EventStore.Append.{append_output-IsSound}
use mini_sand_box.Runner.EventStore.Cursor.{up_to, events_after_split}
use mini_sand_box.Runner.EventStore.Output.{IsReady, stored_bytes}
use mini_sand_box.Runner.EventStore.Budget.{Append, append_all, total, append_all_budget}

abbrev numbered : ℕ → Sequencer
numbered n = record { execution_id = "e1"; sequence = n; closed = false }

abbrev exit_draft : ExecutionEvent
exit_draft = record (empty_event exited) {
  exit_code = some (pos 0);
  duration_ms = some (pos 3);
  output_truncated = some false;
}

start_published :
    (publish answered (pos 5) (numbered 0) (empty_event started)).1
    ≡ ok (filled (pos 5) (numbered 0) (empty_event started))
unfolding publish serve sequence_event validate valid_fields
start_published = refl

publish_ok_example :
    (filled (pos 5) (numbered 0) (empty_event started)
      ≡ record (empty_event started) { execution_id = "e1"; sequence = 0 + 1; timestamp = pos 5 })
    × (validate (filled (pos 5) (numbered 0) (empty_event started)) ≡ true)
    × ((publish answered (pos 5) (numbered 0) (empty_event started)).0
        ≡ record (numbered 0) { sequence = 0 + 1 })
    × ((is_started started ≡ (0 == 0)) ⊎ (started ≡ failed))
publish_ok_example =
    publish_ok answered (pos 5) (numbered 0) (empty_event started)
      (filled (pos 5) (numbered 0) (empty_event started)) (omega arith) start_published

exit_refused : (publish answered (pos 5) (numbered 0) exit_draft).1 ≡ err invalid_event_draft
unfolding publish serve sequence_event validate valid_fields
exit_refused = refl

publish_error_example :
    (0 ≤ (publish answered (pos 5) (numbered 0) exit_draft).0.sequence)
    × ((publish answered (pos 5) (numbered 0) exit_draft).0.sequence ≤ 0 + 1)
    × ((answered ≡ forgotten) ⊎ ((publish answered (pos 5) (numbered 0) exit_draft).0 ≡ numbered 0))
    × ((publish answered (pos 5) (numbered 0) exit_draft).0.execution_id ≡ "e1")
publish_error_example =
    publish_error answered (pos 5) (numbered 0) exit_draft (omega arith) exit_refused

exit_valid : validate (filled (pos 5) (numbered 1) exit_draft) ≡ true
unfolding validate valid_fields
exit_valid = refl

-- A store with the first event and room for four bytes.
abbrev begun : EventStore
begun = record {
  sequencer = numbered 1;
  max_output_bytes = 4;
  output_bytes = 0;
  output_truncated = false;
  limit_published = false;
  is_terminal = false;
  events = filled (pos 5) (numbered 0) (empty_event started) ∷ [];
  changes = 1;
}

begun-IsSound : IsSound begun
unfolding validate valid_fields
begun-IsSound = record {
  within = omega arith;
  ascending = (omega arith, omega arith);
  stored = ((refl, refl), tt);
  ends = refl;
  once = refl;
  limit_once = refl;
  limit_truncated = λ h. ground arith;
}

begun-IsReady : IsReady begun
begun-IsReady = record {
  running = refl;
  named = refl;
  started = omega arith;
  not_terminal = refl;
  within = omega arith;
}

abbrev chunk : RawOutputChunk
chunk = record { stream = stdout_stream; bytes = 72 ∷ 105 ∷ 33 ∷ [] }

-- Two chunks of three bytes: the second one does not fit.
abbrev appends : List Append
appends = (pos 6, pos 6, chunk) ∷ (pos 7, pos 8, chunk) ∷ []

chunk_IsBytes : IsBytes chunk.bytes
chunk_IsBytes = (omega arith, (omega arith, (omega arith, tt)))

append_all_budget_example :
    let (t, good) = append_all begun appends in
    (good ≡ true)
    × (stored_bytes t.events
        ≡ stored_bytes begun.events
          ++ take (begun.max_output_bytes - begun.output_bytes) (total appends))
    × (t.output_truncated ≡ (
        begun.output_truncated
        || ltb (begun.max_output_bytes - begun.output_bytes) (length (total appends))))
append_all_budget_example =
    append_all_budget begun appends begun-IsReady (omega arith)
      ((refl, refl, refl, chunk_IsBytes), ((refl, refl, refl, chunk_IsBytes), tt))

append_output-IsSound_example :
    IsSound (append_output (answered, pos 6) (refused, pos 6) begun chunk).0
append_output-IsSound_example =
    append_output-IsSound (answered, pos 6) (refused, pos 6) begun chunk (omega arith) begun-IsSound

publish_control-IsSound_example : IsSound (publish_control answered (pos 9) begun exit_draft).0
publish_control-IsSound_example =
    publish_control-IsSound answered (pos 9) begun exit_draft (omega arith) begun-IsSound

events_after_split_example :
    let unseen = (events_after begun 0).0 in
    (up_to 0 begun.events ++ unseen ≡ begun.events)
    × All (λ e. e.sequence ≤ 0) (up_to 0 begun.events)
    × All (λ e. 0 < e.sequence) unseen
events_after_split_example = events_after_split begun 0 begun-IsSound
