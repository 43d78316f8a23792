-- ===== src/Runner/EventStore/Output.antt =====
-- The output budget of internal/runner/event_store.go: what is kept of the output.
use mini_sand_box.Prelude.{
  ℕ, zero, suc, ◌+◌, ◌≤◌, ◌<◌, ◌≡◌, refl, ap, ◌∙◌, sym, true, false, List, [], ◌∷◌, ◌++◌, Option,
  none, some, length, take, is_nil, is_empty, ltb, if◌then◌else◌, arith, Bool-cases, inl, inr,
  length-take,
}
use mathlib.Core.List.{append-nil, append_assoc}
use mini_sand_box.Prelude.Int.{ℤ}
use mini_sand_box.Prelude.Base64.{IsBytes, encode, decode, decode-encode, is_nil-encode}
use mini_sand_box.Protocol.Events.{
  EventType, stdout, stderr, output_limit_reached, ExecutionEvent, empty_event, validate, is_zero,
}
use mini_sand_box.Runner.Sequencer.{answered}
use mini_sand_box.Runner.Sequencer.Numbering.{Below, filled, publish_answered}
use mini_sand_box.Runner.EventStore.{
  EventStore, RawOutputChunk, append_output, store_retained, store_limit, known_stream,
  stream_event, remaining, exceeds, retained, notify_grown,
}
pub mod Kept

-- A store that takes output: started, not terminal, its sequencer running, within its budget.
pub record IsReady (s : EventStore) : Type 0 where
  pub running : s.sequencer.closed ≡ false
  pub named : is_empty s.sequencer.execution_id ≡ false
  pub started : 1 ≤ s.sequencer.sequence
  pub not_terminal : s.is_terminal ≡ false
  pub within : s.output_bytes ≤ s.max_output_bytes

abbrev pub or_empty : Option (List ℕ) → List ℕ
or_empty none = []
or_empty (some d) = d

-- The raw bytes that an event carries.
abbrev pub event_bytes : EventType → ExecutionEvent → List ℕ
event_bytes stdout e = or_empty (decode e.data_base64)
event_bytes stderr e = or_empty (decode e.data_base64)
event_bytes _ e = []

abbrev pub stored_bytes : List ExecutionEvent → List ℕ
stored_bytes [] = []
stored_bytes (e ∷ l) = event_bytes e.type e ++ stored_bytes l

stored_bytes-snoc :
    (l : List ExecutionEvent) (e : ExecutionEvent)
    → stored_bytes (l ++ e ∷ []) ≡ stored_bytes l ++ event_bytes e.type e
stored_bytes-snoc [] e = append-nil (event_bytes e.type e)
stored_bytes-snoc (x ∷ l) e =
    ap (λ t. event_bytes x.type x ++ t) (stored_bytes-snoc l e)
    ∙ sym (append_assoc (event_bytes x.type x) (stored_bytes l) (event_bytes e.type e))

take-IsBytes : (n : ℕ) (d : List ℕ) → IsBytes d → IsBytes (take n d)
take-IsBytes zero d h = tt
take-IsBytes (suc n) [] h = tt
take-IsBytes (suc n) (x ∷ d) h = (h.0, take-IsBytes n d h.1)

take_all : (n : ℕ) (d : List ℕ) → length d ≤ n → take n d ≡ d
take_all zero [] h = refl
take_all zero (x ∷ d) h = absurd (omega arith)
take_all (suc n) [] h = refl
take_all (suc n) (x ∷ d) h = ap (◌∷◌ x) (take_all n d (omega arith))

take_nil : (n : ℕ) (d : List ℕ) → is_nil (take n d) ≡ true → ltb 0 n ≡ true → is_nil d ≡ true
take_nil zero d h k = ground arith
take_nil (suc n) [] h k = refl
take_nil (suc n) (x ∷ d) h k = ground arith

take_none : (n : ℕ) (d : List ℕ) → ltb 0 n ≡ false → take n d ≡ []
take_none zero d h = refl
take_none (suc n) d h = absurd (ground arith)

pub output_draft : EventStore → RawOutputChunk → ExecutionEvent
output_draft s c = record (empty_event (stream_event c.stream)) {
  data_base64 = encode (take (retained s c) c.bytes);
}

output_event_valid :
    (now : ℤ) (s : EventStore) (c : RawOutputChunk)
    → IsReady s
    → is_zero now ≡ false
    → known_stream c.stream ≡ true
    → IsBytes c.bytes
    → ltb 0 (retained s c) ≡ true
    → validate (filled now s.sequencer (output_draft s c)) ≡ true
unfolding validate output_draft
output_event_valid now s c r z k b p = ground (
  arith,
  decode-encode (take (retained s c) c.bytes) (take-IsBytes (retained s c) c.bytes b),
  is_nil-encode (take (retained s c) c.bytes),
  take_nil (retained s c) c.bytes,
)

-- What the first part of `AppendOutput` leaves.
unfoldable pub after_retained : ℤ → EventStore → RawOutputChunk → EventStore
after_retained now s c =
    if ltb 0 (retained s c)
    then record s {
      sequencer = record (s.sequencer) { sequence = s.sequencer.sequence + 1 };
      events = s.events ++ filled now s.sequencer (output_draft s c) ∷ [];
      output_bytes = s.output_bytes + retained s c;
    }
    else s

store_retained_answered :
    (now : ℤ) (s : EventStore) (c : RawOutputChunk)
    → IsReady s
    → Below s.sequencer
    → is_zero now ≡ false
    → known_stream c.stream ≡ true
    → IsBytes c.bytes
    → store_retained answered now s c ≡ (after_retained now s c, none)
unfolding store_retained output_draft after_retained
store_retained_answered now s c r n z k b =
    ground (arith, publish_answered now s.sequencer (output_draft s c), output_event_valid now s c)

filled_bytes :
    (now : ℤ) (s : EventStore) (c : RawOutputChunk)
    → known_stream c.stream ≡ true
    → IsBytes c.bytes
    → let e = filled now s.sequencer (output_draft s c) in
      event_bytes e.type e ≡ take (retained s c) c.bytes
unfolding output_draft
filled_bytes now s c k b =
    ground
      (arith, decode-encode (take (retained s c) c.bytes) (take-IsBytes (retained s c) c.bytes b))

take-retained :
    (s : EventStore) (c : RawOutputChunk) → take (retained s c) c.bytes ≡ take (remaining s) c.bytes
take-retained s c =
    ground (arith, take_all (length c.bytes) c.bytes, take_all (remaining s) c.bytes)
