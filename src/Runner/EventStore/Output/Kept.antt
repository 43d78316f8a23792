-- ===== src/Runner/EventStore/Output/Kept.antt =====
-- Which bytes a call of `AppendOutput` of internal/runner/event_store.go leaves in the store.
use mini_sand_box.Prelude.{
  ℕ, ◌+◌, ◌≤◌, ◌<◌, ◌≡◌, ap, ◌∙◌, sym, true, false, List, [], ◌∷◌, ◌++◌, none, length, take, ltb,
  if◌then◌else◌, arith, Bool-cases, inl, inr, length-take,
}
use mathlib.Core.List.{append-nil}
use mini_sand_box.Prelude.Int.{ℤ}
use mini_sand_box.Prelude.Base64.{IsBytes}
use mini_sand_box.Protocol.Events.{output_limit_reached, empty_event, validate, is_zero}
use mini_sand_box.Runner.Sequencer.{answered}
use mini_sand_box.Runner.Sequencer.Numbering.{Below, filled, publish_answered}
use mini_sand_box.Runner.EventStore.{
  EventStore, RawOutputChunk, append_output, store_limit, known_stream, remaining, exceeds,
  retained, notify_grown,
}
use mini_sand_box.Runner.EventStore.Output.{
  IsReady, stored_bytes, stored_bytes-snoc, take_none, output_draft, after_retained,
  store_retained_answered, filled_bytes, take-retained,
}

-- The bytes in the store, and the counters, after the part that fits.
pub record Holds (s t : EventStore) (kept : List ℕ) : Type 0 where
  pub ready : IsReady t
  pub bytes : stored_bytes t.events ≡ stored_bytes s.events ++ kept
  pub spent : t.output_bytes ≡ s.output_bytes + length kept
  pub budget : t.max_output_bytes ≡ s.max_output_bytes
  pub number : t.sequencer.sequence ≤ s.sequencer.sequence + 1

retained-le :
    (s : EventStore) (c : RawOutputChunk)
    → (retained s c ≤ length c.bytes) × (retained s c ≤ remaining s)
retained-le s c = ground arith

pub length-take-retained :
    (s : EventStore) (c : RawOutputChunk) → length (take (remaining s) c.bytes) ≡ retained s c
length-take-retained s c =
    rw (← take-retained s c) (length-take (retained s c) c.bytes (retained-le s c).0)

after_retained_bytes :
    (now : ℤ) (s : EventStore) (c : RawOutputChunk)
    → known_stream c.stream ≡ true
    → IsBytes c.bytes
    → stored_bytes (after_retained now s c).events
      ≡ stored_bytes s.events ++ take (remaining s) c.bytes
unfolding after_retained
after_retained_bytes now s c k b = elim (Bool-cases (ltb 0 (retained s c))) [
  | inl p ↦
      rw (p, ← take-retained s c)
        (stored_bytes-snoc s.events (filled now s.sequencer (output_draft s c))
          ∙ ap (λ t. stored_bytes s.events ++ t) (filled_bytes now s c k b))
  | inr p ↦
      rw (p, ← take-retained s c, take_none (retained s c) c.bytes p)
        (sym (append-nil (stored_bytes s.events)))
]

pub after_retained-Holds :
    (now : ℤ) (s : EventStore) (c : RawOutputChunk)
    → IsReady s
    → known_stream c.stream ≡ true
    → IsBytes c.bytes
    → Holds s (after_retained now s c) (take (remaining s) c.bytes)
unfolding after_retained
after_retained-Holds now s c r k b = record {
  ready = ground (arith, retained-le s c);
  bytes = after_retained_bytes now s c k b;
  spent = ground (arith, length-take-retained s c);
  budget = ground arith;
  number = ground arith;
}

-- What the limit event leaves.
unfoldable pub after_limit : ℤ → EventStore → EventStore
after_limit now s = if s.limit_published then record s { output_truncated = true } else record s {
  output_truncated = true;
  sequencer = record (s.sequencer) { sequence = s.sequencer.sequence + 1 };
  events = s.events ++ filled now s.sequencer (empty_event output_limit_reached) ∷ [];
  limit_published = true;
}

store_limit_answered :
    (now : ℤ) (s : EventStore)
    → IsReady s
    → Below s.sequencer
    → is_zero now ≡ false
    → store_limit answered now s ≡ (after_limit now s, none)
unfolding store_limit validate after_limit
store_limit_answered now s r n z =
    ground (arith, publish_answered now s.sequencer (empty_event output_limit_reached))

pub after_limit-Holds : (now : ℤ) (s : EventStore) → IsReady s → Holds s (after_limit now s) []
unfolding after_limit
after_limit-Holds now s r = record {
  ready = ground arith;
  bytes = ground (
    arith,
    append-nil (stored_bytes s.events),
    stored_bytes-snoc s.events (filled now s.sequencer (empty_event output_limit_reached)),
  );
  spent = ground arith;
  budget = ground arith;
  number = ground arith;
}

pub notify_grown-Holds :
    (before : ℕ) (s t : EventStore) (kept : List ℕ)
    → Holds s t kept
    → Holds s (notify_grown before t) kept
unfolding notify_grown
notify_grown-Holds before s t kept h = ground arith

-- What `AppendOutput` leaves.
abbrev pub after_append : ℤ → ℤ → EventStore → RawOutputChunk → EventStore
after_append now now' s c =
    let t = after_retained now s c in
    notify_grown (length s.events) (if exceeds s c then after_limit now' t else t)

pub append_output_answered :
    (now now' : ℤ) (s : EventStore) (c : RawOutputChunk)
    → IsReady s
    → s.sequencer.sequence + 2 < 18446744073709551616
    → is_zero now ≡ false
    → is_zero now' ≡ false
    → known_stream c.stream ≡ true
    → IsBytes c.bytes
    → append_output (answered, now) (answered, now') s c ≡ (after_append now now' s c, none)
unfolding append_output
append_output_answered now now' s c r n z z' k b =
    let h = after_retained-Holds now s c r k b in
    ground (
      arith,
      store_retained_answered now s c r,
      store_limit_answered now' (after_retained now s c) h.ready,
      h.number,
    )
