-- ===== src/Runner/EventStore/Append.antt =====
-- `AppendOutput` of internal/runner/event_store.go keeps the invariant of the store.
use mini_sand_box.Prelude.{
  ℕ, ◌+◌, ◌≤◌, ◌<◌, ◌≡◌, ◌∙◌, Bool, true, false, not, ◌||◌, Option, none, some, ok, err, length,
  take, ltb, arith, inl, inr, Bool-cases,
}
use mini_sand_box.Prelude.Int.{ℤ}
use mini_sand_box.Prelude.Base64.{encode}
use mini_sand_box.Protocol.Events.{output_limit_reached, ExecutionEvent, empty_event}
use mini_sand_box.Runner.Sequencer.{EventError, Delivery}
use mini_sand_box.Runner.Sequencer.Numbering.{publish_ok, publish_error, publish_bump}
use mini_sand_box.Runner.EventStore.{
  EventStore, RawOutputChunk, append_output, store_retained, store_limit, known_stream,
  stream_event, exceeds, retained, notify_grown, append_announced, append_rest,
}
use mini_sand_box.Runner.EventStore.Sound.{
  IsSound, Grows, Grows-IsSound, Idles, Idles-IsSound, Fits, answer, Result-cases,
}

abbrev output_draft : EventStore → RawOutputChunk → ExecutionEvent
output_draft s c = record (empty_event (stream_event c.stream)) {
  data_base64 = encode (take (retained s c) c.bytes);
}

retained_ok :
    (d : Delivery) (now : ℤ) (s : EventStore) (c : RawOutputChunk) (e : ExecutionEvent)
    → IsSound s
    → Fits s
    → s.is_terminal ≡ false
    → ltb 0 (retained s c) ≡ true
    → answer d now s (output_draft s c) ≡ ok e
    → Grows s (store_retained d now s c).0 e
unfolding store_retained
retained_ok d now s c e v b o k a =
    ground (arith, publish_ok d now s.sequencer (output_draft s c) e, v.limit_truncated)

retained_err :
    (d : Delivery) (now : ℤ) (s : EventStore) (c : RawOutputChunk) (x : EventError)
    → IsSound s
    → Fits s
    → ltb 0 (retained s c) ≡ true
    → answer d now s (output_draft s c) ≡ err x
    → Idles s (store_retained d now s c).0
unfolding store_retained
retained_err d now s c x v b k a =
    ground (arith, publish_error d now s.sequencer (output_draft s c) {x = x}, v.limit_truncated)

retained_none :
    (d : Delivery) (now : ℤ) (s : EventStore) (c : RawOutputChunk)
    → ltb 0 (retained s c) ≡ false
    → (store_retained d now s c).0 ≡ s
unfolding store_retained
retained_none d now s c k = ground arith

retained_frame :
    (d : Delivery) (now : ℤ) (s : EventStore) (c : RawOutputChunk)
    → Fits s
    → let t = (store_retained d now s c).0 in
      (t.is_terminal ≡ s.is_terminal) × (t.sequencer.sequence ≤ s.sequencer.sequence + 1)
unfolding store_retained
retained_frame d now s c b = ground (arith, publish_bump d now s.sequencer (output_draft s c) b)

store_retained-IsSound :
    (d : Delivery) (now : ℤ) (s : EventStore) (c : RawOutputChunk)
    → IsSound s
    → Fits s
    → s.is_terminal ≡ false
    → IsSound (store_retained d now s c).0
store_retained-IsSound d now s c v b o = elim (Bool-cases (ltb 0 (retained s c))) [
  | inl some_bytes ↦ elim (Result-cases (answer d now s (output_draft s c))) [
    | inl (e, a) ↦ Grows-IsSound s _ e v (retained_ok d now s c e v b o some_bytes a)
    | inr (x, a) ↦ Idles-IsSound s _ v (retained_err d now s c x v b some_bytes a)
  ]
  | inr no_bytes ↦ rw (retained_none d now s c no_bytes) v
]

limit_ok :
    (d : Delivery) (now : ℤ) (s : EventStore) (e : ExecutionEvent)
    → IsSound s
    → Fits s
    → s.is_terminal ≡ false
    → s.limit_published ≡ false
    → answer d now s (empty_event output_limit_reached) ≡ ok e
    → Grows s (store_limit d now s).0 e
unfolding store_limit
limit_ok d now s e v b o k a =
    ground (arith, publish_ok d now s.sequencer (empty_event output_limit_reached) e)

limit_err :
    (d : Delivery) (now : ℤ) (s : EventStore) (x : EventError)
    → IsSound s
    → Fits s
    → answer d now s (empty_event output_limit_reached) ≡ err x
    → Idles s (store_limit d now s).0
unfolding store_limit
limit_err d now s x v b a =
    ground (arith, publish_error d now s.sequencer (empty_event output_limit_reached) {x = x})

limit_again :
    (d : Delivery) (now : ℤ) (s : EventStore)
    → IsSound s
    → s.limit_published ≡ true
    → Idles s (store_limit d now s).0
unfolding store_limit
limit_again d now s v k = ground arith

store_limit-IsSound :
    (d : Delivery) (now : ℤ) (s : EventStore)
    → IsSound s
    → Fits s
    → s.is_terminal ≡ false
    → IsSound (store_limit d now s).0
store_limit-IsSound d now s v b o = elim (Bool-cases s.limit_published) [
  | inl again ↦ Idles-IsSound s _ v (limit_again d now s v again)
  | inr first ↦ elim (Result-cases (answer d now s (empty_event output_limit_reached))) [
    | inl (e, a) ↦ Grows-IsSound s _ e v (limit_ok d now s e v b o first a)
    | inr (x, a) ↦ Idles-IsSound s _ v (limit_err d now s x v b a)
  ]
]

notify_grown-IsSound : (before : ℕ) (s : EventStore) → IsSound s → IsSound (notify_grown before s)
unfolding notify_grown
notify_grown-IsSound before s v = ground arith

append_announced-IsSound :
    (before : ℕ) (r : EventStore × Option EventError)
    → IsSound r.0
    → IsSound (append_announced before r).0
unfolding append_announced
append_announced-IsSound before (s, some e) v = v
append_announced-IsSound before (s, none) v = notify_grown-IsSound before s v

append_rest-IsSound :
    (d : Delivery) (now : ℤ) (before : ℕ) (truncated : Bool) (r : EventStore × Option EventError)
    → IsSound r.0
    → Fits r.0
    → r.0.is_terminal ≡ false
    → IsSound (append_rest d now before truncated r).0
unfolding append_rest
append_rest-IsSound d now before truncated (s, some e) v b o = v
append_rest-IsSound d now before true (s, none) v b o =
    append_announced-IsSound before (store_limit d now s) (store_limit-IsSound d now s v b o)
append_rest-IsSound d now before false (s, none) v b o = append_announced-IsSound before (s, none) v

append_refused :
    (a b : Delivery × ℤ) (s : EventStore) (c : RawOutputChunk)
    → not (known_stream c.stream) || s.is_terminal ≡ true
    → (append_output a b s c).0 ≡ s
unfolding append_output
append_refused a b s c h = ground arith

append_accepted :
    (d d' : Delivery) (now now' : ℤ) (s : EventStore) (c : RawOutputChunk)
    → not (known_stream c.stream) || s.is_terminal ≡ false
    → append_output (d, now) (d', now') s c
      ≡ append_rest d' now' (length s.events) (exceeds s c) (store_retained d now s c)
unfolding append_output
append_accepted d d' now now' s c h = ground arith

-- `AppendOutput` keeps the invariant, whatever becomes of its two calls of the sequencer, as long
-- as their numbers do not wrap.
pub append_output-IsSound :
    (a b : Delivery × ℤ) (s : EventStore) (c : RawOutputChunk)
    → s.sequencer.sequence + 2 < 18446744073709551616
    → IsSound s
    → IsSound (append_output a b s c).0
append_output-IsSound (d, now) (d', now') s c b v =
    elim (Bool-cases (not (known_stream c.stream) || s.is_terminal)) [
      | inl refuses ↦ rw (append_refused (d, now) (d', now') s c refuses) v
      | inr accepts ↦
          let o : s.is_terminal ≡ false = ground arith in
          let (same, number) = retained_frame d now s c (omega arith) in
          rw (append_accepted d d' now now' s c accepts) (
            append_rest-IsSound d' now' (length s.events) (exceeds s c) (store_retained d now s c)
              (store_retained-IsSound d now s c v (omega arith) o) (omega (arith, number))
              (same ∙ o))
    ]
