-- ===== src/Runner/EventStore/Sound.antt =====
-- The invariant of the event store of internal/runner/event_store.go, and that `PublishControl`
-- keeps it.
use mini_sand_box.Prelude.{
  ◌+◌, ◌≤◌, ◌≡◌, refl, ap, true, false, not, ◌||◌, String, [], ◌∷◌, ◌++◌, Result, ok, err, arith,
  All, All-append, ◌⊎◌, inl, inr, Bool-cases,
}
use mini_sand_box.Prelude.Int.{ℤ}
use mini_sand_box.Protocol.Events.{ExecutionEvent, is_terminal_type, terminal, validate}
use mini_sand_box.Runner.Sequencer.{EventError, is_started, Delivery, publish}
use mini_sand_box.Runner.Sequencer.Numbering.{publish_ok, publish_error, Below}
use mini_sand_box.Runner.EventStore.{EventStore, publish_control, fill_truncated}
use mini_sand_box.Runner.EventStore.Sequences.{
  Ascending, Ascending-snoc, Ascending-le, one, is_limit, terminals, limits, last_terminal,
  terminals-snoc, limits-snoc, last_terminal-snoc,
}

-- A stored event is valid and carries the ID of the execution.
abbrev pub IsStored : String → ExecutionEvent → Type 0
IsStored id e = (validate e ≡ true) × (e.execution_id ≡ id)

pub record IsSound (s : EventStore) : Type 0 where
  pub within : s.output_bytes ≤ s.max_output_bytes
  pub ascending : Ascending 0 s.events s.sequencer.sequence
  pub stored : All (IsStored s.sequencer.execution_id) s.events
  pub ends : last_terminal s.events ≡ s.is_terminal
  pub once : terminals s.events ≡ one s.is_terminal
  pub limit_once : limits s.events ≡ one s.limit_published
  pub limit_truncated : s.limit_published ≡ true → s.output_truncated ≡ true

-- The store after one more event: what all three appends share.
pub record Grows (s t : EventStore) (e : ExecutionEvent) : Type 0 where
  pub events : t.events ≡ s.events ++ e ∷ []
  pub number : e.sequence ≡ s.sequencer.sequence + 1
  pub sequence : t.sequencer.sequence ≡ s.sequencer.sequence + 1
  pub identity : t.sequencer.execution_id ≡ s.sequencer.execution_id
  pub valid : IsStored s.sequencer.execution_id e
  pub open_before : s.is_terminal ≡ false
  pub terminal_after : t.is_terminal ≡ is_terminal_type e.type
  pub limit_after : one t.limit_published ≡ one s.limit_published + one (is_limit e.type)
  pub truncated_after : t.limit_published ≡ true → t.output_truncated ≡ true
  pub within_after : t.output_bytes ≤ t.max_output_bytes

pub Grows-IsSound : (s t : EventStore) (e : ExecutionEvent) → IsSound s → Grows s t e → IsSound t
Grows-IsSound s t e v g = record {
  within = g.within_after;
  ascending =
      rw (g.events, g.sequence, ← g.number)
        (Ascending-snoc 0 s.events _ e v.ascending (omega (arith, g.number)));
  stored =
      rw (g.events, g.identity)
        (All-append (IsStored s.sequencer.execution_id) s.events (e ∷ []) v.stored (g.valid, tt));
  ends = rw (g.events, g.terminal_after) (last_terminal-snoc s.events e);
  once = ground (arith, ap terminals g.events, terminals-snoc s.events e);
  limit_once = ground (arith, ap limits g.events, limits-snoc s.events e);
  limit_truncated = g.truncated_after;
}

-- A call of the sequencer that stores nothing moves at most its number.
pub record Idles (s t : EventStore) : Type 0 where
  pub events : t.events ≡ s.events
  pub sequence : s.sequencer.sequence ≤ t.sequencer.sequence
  pub identity : t.sequencer.execution_id ≡ s.sequencer.execution_id
  pub same_terminal : t.is_terminal ≡ s.is_terminal
  pub same_limit : t.limit_published ≡ s.limit_published
  pub truncated_after : t.limit_published ≡ true → t.output_truncated ≡ true
  pub within_after : t.output_bytes ≤ t.max_output_bytes

pub Idles-IsSound : (s t : EventStore) → IsSound s → Idles s t → IsSound t
Idles-IsSound s t v g = record {
  within = g.within_after;
  ascending = rw g.events (Ascending-le 0 s.events _ _ v.ascending g.sequence);
  stored = rw (g.events, g.identity) v.stored;
  ends = rw (g.events, g.same_terminal) v.ends;
  once = rw (g.events, g.same_terminal) v.once;
  limit_once = rw (g.events, g.same_limit) v.limit_once;
  limit_truncated = g.truncated_after;
}

abbrev pub Fits : EventStore → Type 0
Fits s = Below s.sequencer

-- `r` is how the sequencer answers.
abbrev pub answer : Delivery → ℤ → EventStore → ExecutionEvent → Result EventError ExecutionEvent
answer d now s draft = (publish d now s.sequencer draft).1

pub Result-cases :
    {A : Type 0} (r : Result EventError A)
    → ((a : A) × (r ≡ ok a)) ⊎ ((e : EventError) × (r ≡ err e))
Result-cases (ok a) = inl (a, refl)
Result-cases (err e) = inr (e, refl)

control_ok :
    (d : Delivery) (now : ℤ) (s : EventStore) (draft e : ExecutionEvent)
    → IsSound s
    → Fits s
    → s.is_terminal ≡ false
    → is_started draft.type ≡ true ⊎ is_terminal_type draft.type ≡ true
    → answer d now s (fill_truncated s draft) ≡ ok e
    → Grows s (publish_control d now s draft).0 e
unfolding publish_control terminal
control_ok d now s draft e v b o k a =
    ground (arith, publish_ok d now s.sequencer (fill_truncated s draft) e, v.limit_truncated)

control_err :
    (d : Delivery) (now : ℤ) (s : EventStore) (draft : ExecutionEvent) (x : EventError)
    → IsSound s
    → Fits s
    → s.is_terminal ≡ false
    → answer d now s (fill_truncated s draft) ≡ err x
    → Idles s (publish_control d now s draft).0
unfolding publish_control
control_err d now s draft x v b o a =
    ground
      (arith, publish_error d now s.sequencer (fill_truncated s draft) {x = x}, v.limit_truncated)

control_refused :
    (d : Delivery) (now : ℤ) (s : EventStore) (draft : ExecutionEvent)
    → s.is_terminal || not (is_started draft.type || is_terminal_type draft.type) ≡ true
    → (publish_control d now s draft).0 ≡ s
unfolding publish_control
control_refused d now s draft h = ground arith

-- `PublishControl` keeps the invariant, whatever becomes of its call of the sequencer.
pub publish_control-IsSound :
    (d : Delivery) (now : ℤ) (s : EventStore) (draft : ExecutionEvent)
    → Below s.sequencer
    → IsSound s
    → IsSound (publish_control d now s draft).0
publish_control-IsSound d now s draft b v =
    elim (Bool-cases
      (s.is_terminal || not (is_started draft.type || is_terminal_type draft.type))) [
        | inl refuses ↦ rw (control_refused d now s draft refuses) v
        | inr accepts ↦ elim (Result-cases (answer d now s (fill_truncated s draft))) [
          | inl (e, a) ↦
              Grows-IsSound s _ e v (control_ok d now s draft e v b (ground arith) (ground arith) a)
          | inr (x, a) ↦ Idles-IsSound s _ v (control_err d now s draft x v b (ground arith) a)
        ]
      ]
