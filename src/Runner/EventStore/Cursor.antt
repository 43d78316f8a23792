-- ===== src/Runner/EventStore/Cursor.antt =====
-- `EventsAfter` of internal/runner/event_store.go, by which a client that reconnects goes on.
use mini_sand_box.Prelude.{
  ℕ, ◌≤◌, ◌<◌, ◌≡◌, refl, List, [], ◌∷◌, ◌++◌, arith, All, ltb, if◌then◌else◌,
}
use mini_sand_box.Protocol.Events.{ExecutionEvent}
use mini_sand_box.Runner.EventStore.{EventStore, after_cursor, events_after}
use mini_sand_box.Runner.EventStore.Sequences.{Ascending}
use mini_sand_box.Runner.EventStore.Sound.{IsSound}

-- The events that the client has seen.
unfoldable pub up_to : ℕ → List ExecutionEvent → List ExecutionEvent
up_to cursor [] = []
up_to cursor (e ∷ l) = let rest = up_to cursor l in if ltb cursor e.sequence then [] else e ∷ rest

up_to-append-after_cursor :
    (cursor : ℕ) (l : List ExecutionEvent) → up_to cursor l ++ after_cursor cursor l ≡ l
unfolding up_to after_cursor
up_to-append-after_cursor cursor [] = refl
up_to-append-after_cursor cursor (e ∷ l) = ground (arith, up_to-append-after_cursor cursor l)

up_to-le : (cursor : ℕ) (l : List ExecutionEvent) → All (λ e. e.sequence ≤ cursor) (up_to cursor l)
unfolding up_to
up_to-le cursor [] = tt
up_to-le cursor (e ∷ l) = ground (arith, up_to-le cursor l)

Ascending-All :
    (lo : ℕ) (l : List ExecutionEvent) (hi cursor : ℕ)
    → Ascending lo l hi
    → cursor ≤ lo
    → All (λ e. cursor < e.sequence) l
Ascending-All lo [] hi cursor a h = tt
Ascending-All lo (e ∷ l) hi cursor a h =
    (omega (arith, a.0), Ascending-All e.sequence l hi cursor a.1 (omega (arith, a.0)))

after_cursor-lt :
    (cursor lo : ℕ) (l : List ExecutionEvent) (hi : ℕ)
    → Ascending lo l hi
    → All (λ e. cursor < e.sequence) (after_cursor cursor l)
unfolding after_cursor
after_cursor-lt cursor lo [] hi a = tt
after_cursor-lt cursor lo (e ∷ l) hi a =
    ground (arith, after_cursor-lt cursor e.sequence l hi, Ascending-All e.sequence l hi cursor)

-- For any cursor, the events of a sound store fall into those the client has seen, numbered up to
-- the cursor, and those `EventsAfter` returns, numbered above it: none is lost, none comes twice,
-- and the order is kept.
pub events_after_split :
    (s : EventStore) (cursor : ℕ)
    → IsSound s
    → let unseen = (events_after s cursor).0 in
      (up_to cursor s.events ++ unseen ≡ s.events)
      × All (λ e. e.sequence ≤ cursor) (up_to cursor s.events)
      × All (λ e. cursor < e.sequence) unseen
unfolding events_after
events_after_split s cursor v = (
  up_to-append-after_cursor cursor s.events,
  up_to-le cursor s.events,
  after_cursor-lt cursor 0 s.events s.sequencer.sequence v.ascending,
)
