-- ===== src/Runner/EventStore/Sequences.antt =====
-- Lists of events as internal/runner/event_store.go keeps them: numbers that rise, counts of the
-- kinds of event, the last event.
use mini_sand_box.Prelude.{
  ℕ, ◌+◌, ◌≤◌, ◌<◌, ◌≡◌, refl, Bool, true, false, List, [], ◌∷◌, ◌++◌, arith,
}
use mini_sand_box.Protocol.Events.{
  EventType, output_limit_reached, ExecutionEvent, is_terminal_type,
}

-- The numbers rise from above `lo`, and none is above `hi`.
abbrev pub Ascending : ℕ → List ExecutionEvent → ℕ → Type 0
Ascending lo [] hi = lo ≤ hi
Ascending lo (e ∷ l) hi = (lo < e.sequence) × Ascending e.sequence l hi

pub Ascending-snoc :
    (lo : ℕ) (l : List ExecutionEvent) (hi : ℕ) (e : ExecutionEvent)
    → Ascending lo l hi
    → hi < e.sequence
    → Ascending lo (l ++ e ∷ []) e.sequence
Ascending-snoc lo [] hi e a h = (omega arith, omega arith)
Ascending-snoc lo (x ∷ l) hi e a h = (a.0, Ascending-snoc x.sequence l hi e a.1 h)

pub Ascending-le :
    (lo : ℕ) (l : List ExecutionEvent) (hi hi' : ℕ)
    → Ascending lo l hi
    → hi ≤ hi'
    → Ascending lo l hi'
Ascending-le lo [] hi hi' a h = omega arith
Ascending-le lo (x ∷ l) hi hi' a h = (a.0, Ascending-le x.sequence l hi hi' a.1 h)

abbrev pub one : Bool → ℕ
one true = 1
one false = 0

abbrev pub is_limit : EventType → Bool
is_limit output_limit_reached = true
is_limit _ = false

-- How many events are terminal, and how many are limit events.
abbrev pub terminals : List ExecutionEvent → ℕ
terminals [] = 0
terminals (e ∷ l) = one (is_terminal_type e.type) + terminals l

abbrev pub limits : List ExecutionEvent → ℕ
limits [] = 0
limits (e ∷ l) = one (is_limit e.type) + limits l

abbrev pub last_terminal : List ExecutionEvent → Bool
last_terminal [] = false
last_terminal (e ∷ []) = is_terminal_type e.type
last_terminal (e ∷ f ∷ l) = last_terminal (f ∷ l)

pub terminals-snoc :
    (l : List ExecutionEvent) (e : ExecutionEvent)
    → terminals (l ++ e ∷ []) ≡ terminals l + one (is_terminal_type e.type)
terminals-snoc [] e = omega arith
terminals-snoc (x ∷ l) e = omega (arith, terminals-snoc l e)

pub limits-snoc :
    (l : List ExecutionEvent) (e : ExecutionEvent)
    → limits (l ++ e ∷ []) ≡ limits l + one (is_limit e.type)
limits-snoc [] e = omega arith
limits-snoc (x ∷ l) e = omega (arith, limits-snoc l e)

pub last_terminal-snoc :
    (l : List ExecutionEvent) (e : ExecutionEvent)
    → last_terminal (l ++ e ∷ []) ≡ is_terminal_type e.type
last_terminal-snoc [] e = refl
last_terminal-snoc (x ∷ []) e = refl
last_terminal-snoc (x ∷ y ∷ l) e = last_terminal-snoc (y ∷ l) e
