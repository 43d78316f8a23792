-- ===== src/Reconcile/Queue/Wakeups.antt =====
-- What becomes of a wake-up of internal/reconcile/queue.go: it is recorded, it stays recorded
-- until a worker takes it, and while one is recorded some goroutine will look at the queue.
use mini_sand_box.Prelude.{
  ◌≤◌, ◌<◌, ◌≡◌, ◌⊎◌, refl, Bool, true, false, String, List, [], ◌∷◌, Option, some, count,
  if◌then◌else◌, is_empty, inl, arith, eq_iff, is_nil, length,
}
use mini_sand_box.Prelude.Maps.{lookup, lookup-insert, lookup-erase}
use mini_sand_box.Reconcile.Queue.{
  WakeState, pending, processing, requeue, new_wake_queue, notify, wake_section, next_section,
  done_section, close, wake, count_requeue, len,
}
use mini_sand_box.Reconcile.Queue.Owner.{Reach-exclusive, working}
use mini_sand_box.Reconcile.Queue.System.{
  System, initial, after_wake, after_notify, after_receive, after_abandon, hand_out, after_next,
  after_done, after_close, Step, wakes, notifies, receives, abandons, takes, finishes, closes,
  Reach, start, next,
}

-- The states in which the queue still owes the sandbox a run.
abbrev pub owed : Option WakeState → Bool
owed (some pending) = true
owed (some requeue) = true
owed _ = false

abbrev pub IsOwed : String → System → Type 0
IsOwed id s = owed (lookup id s.queue.states) ≡ true

-- A wake-up of a named sandbox, while the queue is open, is recorded, in whatever state the
-- sandbox was; the call reports whether that is news.
pub wake-IsOwed :
    (id : String) (s : System)
    → is_empty id ≡ false
    → s.queue.is_closed ≡ false
    → IsOwed id (after_wake id s)
      × ((wake s.queue id).1 ≡ (if owed (lookup id s.queue.states) then false else true))
unfolding after_wake wake
wake-IsOwed id s e o = ground (
  arith,
  lookup-insert id id pending s.queue.states,
  lookup-insert id id requeue s.queue.states,
  eq_iff id id,
)

-- What a step does to the wake-up that is owed to `id`.
abbrev pub Kept : String → System → System → Type 0
Kept id s t = IsOwed id t ⊎ (t.held ≡ id ∷ s.held)

wake-Kept : (id j : String) (s : System) → IsOwed j s → Kept j s (after_wake id s)
unfolding after_wake wake_section
wake-Kept id j s w = ground (
  arith,
  lookup-insert id j pending s.queue.states,
  lookup-insert id j requeue s.queue.states,
  eq_iff id j,
)

next-Kept :
    (j : String) (order : List String) (s : System)
    → s.queue.order ≡ order
    → is_empty j ≡ false
    → IsOwed j s
    → Kept j s (after_next s)
unfolding after_next next_section hand_out
next-Kept j [] s o e w = ground arith
next-Kept j (h ∷ rest) s o e w =
    ground (arith, lookup-insert h j processing s.queue.states, eq_iff h j)

done-Kept :
    (id j : String) (s : System)
    → (count j s.held ≡ working (lookup j s.queue.states))
    → 0 < count id s.held
    → IsOwed j s
    → Kept j s (after_done id s)
unfolding after_done done_section
done-Kept id j s v h w = ground (
  arith,
  lookup-insert id j pending s.queue.states,
  lookup-erase id j s.queue.states,
  eq_iff id j,
)

-- No step of any interleaving drops a recorded wake-up: it stays recorded, or the step is the
-- `Next` that hands the ID to a worker.
pub Step-IsOwed :
    (id : String) {s t : System}
    → Reach s
    → Step s t
    → is_empty id ≡ false
    → IsOwed id s
    → IsOwed id t ⊎ (t.held ≡ id ∷ s.held)
unfolding after_notify after_receive after_abandon after_close notify close
Step-IsOwed j {s} r (wakes id) e w = wake-Kept id j s w
Step-IsOwed j r (notifies h) e w = inl w
Step-IsOwed j r (receives h) e w = inl w
Step-IsOwed j r (abandons h) e w = inl w
Step-IsOwed j {s} r (takes h) e w = next-Kept j s.queue.order s refl e w
Step-IsOwed j {s} r (finishes id h) e w = done-Kept id j s (Reach-exclusive j r).2 h w
Step-IsOwed j r closes e w = inl w

-- Somebody is going to look at the queue.
abbrev pub IsAttended : System → Type 0
IsAttended s = (s.queue.notified ≡ true) ⊎ (0 < s.notifying) ⊎ (0 < s.waking)

IsLively : System → Type 0
IsLively s = s.queue.is_closed ≡ false → is_nil s.queue.order ≡ false → IsAttended s

wake-IsLively : (id : String) (s : System) → IsLively s → IsLively (after_wake id s)
unfolding IsLively after_wake wake_section
wake-IsLively id s v o n = ground arith

next-IsLively : (order : List String) (s : System) → s.queue.order ≡ order → IsLively (after_next s)
unfolding IsLively after_next next_section
next-IsLively [] s e o n = ground arith
next-IsLively (h ∷ rest) s e o n = ground arith

done-IsLively : (id : String) (s : System) → IsLively s → IsLively (after_done id s)
unfolding IsLively after_done done_section
done-IsLively id s v o n = ground arith

Step-IsLively : {s t : System} → Step s t → IsLively s → IsLively t
unfolding IsLively after_notify after_receive after_abandon after_close notify close
Step-IsLively {s} (wakes id) v = wake-IsLively id s v
Step-IsLively (notifies h) v = λ o n. inl refl
Step-IsLively (receives h) v = λ o n. ground arith
Step-IsLively (abandons h) v = λ o n. ground arith
Step-IsLively {s} (takes h) v = next-IsLively s.queue.order s refl
Step-IsLively {s} (finishes id h) v = done-IsLively id s v
Step-IsLively closes v = λ o n. ground arith

initial-IsLively : IsLively initial
unfolding IsLively initial new_wake_queue
initial-IsLively o n = ground arith

Reach-IsLively : {s : System} → Reach s → IsLively s
Reach-IsLively start = initial-IsLively
Reach-IsLively (next r st) = Step-IsLively st (Reach-IsLively r)

-- In no interleaving do the workers sleep on a non-empty open queue: the channel holds a
-- notification, or a goroutine is about to send one, or one has just received it.
pub Reach-IsAttended :
    {s : System}
    → Reach s
    → s.queue.is_closed ≡ false
    → is_nil s.queue.order ≡ false
    → (s.queue.notified ≡ true) ⊎ (0 < s.notifying) ⊎ (0 < s.waking)
unfolding IsLively
Reach-IsAttended r = Reach-IsLively r

lookup-count_requeue :
    (j : String) (m : List (String × WakeState)) → lookup j m ≡ some requeue → 0 < count_requeue m
unfolding lookup count_requeue
lookup-count_requeue j [] e = ground arith
lookup-count_requeue j ((i, requeue) ∷ m) e = omega arith
lookup-count_requeue j ((i, pending) ∷ m) e = ground (arith, lookup-count_requeue j m)
lookup-count_requeue j ((i, processing) ∷ m) e = ground (arith, lookup-count_requeue j m)

count-le-length : (j : String) (l : List String) → count j l ≤ length l
unfolding count
count-le-length j [] = omega arith
count-le-length j (i ∷ l) = ground (arith, count-le-length j l)

-- `Len` is 0 only if no wake-up is owed to anybody.
pub Reach-len :
    {s : System} (j : String) → Reach s → len s.queue ≡ 0 → owed (lookup j s.queue.states) ≡ false
unfolding len
Reach-len {s} j r e = ground (
  arith,
  (Reach-exclusive j r).1,
  count-le-length j s.queue.order,
  lookup-count_requeue j s.queue.states,
)
