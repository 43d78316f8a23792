-- ===== src/Reconcile/Queue.antt =====
-- internal/reconcile/queue.go: the wake queue that coalesces the wake-ups of each sandbox.
--
-- A method's locked section is a function of its own, which also says whether the method calls
-- `notify` once the lock is released; the method is that section followed by the call. The slot
-- of the `notification` channel is the field `notified`. Receivers are not nil.
use mini_sand_box.Prelude.{
  ℕ, ◌+◌, Bool, true, false, not, String, List, [], ◌∷◌, ◌++◌, Option, none, some, Result, ok, err,
  length, is_nil, is_empty, if◌then◌else◌,
}
use mini_sand_box.Prelude.Maps.{lookup, insert, erase}
pub mod System
pub mod Owner
pub mod Wakeups
pub mod Fifo

pub data WakeState : Type 0 where
  pending processing requeue : WakeState

pub record WakeQueue : Type 0 where
  pub states : List (String × WakeState)
  pub order : List String
  pub notified : Bool
  pub is_closed : Bool

pub data NextError : Type 0 where
  cancelled queue_closed : NextError

unfoldable pub new_wake_queue : WakeQueue
new_wake_queue = record { states = []; order = []; notified = false; is_closed = false }

-- The slot holds one notification; a second one is dropped.
unfoldable pub notify : WakeQueue → WakeQueue
notify q = record q { notified = true }

unfoldable pub notify_if : Bool → WakeQueue → WakeQueue
unfolding notify
notify_if b q = if b then notify q else q

-- The switch on the state of the ID; a missing key falls through to the insertion.
unfoldable pub wake_state : Option WakeState → String → WakeQueue → WakeQueue × Bool × Bool
wake_state (some pending) id q = (q, false, false)
wake_state (some requeue) id q = (q, false, false)
wake_state (some processing) id q = (record q { states = insert id requeue q.states }, true, false)
wake_state none id q =
    (record q { states = insert id pending q.states; order = q.order ++ id ∷ [] }, true, true)

-- The new queue, the result of the method, and whether it notifies.
unfoldable pub wake_section : String → WakeQueue → WakeQueue × Bool × Bool
unfolding wake_state
wake_section id q =
    if is_empty id
    then (q, false, false)
    else if q.is_closed
    then (q, false, false)
    else wake_state (lookup id q.states) id q

unfoldable pub wake : WakeQueue → String → WakeQueue × Bool
unfolding wake_section notify_if
wake q id = let (q', accepted, notifies) = wake_section id q in (notify_if notifies q', accepted)

-- What `Next` does under the lock: the ID taken, `""` where there is none.
unfoldable pub next_order : List String → WakeQueue → WakeQueue × Result NextError String × Bool
next_order [] q = (q, ok "", false)
next_order (id ∷ rest) q =
    (record q { states = insert id processing q.states; order = rest }, ok id, not (is_nil rest))

unfoldable pub next_section : WakeQueue → WakeQueue × Result NextError String × Bool
unfolding next_order
next_section q = if q.is_closed then (q, err queue_closed, false) else next_order q.order q

-- The branch that the first `select` takes; `token` says whether the context is cancelled by then.
pub data Select : Type 0 where
  saw_cancelled saw_closed : Select
  token : Bool → Select

unfoldable pub next : Select → WakeQueue → WakeQueue × Result NextError String
unfolding next_section notify_if notify
next saw_cancelled q = (q, err cancelled)
next saw_closed q = (q, err queue_closed)
next (token true) q = (notify (record q { notified = false }), err cancelled)
next (token false) q =
    let (q', result, notifies) = next_section (record q { notified = false }) in
    (notify_if notifies q', result)

unfoldable pub close : WakeQueue → WakeQueue
close q = record q { is_closed = true }

unfoldable pub done_state : Option WakeState → String → WakeQueue → WakeQueue
done_state (some requeue) id q = record q {
  states = insert id pending q.states;
  order = q.order ++ id ∷ [];
}
done_state (some processing) id q = record q { states = erase id q.states }
done_state _ id q = q

unfoldable pub done_section : String → WakeQueue → WakeQueue × Bool
unfolding done_state
done_section id q =
    if is_empty id
    then (q, false)
    else let q' = done_state (lookup id q.states) id q in (q', not (is_nil q'.order))

unfoldable pub done : WakeQueue → String → WakeQueue
unfolding done_section notify_if
done q id = let (q', notifies) = done_section id q in notify_if notifies q'

unfoldable pub count_requeue : List (String × WakeState) → ℕ
count_requeue [] = 0
count_requeue ((id, requeue) ∷ m) = 1 + count_requeue m
count_requeue ((id, s) ∷ m) = count_requeue m

unfoldable pub len : WakeQueue → ℕ
unfolding count_requeue
len q = length q.order + count_requeue q.states
