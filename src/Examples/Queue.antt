-- ===== src/Examples/Queue.antt =====
-- internal/reconcile/queue.go on one sandbox that is woken, taken, and woken again.
use mini_sand_box.Prelude.{
  ◌+◌, ◌++◌, [], ◌≤◌, ◌<◌, ◌≡◌, ◌⊎◌, refl, true, false, ◌∷◌, ok, count, length, map, is_nil,
  if◌then◌else◌, arith,
}
use mini_sand_box.Prelude.Maps.{lookup, insert}
use mini_sand_box.Reconcile.Queue.{
  WakeQueue, new_wake_queue, notify, wake, wake_section, wake_state, next_section, next_order,
  notify_if, len, count_requeue,
}
use mini_sand_box.Reconcile.Queue.System.{
  System, initial, after_wake, after_notify, after_receive, after_next, wakes, notifies, receives,
  takes, Reach, start, next,
}
use mini_sand_box.Reconcile.Queue.Owner.{queued, working, Reach-exclusive}
use mini_sand_box.Reconcile.Queue.Fifo.{wake_all, serve, are_new, is_told, serve_fifo}
use mini_sand_box.Reconcile.Queue.Wakeups.{owed, IsOwed, wake-IsOwed, Step-IsOwed, Reach-IsAttended}

abbrev queued_once : System
queued_once = after_wake "a" initial

abbrev announced : System
announced = after_receive (after_notify queued_once)

abbrev handed_out : System
handed_out = after_next announced

abbrev woken_again : System
woken_again = after_wake "a" handed_out

queued_Reach : Reach queued_once
queued_Reach = next start (wakes "a")

announced_Reach : Reach announced
unfolding initial new_wake_queue after_wake wake_section wake_state after_notify notify lookup
announced_Reach = next (next queued_Reach (notifies (omega arith))) (receives refl)

announced_waking : 0 < announced.waking
unfolding after_receive after_notify after_wake initial
announced_waking = omega arith

handed_Reach : Reach handed_out
handed_Reach = next announced_Reach (takes announced_waking)

woken_Reach : Reach woken_again
woken_Reach = next handed_Reach (wakes "a")

announced-IsOwed : IsOwed "a" announced
unfolding initial new_wake_queue after_wake wake_section wake_state after_notify notify
    after_receive lookup insert
announced-IsOwed = refl

Reach-exclusive_example :
    (count "a" woken_again.queue.order + count "a" woken_again.held ≤ 1)
    × (count "a" woken_again.queue.order ≡ queued (lookup "a" woken_again.queue.states))
    × (count "a" woken_again.held ≡ working (lookup "a" woken_again.queue.states))
Reach-exclusive_example = Reach-exclusive "a" woken_Reach

Step-IsOwed_example : IsOwed "a" handed_out ⊎ (handed_out.held ≡ "a" ∷ announced.held)
Step-IsOwed_example = Step-IsOwed "a" announced_Reach (takes announced_waking) refl announced-IsOwed

queued_nonempty : is_nil queued_once.queue.order ≡ false
unfolding initial new_wake_queue after_wake wake_section wake_state lookup
queued_nonempty = refl

queued_open : queued_once.queue.is_closed ≡ false
unfolding initial new_wake_queue after_wake wake_section wake_state lookup
queued_open = refl

Reach-IsAttended_example :
    (queued_once.queue.notified ≡ true) ⊎ (0 < queued_once.notifying) ⊎ (0 < queued_once.waking)
Reach-IsAttended_example = Reach-IsAttended queued_Reach queued_open queued_nonempty

handed_open : handed_out.queue.is_closed ≡ false
unfolding initial new_wake_queue after_wake wake_section wake_state after_notify notify
    after_receive after_next next_section next_order lookup
handed_open = refl

wake-IsOwed_example :
    IsOwed "a" (after_wake "a" handed_out)
    × ((wake handed_out.queue "a").1
        ≡ (if owed (lookup "a" handed_out.queue.states) then false else true))
wake-IsOwed_example = wake-IsOwed "a" handed_out refl handed_open

abbrev two_queued : WakeQueue
two_queued = (wake (wake new_wake_queue "b").0 "a").0

two_told : is_told two_queued ≡ true
unfolding wake wake_section wake_state notify_if new_wake_queue lookup insert
two_told = refl

two_new : are_new ("c" ∷ "d" ∷ []) two_queued.states ≡ true
unfolding are_new wake wake_section wake_state notify_if new_wake_queue lookup insert
two_new = refl

serve_fifo_example :
    serve (length (two_queued.order ++ "c" ∷ "d" ∷ [])) (wake_all ("c" ∷ "d" ∷ []) two_queued)
    ≡ map ok (two_queued.order ++ "c" ∷ "d" ∷ [])
serve_fifo_example = serve_fifo two_queued ("c" ∷ "d" ∷ []) two_told two_new

initial_len : len initial.queue ≡ 0
unfolding initial new_wake_queue len count_requeue
initial_len = refl

handed_len : len handed_out.queue ≡ 0
unfolding initial new_wake_queue after_wake wake_section wake_state after_notify notify
    after_receive after_next next_section next_order lookup insert len count_requeue
handed_len = refl
