-- ===== src/Reconcile/Queue/System.antt =====
-- The queue of internal/reconcile/queue.go together with the goroutines that call it, as
-- interleaved steps: a locked section, a receive from the channel and a send are one step each.
use mini_sand_box.Prelude.{
  ℕ, suc, ◌+◌, ◌-◌, ◌<◌, ◌≡◌, Bool, true, false, String, List, [], ◌∷◌, Result, ok, err, count,
  remove, if◌then◌else◌, is_empty,
}
use mini_sand_box.Reconcile.Queue.{
  WakeQueue, NextError, new_wake_queue, notify, wake_section, next_section, done_section, close,
}

-- `notifying` goroutines have left a locked section and are about to call `notify`; `waking` ones
-- have received the notification and are about to look at the queue; `held` lists the IDs that
-- `Next` handed to a worker whose `Done` has not run.
pub record System : Type 0 where
  pub queue : WakeQueue
  pub notifying : ℕ
  pub waking : ℕ
  pub held : List String

unfoldable pub initial : System
initial = record { queue = new_wake_queue; notifying = 0; waking = 0; held = [] }

abbrev pub owing : Bool → ℕ → ℕ
owing true n = suc n
owing false n = n

unfoldable pub after_wake : String → System → System
after_wake id s =
    let (q, accepted, notifies) = wake_section id s.queue in
    record s { queue = q; notifying = owing notifies s.notifying }

unfoldable pub after_notify : System → System
after_notify s = record s { queue = notify s.queue; notifying = s.notifying - 1 }

unfoldable pub after_receive : System → System
after_receive s = record s { queue = record (s.queue) { notified = false }; waking = s.waking + 1 }

-- The context is cancelled after the receive: the notification is put back.
unfoldable pub after_abandon : System → System
after_abandon s = record s { waking = s.waking - 1; notifying = s.notifying + 1 }

-- The worker gets an ID unless the result is an error or the empty text.
unfoldable pub hand_out : Result NextError String → List String → List String
hand_out (ok id) held = if is_empty id then held else id ∷ held
hand_out (err e) held = held

unfoldable pub after_next : System → System
after_next s =
    let (q, result, notifies) = next_section s.queue in
    record s {
      queue = q;
      waking = s.waking - 1;
      notifying = owing notifies s.notifying;
      held = hand_out result s.held;
    }

unfoldable pub after_done : String → System → System
after_done id s =
    let (q, notifies) = done_section id s.queue in
    record s { queue = q; notifying = owing notifies s.notifying; held = remove id s.held }

unfoldable pub after_close : System → System
after_close s = record s { queue = close s.queue }

pub data Step (s : System) : System → Type 0 where
  wakes : (id : String) → Step s (after_wake id s)
  notifies : 0 < s.notifying → Step s (after_notify s)
  receives : s.queue.notified ≡ true → Step s (after_receive s)
  abandons : 0 < s.waking → Step s (after_abandon s)
  takes : 0 < s.waking → Step s (after_next s)
  finishes : (id : String) → 0 < count id s.held → Step s (after_done id s)
  closes : Step s (after_close s)

pub data Reach : System → Type 0 where
  start : Reach initial
  next : {s t : System} → Reach s → Step s t → Reach t
