-- ===== src/Reconcile/Queue/Owner.antt =====
-- Who owns an ID of the queue of internal/reconcile/queue.go: the queue, one worker, or nobody.
use mini_sand_box.Prelude.{
  ℕ, ◌+◌, ◌≤◌, ◌<◌, ◌≡◌, refl, false, String, List, [], ◌∷◌, Option, none, some, count,
  count-append, count-remove, is_empty, Bool-cases, inl, inr, arith, eq_iff,
}
use mini_sand_box.Prelude.Maps.{lookup, lookup-insert, lookup-erase}
use mini_sand_box.Reconcile.Queue.{
  WakeState, pending, processing, requeue, new_wake_queue, notify, wake_section, next_section,
  done_section, close,
}
use mini_sand_box.Reconcile.Queue.System.{
  System, initial, after_wake, after_notify, after_receive, after_abandon, hand_out, after_next,
  after_done, after_close, Step, wakes, notifies, receives, abandons, takes, finishes, closes,
  Reach, start, next,
}

-- How often an ID in this state stands in `order`, and how many workers hold it.
abbrev pub queued : Option WakeState → ℕ
queued (some pending) = 1
queued _ = 0

abbrev pub working : Option WakeState → ℕ
working (some processing) = 1
working (some requeue) = 1
working _ = 0

pub record Owned (s : System) (j : String) : Type 0 where
  pub in_order : count j s.queue.order ≡ queued (lookup j s.queue.states)
  pub in_held : count j s.held ≡ working (lookup j s.queue.states)

pub record IsOwned (s : System) : Type 0 where
  pub unnamed : lookup "" s.queue.states ≡ none
  pub owned : (j : String) → Owned s j

wake-Owned :
    (id j : String) (s : System)
    → is_empty id ≡ false
    → Owned s id
    → Owned s j
    → Owned (after_wake id s) j
unfolding after_wake wake_section count
wake-Owned id j s e vi vj = ground (
  arith,
  lookup-insert id j pending s.queue.states,
  lookup-insert id j requeue s.queue.states,
  count-append j s.queue.order (id ∷ []),
  eq_iff id j,
)

wake_empty : (s : System) → after_wake "" s ≡ s
unfolding after_wake wake_section
wake_empty s = refl

next-Owned :
    (h j : String) (rest : List String) (s : System)
    → is_empty h ≡ false
    → s.queue.order ≡ h ∷ rest
    → Owned s h
    → Owned s j
    → Owned (after_next s) j
unfolding after_next next_section hand_out count
next-Owned h j rest s e o vh vj =
    ground (arith, lookup-insert h j processing s.queue.states, eq_iff h j)

next_nil-Owned : (j : String) (s : System) → s.queue.order ≡ [] → Owned s j → Owned (after_next s) j
unfolding after_next next_section hand_out
next_nil-Owned j s o v = ground arith

done-Owned :
    (id j : String) (s : System)
    → is_empty id ≡ false
    → 0 < count id s.held
    → Owned s id
    → Owned s j
    → Owned (after_done id s) j
unfolding after_done done_section count
done-Owned id j s e h vi vj = ground (
  arith,
  lookup-insert id j pending s.queue.states,
  lookup-erase id j s.queue.states,
  count-append j s.queue.order (id ∷ []),
  count-remove id j s.held,
  eq_iff id j,
)

wake_unnamed :
    (id : String) (s : System)
    → is_empty id ≡ false
    → lookup "" s.queue.states ≡ none
    → lookup "" (after_wake id s).queue.states ≡ none
unfolding after_wake wake_section
wake_unnamed id s e v =
    ground (
      arith,
      lookup-insert id "" pending s.queue.states,
      lookup-insert id "" requeue s.queue.states,
    )

next_nil_unnamed :
    (s : System)
    → s.queue.order ≡ []
    → lookup "" s.queue.states ≡ none
    → lookup "" (after_next s).queue.states ≡ none
unfolding after_next next_section
next_nil_unnamed s o v = ground arith

next_unnamed :
    (h : String) (rest : List String) (s : System)
    → s.queue.order ≡ h ∷ rest
    → is_empty h ≡ false
    → lookup "" s.queue.states ≡ none
    → lookup "" (after_next s).queue.states ≡ none
unfolding after_next next_section
next_unnamed h rest s o e v = ground (arith, lookup-insert h "" processing s.queue.states)

done_unnamed :
    (id : String) (s : System)
    → is_empty id ≡ false
    → lookup "" s.queue.states ≡ none
    → lookup "" (after_done id s).queue.states ≡ none
unfolding after_done done_section
done_unnamed id s e v =
    ground (arith, lookup-insert id "" pending s.queue.states, lookup-erase id "" s.queue.states)

wake-IsOwned : (id : String) (s : System) → IsOwned s → IsOwned (after_wake id s)
wake-IsOwned id s v = elim (Bool-cases (is_empty id)) [
  | inl e ↦ rw ((eq_iff id "").0 e) (rw wake_empty v)
  | inr e ↦ record {
    unnamed = wake_unnamed id s e v.unnamed;
    owned = λ j. wake-Owned id j s e (v.owned id) (v.owned j);
  }
]

next-IsOwned :
    (order : List String) (s : System) → s.queue.order ≡ order → IsOwned s → IsOwned (after_next s)
unfolding count
next-IsOwned [] s o v = record {
  unnamed = next_nil_unnamed s o v.unnamed;
  owned = λ j. next_nil-Owned j s o (v.owned j);
}
next-IsOwned (h ∷ rest) s o v = record {
  unnamed = next_unnamed h rest s o (named) v.unnamed;
  owned = λ j. next-Owned h j rest s named o (v.owned h) (v.owned j);
}
  where
    named : is_empty h ≡ false
    named = ground (arith, v.owned "", v.unnamed)

done-IsOwned :
    (id : String) (s : System) → 0 < count id s.held → IsOwned s → IsOwned (after_done id s)
done-IsOwned id s h v = record {
  unnamed = done_unnamed id s named v.unnamed;
  owned = λ j. done-Owned id j s named h (v.owned id) (v.owned j);
}
  where
    named : is_empty id ≡ false
    named = ground (arith, v.owned "", v.unnamed, eq_iff id "")

pub Step-IsOwned : {s t : System} → Step s t → IsOwned s → IsOwned t
unfolding after_notify after_receive after_abandon after_close notify close
Step-IsOwned {s} (wakes id) v = wake-IsOwned id s v
Step-IsOwned (notifies h) v = record { unnamed = v.unnamed; owned = λ j. ground (arith, v.owned j) }
Step-IsOwned (receives h) v = record { unnamed = v.unnamed; owned = λ j. ground (arith, v.owned j) }
Step-IsOwned (abandons h) v = record { unnamed = v.unnamed; owned = λ j. ground (arith, v.owned j) }
Step-IsOwned {s} (takes h) v = next-IsOwned s.queue.order s refl v
Step-IsOwned {s} (finishes id h) v = done-IsOwned id s h v
Step-IsOwned closes v = record { unnamed = v.unnamed; owned = λ j. ground (arith, v.owned j) }

initial-IsOwned : IsOwned initial
unfolding initial new_wake_queue count lookup
initial-IsOwned = record { unnamed = refl; owned = λ j. ground arith }

Reach-IsOwned : {s : System} → Reach s → IsOwned s
Reach-IsOwned start = initial-IsOwned
Reach-IsOwned (next r st) = Step-IsOwned st (Reach-IsOwned r)

-- After any interleaving of calls, an ID stands in the pending order at most once and is held by
-- at most one worker, and it is never both queued and held; the state that the queue records
-- for it says which of the two it is.
pub Reach-exclusive :
    {s : System} (j : String)
    → Reach s
    → (count j s.queue.order + count j s.held ≤ 1)
      × (count j s.queue.order ≡ queued (lookup j s.queue.states))
      × (count j s.held ≡ working (lookup j s.queue.states))
Reach-exclusive j r = ground (arith, (Reach-IsOwned r).owned j)
