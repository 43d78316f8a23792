-- ===== src/Runner/Arbiter/FirstWins.antt =====
-- Which candidate wins in internal/runner/terminal_arbiter.go, over every order of submissions and
-- of the end of the process.
use mini_sand_box.Prelude.{
  ◌≡◌, refl, Bool, true, false, ◌&&◌, ◌||◌, List, [], ◌∷◌, Option, none, some, is_some, ok,
  if◌then◌else◌, arith,
}
use mini_sand_box.Prelude.Int.{ℤ}
use mini_sand_box.Runner.Execution.{Execution, reason_eq}
use mini_sand_box.Runner.Sequencer.{Delivery, refused, answered, forgotten}
use mini_sand_box.Runner.EventStore.{EventStore}
use mini_sand_box.Runner.Arbiter.{
  TerminalCandidate, TerminalDecision, validate_terminal_candidate, TerminalArbiter,
  new_terminal_arbiter, finalize, handle_request, submit, settle, settle_winner, publish_winner,
  keep_winner, decide,
}

-- What the arbiter sees: the end of the process, or a call of `Submit`.
pub data ArbiterEvent : Type 0 where
  finishes : Delivery → ℤ → ArbiterEvent
  submits : Delivery → Delivery → ℤ → TerminalCandidate → ArbiterEvent

unfoldable pub act : ArbiterEvent → TerminalArbiter → TerminalArbiter
act (finishes d now) a = finalize d now a
act (submits call d now c) a = (submit call d now c a).0

unfoldable pub run : TerminalArbiter → List ArbiterEvent → TerminalArbiter
run a [] = a
run a (e ∷ l) = run (act e a) l

abbrev pub reaches : Delivery → Bool
reaches refused = false
reaches _ = true

-- The first valid candidate whose request gets through.
abbrev pub first_valid : List ArbiterEvent → Option TerminalCandidate
first_valid [] = none
first_valid (finishes d now ∷ l) = first_valid l
first_valid (submits call d now c ∷ l) =
    let rest = first_valid l in
    if reaches call && validate_terminal_candidate c then some c else rest

abbrev pub has_finished : List ArbiterEvent → Bool
has_finished [] = false
has_finished (finishes d now ∷ l) = true
has_finished (submits call d now c ∷ l) = has_finished l

abbrev pub or_else : Option TerminalCandidate → Option TerminalCandidate → Option TerminalCandidate
or_else none o = o
or_else (some c) o = some c

-- The arbiter is done exactly if the process has finished and there is a winner.
abbrev IsSettled : TerminalArbiter → Type 0
IsSettled a = a.done ≡ (a.finalized && is_some a.winner)

publish_winner_frame :
    (d : Delivery) (now : ℤ) (w : TerminalCandidate) (a : TerminalArbiter)
    → let b = publish_winner d now w a in (b.winner ≡ a.winner) × (b.finalized ≡ a.finalized)
unfolding publish_winner
publish_winner_frame d now w a = ground arith

settle_frame :
    (d : Delivery) (now : ℤ) (a : TerminalArbiter)
    → let b = settle d now a in
      (b.winner ≡ a.winner)
      × (b.finalized ≡ a.finalized)
      × (b.done ≡ (if a.finalized && is_some a.winner then true else a.done))
unfolding settle settle_winner
settle_frame d now a = ground (arith, λ (w : TerminalCandidate). publish_winner_frame d now w a)

-- The candidate and the end that one event brings.
abbrev brings : ArbiterEvent → Option TerminalCandidate
brings (finishes d now) = none
brings (submits call d now c) =
    if reaches call && validate_terminal_candidate c then some c else none

abbrev ends : ArbiterEvent → Bool
ends (finishes d now) = true
ends (submits call d now c) = false

-- The state of the arbiter after an event, as far as the choice of the winner goes.
record Advances (a b : TerminalArbiter) (e : ArbiterEvent) : Type 0 where
  winner : b.winner ≡ or_else a.winner (brings e)
  finalized : b.finalized ≡ (a.finalized || ends e)
  settled : IsSettled b

finalize-Advances :
    (d : Delivery) (now : ℤ) (a : TerminalArbiter)
    → IsSettled a
    → Advances a (finalize d now a) (finishes d now)
unfolding finalize
finalize-Advances d now a h = ground (arith, settle_frame d now (record a { finalized = true }))

handled-Advances :
    (call d : Delivery) (now : ℤ) (c : TerminalCandidate) (a : TerminalArbiter)
    → IsSettled a
    → a.done ≡ false
    → reaches call && validate_terminal_candidate c ≡ true
    → Advances a (handle_request d now c a).0 (submits call d now c)
unfolding handle_request
handled-Advances call d now c a h n k =
    ground (arith, settle_frame d now (record a { winner = some (keep_winner a.winner c) }))

submit-Advances :
    (call d : Delivery) (now : ℤ) (c : TerminalCandidate) (a : TerminalArbiter)
    → IsSettled a
    → Advances a (submit call d now c a).0 (submits call d now c)
unfolding submit
submit-Advances refused d now c a h = ground arith
submit-Advances answered d now c a h = ground (arith, handled-Advances answered d now c a h)
submit-Advances forgotten d now c a h = ground (arith, handled-Advances forgotten d now c a h)

act-Advances : (e : ArbiterEvent) (a : TerminalArbiter) → IsSettled a → Advances a (act e a) e
unfolding act
act-Advances (finishes d now) a h = finalize-Advances d now a h
act-Advances (submits call d now c) a h = submit-Advances call d now c a h

run_winner :
    (a : TerminalArbiter) (l : List ArbiterEvent)
    → IsSettled a
    → let b = run a l in
      (b.winner ≡ or_else a.winner (first_valid l))
      × (b.finalized ≡ (a.finalized || has_finished l))
      × IsSettled b
unfolding run
run_winner a [] h = ground arith
run_winner a (finishes d now ∷ l) h =
    let v = act-Advances (finishes d now) a h in
    ground (arith, v.winner, v.finalized, run_winner (act (finishes d now) a) l v.settled)
run_winner a (submits call d now c ∷ l) h =
    let v = act-Advances (submits call d now c) a h in
    ground (arith, v.winner, v.finalized, run_winner (act (submits call d now c) a) l v.settled)

-- Over every list of submissions and ends, the winner is the first valid candidate whose request
-- got through, for good; and the arbiter is done exactly when there is a winner and the process
-- has finished, whichever came first.
pub run-first_valid :
    (e : Execution) (s : EventStore) (l : List ArbiterEvent)
    → let b = run (new_terminal_arbiter e s) l in
      (b.winner ≡ first_valid l) × (b.done ≡ (has_finished l && is_some (first_valid l)))
unfolding new_terminal_arbiter
run-first_valid e s l = ground (arith, run_winner (new_terminal_arbiter e s) l refl)

settle_open :
    (d : Delivery) (now : ℤ) (a : TerminalArbiter) → a.finalized ≡ false → settle d now a ≡ a
unfolding settle
settle_open d now a h = ground arith

submit_open_frame :
    (call d : Delivery) (now : ℤ) (c : TerminalCandidate) (a : TerminalArbiter)
    → a.finalized ≡ false
    → let b = (submit call d now c a).0 in
      (b.execution ≡ a.execution) × (b.store ≡ a.store) × (b.finalized ≡ false)
unfolding submit handle_request
submit_open_frame refused d now c a h = ground arith
submit_open_frame answered d now c a h =
    ground (arith, settle_open d now (record a { winner = some (keep_winner a.winner c) }))
submit_open_frame forgotten d now c a h =
    ground (arith, settle_open d now (record a { winner = some (keep_winner a.winner c) }))

-- Until the process and its pipes have finished, no submission touches the execution or the events.
pub run_before_end :
    (a : TerminalArbiter) (l : List ArbiterEvent)
    → a.finalized ≡ false
    → has_finished l ≡ false
    → ((run a l).execution ≡ a.execution) × ((run a l).store ≡ a.store)
unfolding run act
run_before_end a [] h n = (refl, refl)
run_before_end a (finishes d now ∷ l) h n = ground arith
run_before_end a (submits call d now c ∷ l) h n =
    let f = submit_open_frame call d now c a h in
    ground (arith, run_before_end (submit call d now c a).0 l f.2 n, f)

handled :
    (d : Delivery) (now : ℤ) (c : TerminalCandidate) (a : TerminalArbiter)
    → ((handle_request d now c a).0.winner ≡ some (keep_winner a.winner c))
      × ((handle_request d now c a).1 ≡ decide (keep_winner a.winner c) c)
unfolding handle_request
handled d now c a =
    ((settle_frame d now (record a { winner = some (keep_winner a.winner c) })).0, refl)

told :
    (call d : Delivery) (now : ℤ) (c : TerminalCandidate) (a : TerminalArbiter)
    {answer : TerminalDecision}
    → IsSettled a
    → (submit call d now c a).1 ≡ ok answer
    → ((submit call d now c a).0.winner ≡ some (keep_winner a.winner c))
      × (answer ≡ decide (keep_winner a.winner c) c)
unfolding submit keep_winner
told refused d now c a v h = ground arith
told answered d now c a v h = ground (arith, handled d now c a)
told forgotten d now c a v h = ground arith

-- A caller that gets a decision is told the winner as it stands after the call, and that it has
-- won exactly if its reason is the winner's.
pub submit_decision :
    (e : Execution) (s : EventStore) (l : List ArbiterEvent) (call d : Delivery) (now : ℤ)
    (c : TerminalCandidate) {answer : TerminalDecision}
    → (submit call d now c (run (new_terminal_arbiter e s) l)).1 ≡ ok answer
    → (w : TerminalCandidate) × ((submit call d now c (run (new_terminal_arbiter e s) l)).0.winner
        ≡ some w)
      × (answer ≡ record { won = reason_eq w.reason c.reason; winner = w.reason })
unfolding new_terminal_arbiter
submit_decision e s l call d now c h =
    let a = run (new_terminal_arbiter e s) l in
    let t = told call d now c a (run_winner (new_terminal_arbiter e s) l refl).2 h in
    (keep_winner a.winner c, t.0, t.1)
