-- ===== src/Reconcile/Queue/Fifo.antt =====
-- The order in which `Next` of internal/reconcile/queue.go hands out what `Wake` has queued.
use mini_sand_box.Prelude.{
  ℕ, zero, suc, ◌≡◌, refl, sym, ◌∙◌, ap, Bool, true, false, not, ◌&&◌, ◌||◌, String, List, [], ◌∷◌,
  ◌++◌, Option, none, some, Result, ok, if◌then◌else◌, is_empty, is_nil, is_none, and_split, arith,
  length, map,
}
use mathlib.Core.List.{append_assoc, append-nil}
use mini_sand_box.Prelude.Maps.{lookup, insert}
use mini_sand_box.Reconcile.Queue.{
  WakeState, pending, WakeQueue, NextError, notify, notify_if, wake_state, wake_section, wake,
  next_order, next_section, token,
}
use mini_sand_box.Reconcile.Queue

-- Calls of `Wake`, one after another.
unfoldable pub wake_all : List String → WakeQueue → WakeQueue
wake_all [] q = q
wake_all (id ∷ rest) q = wake_all rest (wake q id).0

-- The results of up to `n` calls of `Next` in a row, up to the first one that would block since there
-- is no notification.
unfoldable pub serve : ℕ → WakeQueue → List (Result NextError String)
serve zero q = []
serve (suc n) q =
    let (q', result) = Queue.next (token false) q in
    let rest = serve n q' in if q.notified then result ∷ rest else []

-- IDs that are named, that the queue does not know and that differ from each other.
unfoldable pub are_new : List String → List (String × WakeState) → Bool
are_new [] m = true
are_new (id ∷ rest) m =
    let later = are_new rest (insert id pending m) in
    not (is_empty id) && is_none (lookup id m) && later

-- An open queue with a notification where there is something to hand out.
abbrev pub is_told : WakeQueue → Bool
is_told q = not q.is_closed && (is_nil q.order || q.notified)

negated : (b : Bool) → not b ≡ true → b ≡ false
negated true h = ground arith
negated false h = refl

wake_new :
    (id : String) (q : WakeQueue) (found : Option WakeState)
    → lookup id q.states ≡ found
    → is_told q ≡ true
    → is_empty id ≡ false
    → is_none found ≡ true
    → let t = (wake q id).0 in
      (t.order ≡ q.order ++ id ∷ []) × (t.states ≡ insert id pending q.states) × (is_told t ≡ true)
unfolding wake wake_section wake_state notify_if notify
wake_new id q none f t e n = ground arith
wake_new id q (some s) f t e n = ground arith

next_first :
    (id : String) (rest : List String) (q : WakeQueue)
    → is_told q ≡ true
    → q.order ≡ id ∷ rest
    → let (t, result) = Queue.next (token false) q in
      (result ≡ ok id) × (t.order ≡ rest) × (is_told t ≡ true)
unfolding Queue.next next_section next_order notify_if notify
next_first id rest q told e = ground arith

first_served :
    {A : Type 0} (b : Bool) (l m n : List A) → b ≡ true → l ≡ n → (if b then l else m) ≡ n
first_served true l m n h e = e
first_served false l m n h e = ground arith

-- Told to serve, the calls of `Next` hand out the pending IDs.
serve_order :
    (order : List String) (q : WakeQueue)
    → is_told q ≡ true
    → q.order ≡ order
    → serve (length order) q ≡ map ok order
unfolding serve
serve_order [] q t e = refl
serve_order (id ∷ rest) q t e =
    let (r, tail, told) = next_first id rest q t e in
    let notified : q.notified ≡ true = ground arith in
    first_served q.notified _ _ _ notified (
      ap (λ x. x ∷ serve (length rest) (Queue.next (token false) q).0) r
      ∙ ap (λ x. ok id ∷ x) (serve_order rest (Queue.next (token false) q).0 told tail))

wake_all_order :
    (l : List String) (q : WakeQueue)
    → is_told q ≡ true
    → are_new l q.states ≡ true
    → ((wake_all l q).order ≡ q.order ++ l) × (is_told (wake_all l q) ≡ true)
unfolding wake_all are_new
wake_all_order [] q t n = (sym (append-nil q.order), t)
wake_all_order (id ∷ rest) q t n =
    let (names, later) = and_split _ _ n in
    let (named, new) = and_split _ _ names in
    let (order, states, told) =
      wake_new id q (lookup id q.states) refl t (negated (is_empty id) named) new in
    let (whole, still) = wake_all_order rest (wake q id).0 told (rw states later) in
    (whole ∙ rw order (append_assoc q.order (id ∷ []) rest), still)

-- From an open queue that has a notification where it has something pending, when `Wake` is called for
-- IDs that are named, not known to the queue and different from each other, no call of `Next` that
-- follows blocks, and the calls hand out what was pending before and then those IDs, in the order in
-- which `Wake` was called.
pub serve_fifo :
    (q : WakeQueue) (l : List String)
    → is_told q ≡ true
    → are_new l q.states ≡ true
    → serve (length (q.order ++ l)) (wake_all l q) ≡ map ok (q.order ++ l)
serve_fifo q l t n =
    let (order, told) = wake_all_order l q t n in
    serve_order (q.order ++ l) (wake_all l q) told order
