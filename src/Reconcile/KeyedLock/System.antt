-- ===== src/Reconcile/KeyedLock/System.antt =====
-- The lock of internal/reconcile/keyed_lock.go together with the goroutines that use it, as
-- interleaved steps: a locked section, a receive and a send are one step each.
use mini_sand_box.Prelude.{ℕ, ◌≡◌, true, false, String, List, [], ◌∷◌, ◌++◌}
use mini_sand_box.Reconcile.KeyedLock.{
  KeyedLock, new_keyed_lock, enter, take_token, put_token, count_holder, cancel_waiter,
  release_holder,
}

-- `waiting` at the select; `taken` has the token and is not counted as a holder yet; `leaving` saw
-- its context end and has not run `cancelWaiter`; `holding` has the lock; `released` has put the
-- token back and is not discounted yet.
pub data Phase : Type 0 where
  waiting taken leaving holding released : Phase

-- A goroutine between the first locked section of `LockContext` and the last one of its release.
pub record Caller : Type 0 where
  pub key : String
  pub entry : ℕ
  pub phase : Phase

pub record System : Type 0 where
  pub lock : KeyedLock
  pub callers : List Caller

unfoldable pub initial : System
initial = record { lock = new_keyed_lock; callers = [] }

abbrev pub caller : String → ℕ → Phase → Caller
caller key p phase = record { key = key; entry = p; phase = phase }

unfoldable pub entered : String → System → System
entered key s =
    let (k, p) = enter key s.lock in record { lock = k; callers = caller key p waiting ∷ s.callers }

-- One goroutine of the list moves on, the others stand.
pub data Step : System → System → Type 0 where
  enters : {s : System} (key : String) → Step s (entered key s)
  takes :
      {k : KeyedLock} (before after : List Caller) (key : String) (p : ℕ)
      → (k.heap p).token ≡ true
      → Step
          (record { lock = k; callers = before ++ caller key p waiting ∷ after })
          (record { lock = take_token p k; callers = before ++ caller key p taken ∷ after })
  gives_up :
      {k : KeyedLock} (before after : List Caller) (key : String) (p : ℕ)
      → Step
          (record { lock = k; callers = before ++ caller key p waiting ∷ after })
          (record { lock = k; callers = before ++ caller key p leaving ∷ after })
  gives_back :
      {k : KeyedLock} (before after : List Caller) (key : String) (p : ℕ)
      → (k.heap p).token ≡ false
      → Step
          (record { lock = k; callers = before ++ caller key p taken ∷ after })
          (record { lock = put_token p k; callers = before ++ caller key p leaving ∷ after })
  leaves :
      {k : KeyedLock} (before after : List Caller) (key : String) (p : ℕ)
      → Step
          (record { lock = k; callers = before ++ caller key p leaving ∷ after })
          (record { lock = cancel_waiter key p k; callers = before ++ after })
  acquires :
      {k : KeyedLock} (before after : List Caller) (key : String) (p : ℕ)
      → Step
          (record { lock = k; callers = before ++ caller key p taken ∷ after })
          (record { lock = count_holder p k; callers = before ++ caller key p holding ∷ after })
  releases :
      {k : KeyedLock} (before after : List Caller) (key : String) (p : ℕ)
      → (k.heap p).token ≡ false
      → Step
          (record { lock = k; callers = before ++ caller key p holding ∷ after })
          (record { lock = put_token p k; callers = before ++ caller key p released ∷ after })
  settles :
      {k : KeyedLock} (before after : List Caller) (key : String) (p : ℕ)
      → Step
          (record { lock = k; callers = before ++ caller key p released ∷ after })
          (record { lock = release_holder key p k; callers = before ++ after })

pub data Reach : System → Type 0 where
  start : Reach initial
  next : {s t : System} → Reach s → Step s t → Reach t
