-- ===== src/Reconcile/KeyedLock.antt =====
-- internal/reconcile/keyed_lock.go: a mutex for each key whose entries live while they are used.
use mini_sand_box.Prelude.{
  ℕ, ◌+◌, ◌-◌, Bool, true, false, ◌&&◌, String, List, [], Option, none, some, ◌==◌, if◌then◌else◌,
}
use mini_sand_box.Prelude.Maps.{lookup, insert, erase}
pub mod System
pub mod Tally
pub mod Invariant
pub mod Exclusion

-- `token` tells whether the channel of capacity 1 holds its token.
pub record KeyedLockEntry : Type 0 where
  pub token : Bool
  pub holders : ℕ
  pub waiters : ℕ

-- A pointer to an entry is a number: `heap` gives the entry, `fresh` the next pointer to be
-- allocated, and `entries` the pointer of each key.
pub record KeyedLock : Type 0 where
  pub heap : ℕ → KeyedLockEntry
  pub fresh : ℕ
  pub entries : List (String × ℕ)

abbrev pub blank : KeyedLockEntry
blank = record { token = true; holders = 0; waiters = 0 }

unfoldable pub new_keyed_lock : KeyedLock
new_keyed_lock = record { heap = λ p. blank; fresh = 0; entries = [] }

-- The heap after a write of the entry at `p`.
abbrev pub write : ℕ → KeyedLockEntry → (ℕ → KeyedLockEntry) → ℕ → KeyedLockEntry
write p e h q = if q == p then e else h q

-- The first locked section of `LockContext`: the entry of the key, made when there is none, with
-- one waiter more.
unfoldable pub enter_at : Option ℕ → String → KeyedLock → KeyedLock × ℕ
enter_at (some p) key k =
    (record k { heap = write p (record (k.heap p) { waiters = (k.heap p).waiters + 1 }) k.heap }, p)
enter_at none key k = (
  record {
    heap = write k.fresh (record { token = true; holders = 0; waiters = 1 }) k.heap;
    fresh = k.fresh + 1;
    entries = insert key k.fresh k.entries;
  },
  k.fresh,
)

unfoldable pub enter : String → KeyedLock → KeyedLock × ℕ
unfolding enter_at
enter key k = enter_at (lookup key k.entries) key k

-- A receive from, and a send to, the token channel of the entry at `p`.
unfoldable pub take_token : ℕ → KeyedLock → KeyedLock
take_token p k = record k { heap = write p (record (k.heap p) { token = false }) k.heap }

unfoldable pub put_token : ℕ → KeyedLock → KeyedLock
put_token p k = record k { heap = write p (record (k.heap p) { token = true }) k.heap }

-- The second locked section of `LockContext`: the waiter becomes a holder.
unfoldable pub count_holder : ℕ → KeyedLock → KeyedLock
count_holder p k = record k {
  heap =
      write p
        (record (k.heap p) { waiters = (k.heap p).waiters - 1; holders = (k.heap p).holders + 1 })
        k.heap;
}

abbrev pub is_entry : Option ℕ → ℕ → Bool
is_entry none p = false
is_entry (some q) p = q == p

-- The entry leaves the map when nobody uses it and the key still has this very entry.
unfoldable pub delete_idle_entry : String → ℕ → KeyedLock → KeyedLock
delete_idle_entry key p k =
    if (k.heap p).holders == 0 && (k.heap p).waiters == 0 && is_entry (lookup key k.entries) p
    then record k { entries = erase key k.entries }
    else k

unfoldable pub cancel_waiter : String → ℕ → KeyedLock → KeyedLock
unfolding delete_idle_entry
cancel_waiter key p k =
    delete_idle_entry key p
      (record k { heap = write p (record (k.heap p) { waiters = (k.heap p).waiters - 1 }) k.heap })

-- The locked section of the release function.
unfoldable pub release_holder : String → ℕ → KeyedLock → KeyedLock
unfolding delete_idle_entry
release_holder key p k =
    delete_idle_entry key p
      (record k { heap = write p (record (k.heap p) { holders = (k.heap p).holders - 1 }) k.heap })
