-- ===== src/Examples/KeyedLock.antt =====
-- internal/reconcile/keyed_lock.go with one goroutine that has the lock and one that waits.
use mini_sand_box.Prelude.{◌↔◌, ◌≤◌, ◌<◌, ◌≡◌, refl, false, [], ◌∷◌, some}
use mini_sand_box.Prelude.Maps.{lookup}
use mini_sand_box.Reconcile.KeyedLock.{
  KeyedLock, new_keyed_lock, enter, enter_at, take_token, count_holder,
}
use mini_sand_box.Reconcile.KeyedLock.System.{
  holding, caller, System, initial, entered, enters, takes, acquires, Reach, start, next,
}
use mini_sand_box.Reconcile.KeyedLock.Tally.{tally, in_section, stands_at}
use mini_sand_box.Reconcile.KeyedLock.Exclusion.{Reach-exclusion, Reach-entries, Reach-release}

abbrev made : KeyedLock
made = (enter "a" new_keyed_lock).0

abbrev locked : System
locked = record { lock = count_holder 0 (take_token 0 made); callers = caller "a" 0 holding ∷ [] }

-- The second goroutine comes while the first one has the lock.
abbrev contended : System
contended = entered "a" locked

locked_Reach : Reach locked
unfolding initial entered enter enter_at new_keyed_lock lookup
locked_Reach = next (next (next start (enters "a")) (takes [] [] "a" 0 refl)) (acquires [] [] "a" 0)

contended_Reach : Reach contended
contended_Reach = next locked_Reach (enters "a")

Reach-exclusion_example : tally (in_section "a") contended.callers ≤ 1
Reach-exclusion_example = Reach-exclusion "a" contended_Reach

Reach-entries_example :
    (lookup "a" contended.lock.entries ≡ some 0) ↔ (0 < tally (stands_at "a" 0) contended.callers)
Reach-entries_example = Reach-entries "a" 0 contended_Reach

Reach-release_example : (locked.lock.heap 0).token ≡ false
Reach-release_example = Reach-release locked.lock [] [] "a" 0 locked_Reach
