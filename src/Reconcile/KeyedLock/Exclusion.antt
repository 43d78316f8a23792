-- ===== src/Reconcile/KeyedLock/Exclusion.antt =====
-- Mutual exclusion and no leak of internal/reconcile/keyed_lock.go, in any interleaving.
use mini_sand_box.Prelude.{
  ◌↔◌, ℕ, ◌-◌, ◌≤◌, ◌<◌, ◌≡◌, refl, false, String, List, ◌∷◌, ◌++◌, Option, none, some, eq_iff,
  arith,
}
use mini_sand_box.Prelude.Maps.{lookup, lookup-insert}
use mini_sand_box.Reconcile.KeyedLock.{
  KeyedLockEntry, KeyedLock, new_keyed_lock, write, enter_at, enter, take_token, put_token,
  count_holder, delete_idle_entry, cancel_waiter, release_holder,
}
use mini_sand_box.Reconcile.KeyedLock.System.{
  Phase, waiting, taken, leaving, holding, released, Caller, caller, System, initial, entered, Step,
  enters, takes, gives_up, gives_back, leaves, acquires, releases, settles, Reach, start, next,
}
use mini_sand_box.Reconcile.KeyedLock.Tally.{
  tally, stands_at, in_section, stands_le, owns_le, section_le,
}
use mini_sand_box.Reconcile.KeyedLock.Invariant.{
  Counted, Keyed, Sole, IsSafe, moves, take-Counted, give_up-Counted, give_back-Counted, seen,
  acquire-Counted, release-Counted, leave-Counted, settle-Counted, others_Sole, departs-Keyed,
}

-- What a goroutine that enters leaves, whichever entry it finds.
module _ (key : String) (k : KeyedLock) (cs : List Caller) where
  abbrev Safe : Type 0
  Safe = IsSafe (record { lock = k; callers = cs })

  abbrev After : Option ℕ → Type 0
  After found = IsSafe (record {
    lock = (enter_at found key k).0;
    callers = caller key (enter_at found key k).1 waiting ∷ cs;
  })

  found-Counted :
      (p q : ℕ)
      → Safe
      → lookup key k.entries ≡ some p
      → Counted (enter_at (some p) key k).0 (caller key p waiting ∷ cs) q
  unfolding tally enter_at
  found-Counted p q v e = ground (arith, v.counted q, (v.keyed key p).used, stands_le key p cs)

  found-Keyed :
      (p : ℕ) (j : String) (q : ℕ)
      → Safe
      → lookup key k.entries ≡ some p
      → Keyed k.entries (caller key p waiting ∷ cs) j q
  unfolding tally
  found-Keyed p j q v e = ground (arith, v.keyed j q, eq_iff key j)

  found-Sole : (p : ℕ) → Safe → lookup key k.entries ≡ some p → Sole (caller key p waiting ∷ cs)
  unfolding tally
  found-Sole p v e i j q a b = ground (
    arith,
    (v.keyed key p).used,
    v.sole i j q,
    v.sole key i q,
    v.sole key j q,
    v.sole i key q,
    eq_iff key i,
    eq_iff key j,
  )

  made-Counted :
      (q : ℕ) → Safe → Counted (enter_at none key k).0 (caller key k.fresh waiting ∷ cs) q
  unfolding tally enter_at
  made-Counted q v = ground (arith, v.counted q, owns_le q cs)

  made-Keyed :
      (j : String) (q : ℕ)
      → Safe
      → lookup key k.entries ≡ none
      → Keyed (enter_at none key k).0.entries (caller key k.fresh waiting ∷ cs) j q
  unfolding tally enter_at
  made-Keyed j q v e =
      ground (arith, v.keyed j q, eq_iff key j, lookup-insert key j k.fresh k.entries)

  made-Sole : Safe → Sole (caller key k.fresh waiting ∷ cs)
  unfolding tally
  made-Sole v i j q a b = ground (
    arith,
    (v.counted k.fresh).unborn,
    stands_le i q cs,
    stands_le j q cs,
    v.sole i j q,
    eq_iff key i,
    eq_iff key j,
  )

  After-IsSafe : (found : Option ℕ) → lookup key k.entries ≡ found → Safe → After found
  unfolding enter_at
  After-IsSafe (some p) e v = record {
    counted = λ q. found-Counted p q v e;
    keyed = λ j q. found-Keyed p j q v e;
    sole = found-Sole p v e;
  }
  After-IsSafe none e v = record {
    counted = λ q. made-Counted q v;
    keyed = λ j q. made-Keyed j q v e;
    sole = made-Sole v;
  }

-- Deleting an entry from the map leaves the counters.
kept-Counted :
    (k : KeyedLock) (cs : List Caller) (key : String) (p q : ℕ)
    → Counted (delete_idle_entry key p k) cs q
    → Counted k cs q
unfolding delete_idle_entry
kept-Counted k cs key p q v = ground arith

-- A goroutine that goes for good, after a write of its entry.
departs :
    (k : KeyedLock) (e : KeyedLockEntry) (before after : List Caller) (key : String) (p : ℕ)
    (phase : Phase)
    → ((q : ℕ)
        → Counted
            (delete_idle_entry key p (record k { heap = write p e k.heap }))
            (before ++ after)
            q)
    → IsSafe (record { lock = k; callers = before ++ caller key p phase ∷ after })
    → IsSafe (record {
      lock = delete_idle_entry key p (record k { heap = write p e k.heap });
      callers = before ++ after;
    })
departs k e before after key p phase counted v = record {
  counted = counted;
  keyed = λ j q.
      departs-Keyed (record k { heap = write p e k.heap }) before after key p phase j q
        (kept-Counted (record k { heap = write p e k.heap }) (before ++ after) key p p (counted p))
        v.sole (v.keyed key p) (v.keyed j q);
  sole = others_Sole k before after key p phase v.sole;
}

Step-IsSafe : {s t : System} → Step s t → IsSafe s → IsSafe t
unfolding entered enter take_token put_token count_holder cancel_waiter release_holder
Step-IsSafe {s} (enters key) v =
    After-IsSafe key s.lock s.callers (lookup key s.lock.entries) refl v
Step-IsSafe (takes {k} before after key p full) v =
    moves before after key p waiting taken refl (λ q. take-Counted k before after key p q full) v
Step-IsSafe (gives_up {k} before after key p) v =
    moves before after key p waiting leaving refl (give_up-Counted k before after key p) v
Step-IsSafe (gives_back {k} before after key p gone) v =
    moves before after key p taken leaving refl (λ q. give_back-Counted k before after key p q gone)
      v
Step-IsSafe (acquires {k} before after key p) v =
    moves before after key p taken holding refl (acquire-Counted k before after key p) v
Step-IsSafe (releases {k} before after key p gone) v =
    moves before after key p holding released refl
      (λ q. release-Counted k before after key p q gone) v
Step-IsSafe (leaves {k} before after key p) v =
    departs k (record (k.heap p) { waiters = (k.heap p).waiters - 1 }) before after key p leaving
      (λ q. leave-Counted k before after key p q (v.counted q)) v
Step-IsSafe (settles {k} before after key p) v =
    departs k (record (k.heap p) { holders = (k.heap p).holders - 1 }) before after key p released
      (λ q. settle-Counted k before after key p q (v.counted q)) v

initial-IsSafe : IsSafe initial
unfolding initial new_keyed_lock tally lookup
initial-IsSafe = record {
  counted = λ p. ground arith;
  keyed = λ key p. ground arith;
  sole = λ key j p a b. absurd (omega arith);
}

Reach-IsSafe : {s : System} → Reach s → IsSafe s
Reach-IsSafe start = initial-IsSafe
Reach-IsSafe (next r st) = Step-IsSafe st (Reach-IsSafe r)

-- All goroutines with the key stand at the entry that the map has for it.
one_entry :
    (key : String) (found : Option ℕ) (s : System)
    → IsSafe s
    → lookup key s.lock.entries ≡ found
    → tally (in_section key) s.callers ≤ 1
one_entry key none s v e =
    let few = section_le key 0 s.callers (λ q h. ground (arith, v.keyed key q)) in
    ground (arith, v.counted 0)
one_entry key (some p) s v e =
    let few = section_le key p s.callers (λ q h. ground (arith, v.keyed key q)) in
    ground (arith, v.counted p)

-- In any interleaving of goroutines that lock, give up and unlock, at most one goroutine is in the
-- critical section of a key, even while entries of the key are deleted and made again.
pub Reach-exclusion : {s : System} (key : String) → Reach s → tally (in_section key) s.callers ≤ 1
Reach-exclusion {s} key r = one_entry key (lookup key s.lock.entries) s (Reach-IsSafe r) refl

-- In any interleaving, the map has an entry for a key exactly while a goroutine waits for the key or
-- has it, and that entry is the one that the goroutine uses: no entry is lost and none leaks.
pub Reach-entries :
    {s : System} (key : String) (p : ℕ)
    → Reach s
    → (lookup key s.lock.entries ≡ some p) ↔ (0 < tally (stands_at key p) s.callers)
Reach-entries key p r = let v = (Reach-IsSafe r).keyed key p in (v.used, v.mapped)

-- In any interleaving, a goroutine that holds a lock finds the token channel of its entry empty, so
-- that its release never blocks and a release is always possible.
pub Reach-release :
    (k : KeyedLock) (before after : List Caller) (key : String) (p : ℕ)
    → Reach (record { lock = k; callers = before ++ caller key p holding ∷ after })
    → (k.heap p).token ≡ false
Reach-release k before after key p r =
    ground (arith, (Reach-IsSafe r).counted p, seen k before after key p holding p)
