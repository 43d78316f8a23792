-- ===== src/Reconcile/KeyedLock/Invariant.antt =====
-- The invariant of internal/reconcile/keyed_lock.go, and what each step of a goroutine does to it.
use mini_sand_box.Prelude.{
  ℕ, ◌+◌, ◌≤◌, ◌<◌, ◌≡◌, true, false, String, List, ◌∷◌, ◌++◌, some, eq_iff, eq_refl, arith,
}
use mini_sand_box.Prelude.Maps.{lookup, lookup-erase}
use mini_sand_box.Reconcile.KeyedLock.{
  KeyedLock, take_token, put_token, count_holder, delete_idle_entry, cancel_waiter, release_holder,
}
use mini_sand_box.Reconcile.KeyedLock.System.{
  Phase, waiting, taken, leaving, holding, released, Caller, caller, System,
}
use mini_sand_box.Reconcile.KeyedLock.Tally.{
  bit, tally, tally-at, owns, waits, holds, stands_at, stands_le, users_le,
}

-- The counters of an entry are the goroutines that it counts, and the token is in the channel or
-- with exactly one goroutine; a pointer that is not allocated yet has no user.
pub record Counted (k : KeyedLock) (cs : List Caller) (p : ℕ) : Type 0 where
  pub token_kept : bit (k.heap p).token + tally (owns p) cs ≡ 1
  pub waiters_kept : (k.heap p).waiters ≡ tally (waits p) cs
  pub holders_kept : (k.heap p).holders ≡ tally (holds p) cs
  pub unborn : k.fresh ≤ p → tally (waits p) cs + tally (holds p) cs ≡ 0

-- A key has an entry in the map exactly while a goroutine stands there with this key.
pub record Keyed (entries : List (String × ℕ)) (cs : List Caller) (key : String) (p : ℕ)
    : Type 0 where
  pub mapped : 0 < tally (stands_at key p) cs → lookup key entries ≡ some p
  pub used : lookup key entries ≡ some p → 0 < tally (stands_at key p) cs

-- All goroutines at one entry have one key.
abbrev pub Sole : List Caller → Type 0
Sole cs =
    (key j : String) (p : ℕ)
    → 0 < tally (stands_at key p) cs
    → 0 < tally (stands_at j p) cs
    → j ≡ key

pub record IsSafe (s : System) : Type 0 where
  pub counted : (p : ℕ) → Counted s.lock s.callers p
  pub keyed : (key : String) (p : ℕ) → Keyed s.lock.entries s.callers key p
  pub sole : Sole s.callers

-- A step that moves one goroutine on where it stands, and leaves the map.
pub moves :
    {k l : KeyedLock} (before after : List Caller) (key : String) (p : ℕ) (old new : Phase)
    → l.entries ≡ k.entries
    → ((q : ℕ)
        → Counted k (before ++ caller key p old ∷ after) q
        → Counted l (before ++ caller key p new ∷ after) q)
    → IsSafe (record { lock = k; callers = before ++ caller key p old ∷ after })
    → IsSafe (record { lock = l; callers = before ++ caller key p new ∷ after })
moves {k} {l} before after key p old new same counted v = record {
  counted = λ q. counted q (v.counted q);
  keyed = λ j q. record {
    mapped = λ h. ground (arith, still j q, (v.keyed j q).mapped);
    used = λ h. ground (arith, still j q, (v.keyed j q).used);
  };
  sole = λ i j q a b. v.sole i j q (ground (arith, still i q)) (ground (arith, still j q));
}
  where
    still :
        (j : String) (q : ℕ)
        → tally (stands_at j q) (before ++ caller key p new ∷ after)
          ≡ tally (stands_at j q) (before ++ caller key p old ∷ after)
    still j q =
        let h = tally-at (stands_at j q) before after (caller key p old) in
        let g = tally-at (stands_at j q) before after (caller key p new) in omega arith

-- One goroutine of the list, in some phase, and the counts of the others.
module _ (k : KeyedLock) (before after : List Caller) (key : String) (p : ℕ) where
  pub seen :
      (phase : Phase) (q : ℕ)
      → (tally (owns q) (before ++ caller key p phase ∷ after)
          ≡ bit (owns q (caller key p phase)) + tally (owns q) (before ++ after))
        × (tally (waits q) (before ++ caller key p phase ∷ after)
            ≡ bit (waits q (caller key p phase)) + tally (waits q) (before ++ after))
        × (tally (holds q) (before ++ caller key p phase ∷ after)
            ≡ bit (holds q (caller key p phase)) + tally (holds q) (before ++ after))
  seen phase q = (
    tally-at (owns q) before after (caller key p phase),
    tally-at (waits q) before after (caller key p phase),
    tally-at (holds q) before after (caller key p phase),
  )

  pub take-Counted :
      (q : ℕ)
      → (k.heap p).token ≡ true
      → Counted k (before ++ caller key p waiting ∷ after) q
      → Counted (take_token p k) (before ++ caller key p taken ∷ after) q
  unfolding take_token
  take-Counted q full v = ground (arith, seen waiting q, seen taken q)

  pub give_up-Counted :
      (q : ℕ)
      → Counted k (before ++ caller key p waiting ∷ after) q
      → Counted k (before ++ caller key p leaving ∷ after) q
  give_up-Counted q v = ground (arith, seen waiting q, seen leaving q)

  pub give_back-Counted :
      (q : ℕ)
      → (k.heap p).token ≡ false
      → Counted k (before ++ caller key p taken ∷ after) q
      → Counted (put_token p k) (before ++ caller key p leaving ∷ after) q
  unfolding put_token
  give_back-Counted q gone v = ground (arith, seen taken q, seen leaving q)

  pub acquire-Counted :
      (q : ℕ)
      → Counted k (before ++ caller key p taken ∷ after) q
      → Counted (count_holder p k) (before ++ caller key p holding ∷ after) q
  unfolding count_holder
  acquire-Counted q v = ground (arith, seen taken q, seen holding q)

  pub release-Counted :
      (q : ℕ)
      → (k.heap p).token ≡ false
      → Counted k (before ++ caller key p holding ∷ after) q
      → Counted (put_token p k) (before ++ caller key p released ∷ after) q
  unfolding put_token
  release-Counted q gone v = ground (arith, seen holding q, seen released q)

  pub leave-Counted :
      (q : ℕ)
      → Counted k (before ++ caller key p leaving ∷ after) q
      → Counted (cancel_waiter key p k) (before ++ after) q
  unfolding cancel_waiter delete_idle_entry
  leave-Counted q v = ground (arith, seen leaving q)

  pub settle-Counted :
      (q : ℕ)
      → Counted k (before ++ caller key p released ∷ after) q
      → Counted (release_holder key p k) (before ++ after) q
  unfolding release_holder delete_idle_entry
  settle-Counted q v = ground (arith, seen released q)

  -- The counts of the whole list are at least those of the others.
  grows :
      (phase : Phase) (j : String) (q : ℕ)
      → 0 < tally (stands_at j q) (before ++ after)
      → 0 < tally (stands_at j q) (before ++ caller key p phase ∷ after)
  grows phase j q h = rw (tally-at (stands_at j q) before after (caller key p phase)) (omega arith)

  present : (phase : Phase) → 0 < tally (stands_at key p) (before ++ caller key p phase ∷ after)
  present phase =
      ground (arith, tally-at (stands_at key p) before after (caller key p phase), eq_refl key)

  pub others_Sole :
      (phase : Phase) → Sole (before ++ caller key p phase ∷ after) → Sole (before ++ after)
  others_Sole phase sole i j q a b = sole i j q (grows phase i q a) (grows phase j q b)

  -- Nobody but those with the key uses the entry once the goroutine has left.
  users_of :
      (phase : Phase)
      → Sole (before ++ caller key p phase ∷ after)
      → tally (waits p) (before ++ after) + tally (holds p) (before ++ after)
        ≤ tally (stands_at key p) (before ++ after)
  users_of phase sole =
      users_le key p (before ++ after) (λ j h. sole key j p (present phase) (grows phase j p h))

  pub departs-Keyed :
      (phase : Phase) (j : String) (q : ℕ)
      → Counted k (before ++ after) p
      → Sole (before ++ caller key p phase ∷ after)
      → Keyed k.entries (before ++ caller key p phase ∷ after) key p
      → Keyed k.entries (before ++ caller key p phase ∷ after) j q
      → Keyed (delete_idle_entry key p k).entries (before ++ after) j q
  unfolding delete_idle_entry
  departs-Keyed phase j q counted sole own v = ground (
    arith,
    tally-at (stands_at j q) before after (caller key p phase),
    stands_le key p (before ++ after),
    users_of phase sole,
    lookup-erase key j k.entries,
    eq_iff key j,
  )
