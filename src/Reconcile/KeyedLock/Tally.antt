-- ===== src/Reconcile/KeyedLock/Tally.antt =====
-- Counting the goroutines that use the lock of internal/reconcile/keyed_lock.go.
use mini_sand_box.Prelude.{
  ℕ, ◌+◌, ◌≤◌, ◌<◌, ◌≡◌, Bool, true, false, String, List, [], ◌∷◌, ◌++◌, ◌&&◌, ◌==◌, str_eq, eq_iff,
  eq_refl, arith,
}
use mini_sand_box.Reconcile.KeyedLock.System.{
  Phase, waiting, taken, leaving, holding, released, Caller,
}

abbrev pub bit : Bool → ℕ
bit true = 1
bit false = 0

unfoldable pub tally : (Caller → Bool) → List Caller → ℕ
tally f [] = 0
tally f (c ∷ cs) = bit (f c) + tally f cs

pub tally-append :
    (f : Caller → Bool) (xs ys : List Caller) → tally f (xs ++ ys) ≡ tally f xs + tally f ys
unfolding tally
tally-append f [] ys = omega arith
tally-append f (c ∷ xs) ys = let h = tally-append f xs ys in omega arith

pub tally-at :
    (f : Caller → Bool) (before after : List Caller) (c : Caller)
    → tally f (before ++ c ∷ after) ≡ bit (f c) + tally f (before ++ after)
unfolding tally
tally-at f before after c =
    let h = tally-append f before (c ∷ after) in let g = tally-append f before after in omega arith

abbrev owning : Phase → Bool
owning taken = true
owning holding = true
owning _ = false

abbrev counted_waiting : Phase → Bool
counted_waiting waiting = true
counted_waiting taken = true
counted_waiting leaving = true
counted_waiting _ = false

abbrev counted_holding : Phase → Bool
counted_holding holding = true
counted_holding released = true
counted_holding _ = false

abbrev inside : Phase → Bool
inside holding = true
inside _ = false

-- The goroutine has the token of the entry; is a waiter of it; is a holder of it; uses it at all.
abbrev pub owns : ℕ → Caller → Bool
owns p c = c.entry == p && owning c.phase

abbrev pub waits : ℕ → Caller → Bool
waits p c = c.entry == p && counted_waiting c.phase

abbrev pub holds : ℕ → Caller → Bool
holds p c = c.entry == p && counted_holding c.phase

abbrev pub stands_at : String → ℕ → Caller → Bool
stands_at key p c = str_eq c.key key && c.entry == p

-- The goroutine is in the critical section of the key.
abbrev pub in_section : String → Caller → Bool
in_section key c = str_eq c.key key && inside c.phase

pub stands_le :
    (key : String) (p : ℕ) (cs : List Caller)
    → tally (stands_at key p) cs ≤ tally (waits p) cs + tally (holds p) cs
unfolding tally
stands_le key p [] = omega arith
stands_le key p (c ∷ cs) = let h = stands_le key p cs in ground arith

pub owns_le :
    (p : ℕ) (cs : List Caller) → tally (owns p) cs ≤ tally (waits p) cs + tally (holds p) cs
unfolding tally
owns_le p [] = omega arith
owns_le p (c ∷ cs) = let h = owns_le p cs in ground arith

-- If every goroutine at the entry stands there with this key, nobody else uses the entry.
pub users_le :
    (key : String) (p : ℕ) (cs : List Caller)
    → ((j : String) → 0 < tally (stands_at j p) cs → j ≡ key)
    → tally (waits p) cs + tally (holds p) cs ≤ tally (stands_at key p) cs
unfolding tally
users_le key p [] h = omega arith
users_le key p (c ∷ cs) h =
    let rest = users_le key p cs (λ j standing. h j (omega arith)) in
    ground (arith, h c.key, eq_refl c.key, eq_iff c.key key)

-- If every goroutine with this key stands at one entry, those in the critical section own it.
pub section_le :
    (key : String) (p : ℕ) (cs : List Caller)
    → ((q : ℕ) → 0 < tally (stands_at key q) cs → q ≡ p)
    → tally (in_section key) cs ≤ tally (owns p) cs
unfolding tally
section_le key p [] h = omega arith
section_le key p (c ∷ cs) h =
    let rest = section_le key p cs (λ q standing. h q (omega arith)) in
    ground (arith, h c.entry, eq_refl c.key, eq_iff c.key key)
