-- ===== src/Reconcile/Reconciler/Evidence.antt =====
-- What the trace of a run of internal/reconcile/reconciler.go has to show before a record becomes
-- `Running` or `Terminated`, and rules for the parts of a run.
use mini_sand_box.Prelude.{
  ◌≡◌, refl, sym, subst, Bool, true, false, ◌&&◌, ◌||◌, String, List, [], ◌∷◌, Option, none, some,
  Result, ok, err, ℕ, if◌then◌else◌, and_split, Bool-cases, inl, inr, arith,
}
use mini_sand_box.Domain.States.{SandboxState, is_state, creating, running, terminated}
use mini_sand_box.Domain.Sandboxes.{Sandbox}
use mini_sand_box.Reconcile.Retry.{delete, classify_retry_error}
use mini_sand_box.Runtime.{RuntimeError, retry_facts}
use mini_sand_box.Store.Lifecycle.{Table, StoreError, Answer, transact}
use mini_sand_box.Store.Lifecycle.History.{Follows, Follows-refl, Follows-trans}
use mini_sand_box.Reconcile.Reconciler.{
  Environment, EnsureAnswer, made, refused, Event, wrote, checked_health, ensured, replaced, probed,
  networked, gated, deleted, shut_down, inspected, projected, World, ReconcileError, Act, done,
  fail, ◌>>=◌, and_then, ask, clock, place, try_write, try_read, read, write, or_fail, Operation,
  waited, answered, after_wait, operate, noted,
}
pub mod Calls
pub mod Steps
pub mod Ending
pub mod Probing
pub mod Runs
pub mod Reconciles

-- The runtime was deleted, or was not there any more.
abbrev pub is_gone : Option RuntimeError → Bool
is_gone none = true
is_gone (some e) = (classify_retry_error delete (some (retry_facts e))).successful

abbrev pub gone : List Event → Bool
gone (deleted answer ∷ before) = is_gone answer
gone _ = false

abbrev pub ensured_last : List Event → Bool
ensured_last (ensured answer ∷ before) = answer
ensured_last _ = false

abbrev pub waiting_last : List Event → Bool
waiting_last (wrote from creating ∷ before) = ensured_last before
waiting_last _ = false

abbrev pub networked_last : List Event → Bool
networked_last (networked answer ∷ before) = answer && waiting_last before
networked_last _ = false

-- The container was ensured, the record says that it waits for the runner, and then the runner was
-- found ready: by its probe where the sandbox has no outbound access, and otherwise by the probe of
-- its network and the check of its isolation.
abbrev pub ready_to_run : Bool → List Event → Bool
ready_to_run false (probed answer ∷ before) = answer && waiting_last before
ready_to_run true (gated answer ∷ before) = answer && networked_last before
ready_to_run _ _ = false

abbrev pub warranted : Event → List Event → Bool
warranted (wrote from running) before =
    is_state from.observed_state running || ready_to_run from.spec.outbound before
warranted (wrote from terminated) before = is_state from.observed_state terminated || gone before
warranted _ before = true

abbrev pub justified : List Event → Bool
justified [] = true
justified (event ∷ before) = warranted event before && justified before

abbrev pub Post : Type 0 → Type 0
Post A = A → List Event → Bool

abbrev pub anything : {A : Type 0} → Post A
anything a trace = true

abbrev pub always : List Event → Bool
always trace = true

abbrev pub Ends : {A : Type 0} → Post A → World × Result ReconcileError A → Type 0
Ends q (w, ok a) = q a w.trace ≡ true
Ends q (w, err e) = Unit

-- What other writers leave follows what they found, as after any calls of the store.
abbrev pub Faithful : Environment → Type 0
Faithful env = (n : ℕ) (t : Table) → Follows t (env.others n t)

-- From a justified trace that has `p`, the run leaves a justified one, and one that has `q` where it
-- comes to its end. Its table follows the one that it found.
pub record Triple {A : Type 0} (env : Environment) (p : List Event → Bool) (m : Act A) (q : Post A)
    : Type 0 where
  pub justifies :
      (w : World) → justified w.trace ≡ true → p w.trace ≡ true → justified (m w).0.trace ≡ true
  pub ends : (w : World) → justified w.trace ≡ true → p w.trace ≡ true → Ends q (m w)
  pub follows : Faithful env → (w : World) → Follows w.table (m w).0.table

abbrev pub Keeps : {A : Type 0} → Environment → Act A → Type 0
Keeps env m = Triple env always m anything

module _ {env : Environment} {A B : Type 0} {q : Post A} {r : Post B} (f : A → Act B)
    (u : (a : A) → Triple env (q a) (f a) r) where
  and_then_justifies :
      (x : World × Result ReconcileError A)
      → justified x.0.trace ≡ true
      → Ends q x
      → justified (and_then f x).0.trace ≡ true
  and_then_justifies (w, ok a) j e = (u a).justifies w j e
  and_then_justifies (w, err e) j _ = j

  and_then-Follows :
      (t : Table) (x : World × Result ReconcileError A)
      → Faithful env
      → Follows t x.0.table
      → Follows t (and_then f x).0.table
  and_then-Follows t (w, ok a) o h = Follows-trans t w.table (f a w).0.table h ((u a).follows o w)
  and_then-Follows t (w, err e) o h = h

  and_then_ends :
      (x : World × Result ReconcileError A)
      → justified x.0.trace ≡ true
      → Ends q x
      → Ends r (and_then f x)
  and_then_ends (w, ok a) j e = (u a).ends w j e
  and_then_ends (w, err e) j _ = tt

  pub bind-Triple :
      {p : List Event → Bool} (m : Act A) → Triple env p m q → Triple env p (m >>= f) r
  bind-Triple m t = record {
    justifies = λ w j h. and_then_justifies (m w) (t.justifies w j h) (t.ends w j h);
    ends = λ w j h. and_then_ends (m w) (t.justifies w j h) (t.ends w j h);
    follows = λ o w. and_then-Follows w.table (m w) o (t.follows o w);
  }

pub done-Triple :
    {env : Environment} {A : Type 0} {p : List Event → Bool} {q : Post A} (a : A)
    → ((t : List Event) → p t ≡ true → q a t ≡ true)
    → Triple env p (done a) q
done-Triple a h = record {
  justifies = λ w j g. j;
  ends = λ w j g. h w.trace g;
  follows = λ o w. Follows-refl w.table;
}

pub fail-Triple :
    {env : Environment} {A : Type 0} {p : List Event → Bool} {q : Post A} (e : ReconcileError)
    → Triple env p (fail {A = A} e) q
fail-Triple e = record {
  justifies = λ w j g. j;
  ends = λ w j g. tt;
  follows = λ o w. Follows-refl w.table;
}

pub weaken :
    {env : Environment} {A : Type 0} {p : List Event → Bool} {q r : Post A} (m : Act A)
    → Triple env always m q
    → ((x : World × Result ReconcileError A) → Ends q x → Ends r x)
    → Triple env p m r
weaken m t k = record {
  justifies = λ w j g. t.justifies w j refl;
  ends = λ w j g. k (m w) (t.ends w j refl);
  follows = t.follows;
}

pub stronger :
    {env : Environment} {A : Type 0} {o p : List Event → Bool} {q : Post A} (m : Act A)
    → ((t : List Event) → o t ≡ true → p t ≡ true)
    → Triple env p m q
    → Triple env o m q
stronger m k t = record {
  justifies = λ w j g. t.justifies w j (k w.trace g);
  ends = λ w j g. t.ends w j (k w.trace g);
  follows = t.follows;
}

pub any_before :
    {env : Environment} {A : Type 0} {p : List Event → Bool} {q : Post A} (m : Act A)
    → Triple env always m q
    → Triple env p m q
any_before m t = weaken m t (λ x e. e)

pub anything_ends :
    {A : Type 0} (q : Post A) (x : World × Result ReconcileError A) → Ends q x → Ends anything x
anything_ends q (w, ok a) e = refl
anything_ends q (w, err f) e = tt

pub if-Triple :
    {env : Environment} {A : Type 0} {p : List Event → Bool} {q : Post A} (c : Bool) (m n : Act A)
    → Triple env p m q
    → Triple env p n q
    → Triple env p (if c then m else n) q
if-Triple true m n t u = t
if-Triple false m n t u = u

pub split-Triple :
    {env : Environment} {A : Type 0} {p : List Event → Bool} {q : Post A} (c : Bool) (m n : Act A)
    → (c ≡ true → Triple env p m q)
    → (c ≡ false → Triple env p n q)
    → Triple env p (if c then m else n) q
split-Triple true m n t u = t refl
split-Triple false m n t u = u refl

-- A call outside the store, whose event is no write.
pub ask-Triple :
    {env : Environment} {A : Type 0} {p : List Event → Bool} {q : Post A} (answer : ℕ → A)
    (event : A → Event)
    → ((a : A) (t : List Event) → warranted (event a) t ≡ true)
    → ((a : A) (t : List Event) → p t ≡ true → q a (event a ∷ t) ≡ true)
    → Triple env p (ask answer event) q
unfolding ask
ask-Triple answer event free h = record {
  justifies = λ w j g. rw (free (answer w.step) w.trace, j) refl;
  ends = λ w j g. h (answer w.step) w.trace g;
  follows = λ o w. Follows-refl w.table;
}

pub place-Triple : {env : Environment} {p : List Event → Bool} → Triple env p place (λ n. p)
place-Triple = record {
  justifies = λ w j g. j;
  ends = λ w j g. g;
  follows = λ o w. Follows-refl w.table;
}
