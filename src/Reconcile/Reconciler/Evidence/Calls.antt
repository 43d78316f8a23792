-- ===== src/Reconcile/Reconciler/Evidence/Calls.antt =====
-- Rules for the calls of the clock and of the store in internal/reconcile/reconciler.go.
use mini_sand_box.Prelude.{
  ◌≡◌, refl, sym, subst, Bool, true, false, String, List, ◌∷◌, Result, ok, err,
}
use mini_sand_box.Domain.States.{SandboxState}
use mini_sand_box.Domain.Sandboxes.{Sandbox}
use mini_sand_box.Store.Lifecycle.{Table, StoreError, Answer, transact}
use mini_sand_box.Store.Lifecycle.History.{Follows, Follows-refl, Follows-trans}
use mini_sand_box.Reconcile.Reconciler.{
  Environment, Event, wrote, ReconcileError, clock, try_write, try_read, read, write, or_fail,
  noted,
}
use mini_sand_box.Reconcile.Reconciler.Evidence.{
  warranted, justified, Post, Triple, bind-Triple, done-Triple, fail-Triple,
}

module _ (env : Environment) where
  pub clock-Triple : {p : List Event → Bool} → Triple env p (clock env) (λ n. p)
  unfolding clock
  clock-Triple = record {
    justifies = λ w j g. j;
    ends = λ w j g. g;
    follows = λ o w. Follows-refl w.table;
  }

  pub try_read-Triple :
      {p : List Event → Bool} (id : String) → Triple env p (try_read env id) (λ a. p)
  unfolding try_read
  try_read-Triple id = record {
    justifies = λ w j g. j;
    ends = λ w j g. g;
    follows = λ o w. o w.step w.table;
  }

  -- A write whose event is warranted wherever it comes through.
  pub try_write-Triple :
      {p : List Event → Bool} {q : Post (Result StoreError Sandbox)} (event : Sandbox → Event)
      (f : Table → Answer)
      → ((t : Table) → Follows t (f t).0)
      → ((s t : Table) (row : Sandbox)
          → f s ≡ (t, ok row)
          → (trace : List Event) → p trace ≡ true
          → (warranted (event row) trace ≡ true) × (q (ok row) (event row ∷ trace) ≡ true))
      → ((e : StoreError) (trace : List Event) → p trace ≡ true → q (err e) trace ≡ true)
      → Triple env p (try_write env event f) q
  unfolding try_write transact
  try_write-Triple {p} {q} event f onward free failing = record {
    justifies = λ w j g. (written (env.commits w.step) (env.others w.step w.table) w.trace j g).0;
    ends = λ w j g. (written (env.commits w.step) (env.others w.step w.table) w.trace j g).1;
    follows = λ o w.
        Follows-trans w.table (env.others w.step w.table) _ (o w.step w.table)
          (committed_follows (env.commits w.step) (env.others w.step w.table));
  }
    where
      committed_follows : (committed : Bool) (t : Table) → Follows t (transact committed f t).0
      committed_follows true t = onward t
      committed_follows false t = Follows-refl t

      answered_justified :
          (s : Table) (x : Answer) (trace : List Event)
          → f s ≡ x
          → justified trace ≡ true
          → p trace ≡ true
          → (justified (noted event x.1 trace) ≡ true) × (q x.1 (noted event x.1 trace) ≡ true)
      answered_justified s (t, ok row) trace e j g =
          let (w, h) = free s t row e trace g in (rw (w, j) refl, h)
      answered_justified s (t, err failed) trace e j g = (j, failing failed trace g)

      written :
          (committed : Bool) (s : Table) (trace : List Event)
          → justified trace ≡ true
          → p trace ≡ true
          → (justified (noted event (transact committed f s).1 trace) ≡ true)
            × (q (transact committed f s).1 (noted event (transact committed f s).1 trace) ≡ true)
      written true s trace j g = answered_justified s (f s) trace refl j g
      written false s trace j g = (j, failing StoreError.store_failed trace g)

  -- The post-condition of a call whose error is a value.
  abbrev pub on_ok : Post Sandbox → Post (Result StoreError Sandbox)
  on_ok q (ok row) trace = q row trace
  on_ok q (err e) trace = true

  pub or_fail-Triple :
      {q : Post Sandbox} (answer : Result StoreError Sandbox)
      → Triple env (on_ok q answer) (or_fail env answer) q
  or_fail-Triple (ok row) = done-Triple row (λ t h. h)
  or_fail-Triple (err e) = fail-Triple (ReconcileError.of_store e)

  pub read-Triple : {p : List Event → Bool} (id : String) → Triple env p (read env id) (λ row. p)
  read-Triple {p} id =
      bind-Triple (or_fail env) (λ answer. read_answer answer) (try_read env id)
        (try_read-Triple id)
    where
      read_answer :
          (answer : Result StoreError Sandbox) → Triple env p (or_fail env answer) (λ row. p)
      read_answer (ok row) = done-Triple row (λ t h. h)
      read_answer (err e) = fail-Triple (ReconcileError.of_store e)

  -- A write of the state `state`, which is warranted.
  pub write-Triple :
      {p : List Event → Bool} {q : Post Sandbox} (from : Sandbox) (state : SandboxState)
      (f : Table → Answer)
      → ((t : Table) → Follows t (f t).0)
      → ((s t : Table) (row : Sandbox) → f s ≡ (t, ok row) → row.observed_state ≡ state)
      → ((trace : List Event) → p trace ≡ true → warranted (wrote from state) trace ≡ true)
      → ((row : Sandbox) (trace : List Event)
          → p trace ≡ true
          → q row (wrote from state ∷ trace) ≡ true)
      → Triple env p (write env from f) q
  write-Triple {p} {q} from state f onward gives free h =
      bind-Triple {q = on_ok q} (or_fail env) (λ answer. or_fail-Triple answer)
        (try_write env (λ row. wrote from row.observed_state) f)
        (try_write-Triple (λ row. wrote from row.observed_state) f onward
          (λ s t row e trace g.
            let state_is = gives s t row e in
            (
              rw state_is (free trace g),
              subst (λ x. q row (wrote from x ∷ trace) ≡ true) (sym state_is) (h row trace g),
            ))
          (λ e trace g. refl))
