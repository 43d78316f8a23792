-- ===== src/Reconcile/Reconciler/Running/Writes.antt =====
-- The calls of the store in a run of internal/reconcile/reconciler.go in which nothing fails and
-- nobody else writes.
use mini_sand_box.Prelude.{
  suc, ◌≡◌, refl, sym, subst, ap, ◌∙◌, Bool, true, false, String, ◌∷◌, some, ok, eq_refl,
  if◌then◌else◌, arith,
}
use mini_sand_box.Prelude.Int.{ℤ}
use mini_sand_box.Prelude.Maps.{lookup, insert, lookup-insert}
use mini_sand_box.Protocol.Events.{is_zero}
use mini_sand_box.Domain.States.{SandboxState}
use mini_sand_box.Domain.Sandboxes.{Sandbox}
use mini_sand_box.Runtime.{Failure}
use mini_sand_box.Store.Lifecycle.{
  Table, Answer, transact, get, bumped, mutate, mutate_row, known, observe, update_observed,
}
use mini_sand_box.Store.Lifecycle.Updates.{settles, reset_retry, reset_row}
use mini_sand_box.Reconcile.Reconciler.{
  Environment, Setup, Event, World, Act, done, ◌>>=◌, and_then, clock, try_write, try_read, read,
  write,
}
use mini_sand_box.Reconcile.Reconciler.Failures.{observed_update}
use mini_sand_box.Reconcile.Reconciler.Terminated.{reset_update, mark, settle}
use mini_sand_box.Reconcile.Reconciler.Running.Reaches.{
  Quiet, Reaches, bind_reaches, Passive, Has, Became, Settled,
}

found_written :
    (key : String) (row : Sandbox) (t : Table) → lookup key (insert key row t) ≡ some row
found_written key row t = rw (lookup-insert key key row t, eq_refl key) refl

module _ (env : Environment) (setup : Setup) (quiet : Quiet env) where
  -- A write that the table accepts.
  pub write_reaches :
      (s row from : Sandbox) (f : Table → Answer)
      → row.id ≡ s.id
      → ((t : Table) → lookup s.id t ≡ some s → f t ≡ (insert s.id row t, ok row))
      → Reaches (Has s) (write env from f) (λ r v. (r ≡ row) × Has r v)
  unfolding try_write transact
  write_reaches s row from f same accepts w h = (
    record {
      table = insert s.id row w.table;
      trace = Event.wrote from row.observed_state ∷ w.trace;
      step = suc w.step;
    },
    row,
    rw (quiet.commits w.step, quiet.alone w.step w.table, accepts w.table h) refl,
    (
      refl,
      subst (λ key. lookup row.id (insert key row w.table) ≡ some row) same
          (found_written row.id row w.table),
    ),
  )

  pub clock_reaches :
      {P : World → Type 0}
      → ((w : World) → P w → P (record w { step = suc w.step }))
      → Reaches P (clock env) (λ now v. (is_zero now ≡ false) × P v)
  unfolding clock
  clock_reaches k w h =
      (record w { step = suc w.step }, env.now w.step, refl, (quiet.dated w.step, k w h))

  pub read_reaches :
      (s : Sandbox) (id : String)
      → s.id ≡ id
      → Reaches (Has s) (read env id) (λ r v. (r ≡ s) × Has s v)
  unfolding try_read get
  read_reaches s id same w h = (
    record w { step = suc w.step },
    s,
    rw (quiet.commits w.step, quiet.alone w.step w.table, ← same, get, h) refl,
    (refl, h),
  )

  update_accepted :
      (now : ℤ) (s : Sandbox) (state : SandboxState) (text : Failure) (runtime_id : String)
      (t : Table)
      → known state ≡ true
      → lookup s.id t ≡ some s
      → update_observed now (observed_update s state text runtime_id) t ≡ (
        insert s.id (bumped (observe now (observed_update s state text runtime_id)) s) t,
        ok (bumped (observe now (observed_update s state text runtime_id)) s),
      )
  unfolding update_observed mutate mutate_row
  update_accepted now s state text runtime_id t k h = rw (k, h) (ground arith)

  reset_accepted :
      (now : ℤ) (s : Sandbox) (state : SandboxState) (text : Failure) (runtime_id : String)
      (t : Table)
      → is_zero now ≡ false
      → known state ≡ true
      → settles state s.desired_state ≡ true
      → lookup s.id t ≡ some s
      → reset_retry (reset_update s state text runtime_id now) t ≡ (
        insert s.id (bumped (reset_row (reset_update s state text runtime_id now)) s) t,
        ok (bumped (reset_row (reset_update s state text runtime_id now)) s),
      )
  unfolding reset_retry mutate mutate_row
  reset_accepted now s state text runtime_id t z k d h = rw (z, k, h, d) (ground arith)

  pub mark_reaches :
      (s : Sandbox) (state : SandboxState) (text : Failure) (runtime_id : String)
      → known state ≡ true
      → Reaches
          (Has s)
          (mark env setup s state text runtime_id)
          (λ r v. Became s state runtime_id r × Has r v)
  unfolding mark observe
  mark_reaches s state text runtime_id k =
      bind_reaches (clock env) _ (clock_reaches {P = Has s} (λ w h. h)) (λ now w (z, h).
        let u = observed_update s state text runtime_id in
        let (v, r, e, same) =
          write_reaches s (bumped (observe now u) s) s (update_observed now u) refl
            (λ t g. update_accepted now s state text runtime_id t k g) w h in
        (
          v,
          r,
          e,
          (
            subst (Became s state runtime_id) (sym same.0) (record {
              id = refl;
              desired = refl;
              lease = refl;
              state_is = refl;
              runtime_is = refl;
            }),
            same.1,
          ),
        ))

  pub settle_reaches :
      (s : Sandbox) (state : SandboxState) (text : Failure) (runtime_id : String)
      → known state ≡ true
      → settles state s.desired_state ≡ true
      → Reaches
          (Has s)
          (settle env setup s state text runtime_id)
          (λ r v. Settled s state runtime_id r × Has r v)
  unfolding settle
  settle_reaches s state text runtime_id k d =
      bind_reaches (clock env) _ (clock_reaches {P = Has s} (λ w h. h)) (λ now w (z, h).
        let u = reset_update s state text runtime_id now in
        let (v, r, e, same) =
          write_reaches s (bumped (reset_row u) s) s (reset_retry u) refl
            (λ t g. reset_accepted now s state text runtime_id t z k d g) w h in
        (
          v,
          r,
          e,
          (
            subst (Settled s state runtime_id) (sym same.0) (record {
              became = record {
                id = refl;
                desired = refl;
                lease = refl;
                state_is = refl;
                runtime_is = refl;
              };
              attempts = refl;
              unscheduled = refl;
              numbered = ground arith;
            }),
            same.1,
          ),
        ))

pub Passive-then :
    {A B : Type 0} {R : B → World → Type 0} (s : Sandbox) (m : Act A) (f : A → Act B) (a : A)
    → Passive m a
    → Reaches (Has s) (f a) R
    → Reaches (Has s) (m >>= f) R
Passive-then s m f a t u w h =
    let (v, e, same) = t w in let (x, b, g, r) = u v (rw same h) in (x, b, ap (and_then f) e ∙ g, r)

pub reaches_else :
    {A : Type 0} {P : World → Type 0} {Q : A → World → Type 0} (c : Bool) (m n : Act A)
    → c ≡ false
    → Reaches P n Q
    → Reaches P (if c then m else n) Q
reaches_else true m n e t = absurd (ground (arith, e))
reaches_else false m n e t = t

pub reaches_then :
    {A : Type 0} {P : World → Type 0} {Q : A → World → Type 0} (c : Bool) (m n : Act A)
    → c ≡ true
    → Reaches P m Q
    → Reaches P (if c then m else n) Q
reaches_then true m n e t = t
reaches_then false m n e t = absurd (ground (arith, e))

pub Passive-bind :
    {A B : Type 0} (m : Act A) (f : A → Act B) (a : A) (b : B)
    → Passive m a
    → Passive (f a) b
    → Passive (m >>= f) b
Passive-bind m f a b t u w =
    let (v, e, same) = t w in let (x, g, there) = u v in (x, ap (and_then f) e ∙ g, there ∙ same)

pub Passive-done : {A : Type 0} (a : A) → Passive (done a) a
Passive-done a w = (w, refl, refl)

pub Passive-if :
    {A : Type 0} (c : Bool) (m n : Act A) (a : A)
    → (c ≡ true → Passive m a)
    → (c ≡ false → Passive n a)
    → Passive (if c then m else n) a
Passive-if true m n a t u = t refl
Passive-if false m n a t u = u refl
