-- ===== src/Reconcile/Reconciler/Running/Outcome.antt =====
-- Where a run of internal/reconcile/reconciler.go ends when nothing fails and nobody else writes.
use mini_sand_box.Prelude.{
  ℕ, suc, ◌≡◌, refl, sym, subst, ap, ◌∙◌, false, not, String, none, some, ok, is_none,
}
use mini_sand_box.Prelude.Maps.{lookup}
use mini_sand_box.Domain.States.{
  SandboxState, is_state, desired_running, desired_terminated, creating, running, terminated,
  stopping,
}
use mini_sand_box.Domain.Sandboxes.{Sandbox}
use mini_sand_box.Reconcile.Reconciler.{
  Environment, Setup, Actual, made, deleted, World, Act, ◌>>=◌, clock, read, answered, ensured,
  is_made,
}
use mini_sand_box.Reconcile.Reconciler.Failures.{delete_runtime}
use mini_sand_box.Reconcile.Reconciler.Terminated.{
  mark, shutdown_runner, after_delete, reconcile_terminated, deleting_text,
}
use mini_sand_box.Reconcile.Reconciler.Recover.{ready, readiness, ensure_runtime}
use mini_sand_box.Reconcile.Reconciler.Running.{
  creating_text, waiting_text, sandbox_lease_due, after_readiness, after_ensure, create_running,
  reconcile_running, expire_lease_if_due, converge, reconcile,
}
use mini_sand_box.Reconcile.Reconciler.Running.Reaches.{
  Quiet, Reaches, bind_reaches, Passive, Has, Became, Settles, carried,
}
use mini_sand_box.Reconcile.Reconciler.Running.Writes.{
  mark_reaches, read_reaches, reaches_else, reaches_then, Passive-then,
}
use mini_sand_box.Reconcile.Reconciler.Running.Calm.{
  Cooperative, operate-Passive, readiness-Passive, shutdown-Passive, commit_running_reaches,
  commit_terminated_reaches,
}

module _ (env : Environment) (setup : Setup) (actual : Actual) (quiet : Quiet env)
    (helps : Cooperative env setup actual) where
  -- The end of a run over a row that came from `s`.
  carried_on :
      (s row : Sandbox) (before state : SandboxState) (a b : String) (m : Act (Unit {0}))
      → Became s before a row
      → Reaches (Has row) m (Settles row state b)
      → Reaches (Has row) m (Settles s state b)
  carried_on s row before state a b m x t w h =
      let (v, u, e, (end, has, settled)) = t w h in
      (v, u, e, (end, has, carried s row end before state a b x settled))

  after_waiting_reaches :
      (s : Sandbox)
      → s.desired_state ≡ desired_running
      → is_none s.expires_at ≡ false
      → Reaches
          (Has s)
          (readiness env setup s >>= after_readiness env setup s actual.runtime_id)
          (Settles s running actual.runtime_id)
  unfolding after_readiness
  after_waiting_reaches s wants leased =
      Passive-then s (readiness env setup s) (after_readiness env setup s actual.runtime_id) ready
        (readiness-Passive env setup actual quiet helps s)
        (commit_running_reaches env setup actual quiet helps s wants leased)

  after_ensure_reaches :
      (s : Sandbox)
      → s.desired_state ≡ desired_running
      → is_none s.expires_at ≡ false
      → Reaches
          (Has s)
          (after_ensure env setup s (answered (made actual)))
          (Settles s running actual.runtime_id)
  unfolding after_ensure
  after_ensure_reaches s wants leased =
      bind_reaches (mark env setup s creating waiting_text actual.runtime_id)
        (λ row. readiness env setup row >>= after_readiness env setup row actual.runtime_id)
        (mark_reaches env setup quiet s creating waiting_text actual.runtime_id refl)
        (λ row w (b, has).
          carried_on s row creating running actual.runtime_id actual.runtime_id _ b
            (after_waiting_reaches row (b.desired ∙ wants) (ap is_none b.lease ∙ leased)) w has)

  create_running_reaches :
      (s : Sandbox)
      → s.desired_state ≡ desired_running
      → is_none s.expires_at ≡ false
      → Reaches (Has s) (create_running env setup s) (Settles s running actual.runtime_id)
  unfolding create_running ensure_runtime
  create_running_reaches s wants leased =
      bind_reaches (mark env setup s creating creating_text s.runtime_id)
        (λ row. ensure_runtime env setup >>= after_ensure env setup row)
        (mark_reaches env setup quiet s creating creating_text s.runtime_id refl)
        (λ row w (b, has).
          carried_on s row creating running s.runtime_id actual.runtime_id _ b
            (Passive-then row (ensure_runtime env setup) (after_ensure env setup row)
              (answered (made actual))
              (operate-Passive env setup actual quiet helps env.ensure
                (λ answer. ensured (is_made answer)) (made actual) helps.ensures)
              (after_ensure_reaches row (b.desired ∙ wants) (ap is_none b.lease ∙ leased)))
            w has)

  removal_reaches :
      (s : Sandbox)
      → s.desired_state ≡ desired_terminated
      → Reaches
          (Has s)
          (shutdown_runner env setup
            >>= (λ u. delete_runtime env setup >>= after_delete env setup s))
          (Settles s terminated "")
  unfolding delete_runtime after_delete
  removal_reaches s wants =
      Passive-then s (shutdown_runner env setup)
        (λ u. delete_runtime env setup >>= after_delete env setup s) tt
        (shutdown-Passive env setup actual quiet helps)
        (Passive-then s (delete_runtime env setup) (after_delete env setup s) (answered none)
          (operate-Passive env setup actual quiet helps env.delete deleted none helps.deletes)
          (commit_terminated_reaches env setup actual quiet helps s wants))

  reconcile_terminated_reaches :
      (s : Sandbox)
      → s.desired_state ≡ desired_terminated
      → is_state s.observed_state terminated ≡ false
      → Reaches (Has s) (reconcile_terminated env setup s) (Settles s terminated "")
  unfolding reconcile_terminated
  reconcile_terminated_reaches s wants alive = reaches_else _ _ _ alive (
      bind_reaches (mark env setup s stopping deleting_text s.runtime_id)
        (λ row.
          shutdown_runner env setup
          >>= (λ u. delete_runtime env setup >>= after_delete env setup row))
        (mark_reaches env setup quiet s stopping deleting_text s.runtime_id refl)
        (λ row w (b, has).
          carried_on s row stopping terminated s.runtime_id "" _ b
            (removal_reaches row (b.desired ∙ wants)) w has))

  expire_lease_if_due-Passive :
      (s : Sandbox)
      → ((n : ℕ) → sandbox_lease_due s (env.now n) ≡ false)
      → Passive (expire_lease_if_due env setup s) s
  unfolding expire_lease_if_due clock
  expire_lease_if_due-Passive s early w =
      (record w { step = suc w.step }, rw (early w.step) refl, refl)

  reconcile_reaches :
      (s : Sandbox) (id : String) (Q : Unit {0} → World → Type 0)
      → s.id ≡ id
      → ((n : ℕ) → sandbox_lease_due s (env.now n) ≡ false)
      → Reaches (Has s) (converge env setup s s.desired_state) Q
      → Reaches (Has s) (reconcile env setup id) Q
  unfolding reconcile
  reconcile_reaches s id Q same early t =
      bind_reaches (read env id)
        (λ r. expire_lease_if_due env setup r >>= (λ row. converge env setup row row.desired_state))
        (read_reaches env setup quiet s id same)
        (λ r w (e, has).
          subst
            (λ x.
              (v : World) × (u : Unit {0}) × ((expire_lease_if_due env setup x
                    >>= (λ row. converge env setup row row.desired_state))
                  w
                ≡ (v, ok u))
              × Q u v)
            (sym e)
            (Passive-then s (expire_lease_if_due env setup s)
              (λ row. converge env setup row row.desired_state) s
              (expire_lease_if_due-Passive s early) t w has))

  -- When no write fails, no wait for a slot is cancelled, the clock never reads the zero time, the
  -- runtime and the probes report no error, the network probe and the gate of the isolation are there
  -- for outbound sandboxes, and nobody else writes, a run of `Reconcile` over a record that is desired
  -- running, is in any state but `Running` and has a lease that has not ended by any reading comes to
  -- its end without an error: the record is `Running` then, over the container that the runtime made,
  -- and nothing is left to retry. That includes a record in the state `Terminated`, and one that
  -- `FailEgress` has made `Failed`, against what comments of the source say of these two.
  pub reconcile_runs :
      (s : Sandbox) (id : String) (w : World)
      → s.id ≡ id
      → lookup s.id w.table ≡ some s
      → s.desired_state ≡ desired_running
      → is_state s.observed_state running ≡ false
      → is_none s.expires_at ≡ false
      → ((n : ℕ) → sandbox_lease_due s (env.now n) ≡ false)
      → (v : World) × (u : Unit {0}) × (reconcile env setup id w ≡ (v, ok u))
        × Settles s running actual.runtime_id u v
  unfolding converge reconcile_running
  reconcile_runs s id w same has wants idle leased early =
      reconcile_reaches s id (Settles s running actual.runtime_id) same early
        (subst (λ d. Reaches (Has s) (converge env setup s d) (Settles s running actual.runtime_id))
          (sym wants)
          (reaches_then (not (is_state s.observed_state running)) (create_running env setup s) _
            (ap not idle) (create_running_reaches s wants leased)))
        w has

  -- When no call fails, the runtime reports no error and nobody else writes, a run of `Reconcile` over
  -- a record that is desired terminated and is in any state but `Terminated` comes to its end without
  -- an error: the record is `Terminated` then, without a container, and nothing is left to retry.
  pub reconcile_terminates :
      (s : Sandbox) (id : String) (w : World)
      → s.id ≡ id
      → lookup s.id w.table ≡ some s
      → s.desired_state ≡ desired_terminated
      → is_state s.observed_state terminated ≡ false
      → (v : World) × (u : Unit {0}) × (reconcile env setup id w ≡ (v, ok u))
        × Settles s terminated "" u v
  unfolding converge
  reconcile_terminates s id w same has wants alive =
      reconcile_reaches s id (Settles s terminated "") same (λ n. rw wants refl)
        (subst (λ d. Reaches (Has s) (converge env setup s d) (Settles s terminated "")) (sym wants)
          (reconcile_terminated_reaches s wants alive))
        w has
