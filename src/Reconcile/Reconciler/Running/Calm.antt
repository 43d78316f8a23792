-- ===== src/Reconcile/Reconciler/Running/Calm.antt =====
-- The calls of internal/reconcile/reconciler.go where the runtime and the probes report no error.
use mini_sand_box.Prelude.{
  ℕ, suc, ◌≡◌, refl, ap, ◌∙◌, true, false, not, ◌||◌, ◌∷◌, none, some, is_none, ◌==◌, Bool-cases,
  inl, inr, arith,
}
use mini_sand_box.Domain.States.{desired_running, desired_terminated, running, terminated}
use mini_sand_box.Domain.Sandboxes.{Sandbox}
use mini_sand_box.Runtime.{corrupt_error}
use mini_sand_box.Reconcile.Reconciler.{
  Environment, Setup, Actual, made, Event, done, ◌>>=◌, ask, answered, after_wait, operate, silent,
  note, shut_down, probed, networked, gated, projected,
}
use mini_sand_box.Reconcile.Reconciler.Terminated.{
  settle, shutdown_runner, project_lease, commit_terminated, terminated_text,
}
use mini_sand_box.Reconcile.Reconciler.Recover.{
  ready, readiness, probe_readiness, gate_readiness, after_network,
}
use mini_sand_box.Reconcile.Reconciler.Running.{running_text, after_projection, commit_running}
use mini_sand_box.Reconcile.Reconciler.Running.Reaches.{
  Quiet, Reaches, bind_reaches, Passive, Has, Settles,
}
use mini_sand_box.Reconcile.Reconciler.Running.Writes.{
  settle_reaches, Passive-then, Passive-bind, Passive-done, Passive-if,
}

-- The runtime and the probes report no error.
pub record Cooperative (env : Environment) (setup : Setup) (actual : Actual) : Type 0 where
  pub ensures : (n : ℕ) → env.ensure n ≡ made actual
  pub deletes : (n : ℕ) → env.delete n ≡ none
  pub probes : (n : ℕ) → env.probe n ≡ none
  pub networks : (n : ℕ) → env.probe_network n ≡ none
  pub isolates : (n : ℕ) → env.check_egress n ≡ none
  pub projects : (n : ℕ) → env.write_lease n ≡ none
  pub can_network : setup.probes_network ≡ true
  pub can_gate : setup.gates_egress ≡ true

module _ (env : Environment) (setup : Setup) (actual : Actual) (quiet : Quiet env)
    (helps : Cooperative env setup actual) where
  pub ask-Passive :
      {A : Type 0} (answer : ℕ → A) (event : A → Event) (a : A)
      → ((n : ℕ) → answer n ≡ a)
      → Passive (ask answer event) a
  unfolding ask
  ask-Passive answer event a e w = (
    record { table = w.table; trace = event a ∷ w.trace; step = suc w.step },
    rw (e w.step) refl,
    refl,
  )

  pub operate-Passive :
      {A : Type 0} (answer : ℕ → A) (event : A → Event) (a : A)
      → ((n : ℕ) → answer n ≡ a)
      → Passive (operate env answer event) (answered a)
  unfolding ask operate after_wait
  operate-Passive answer event a e w = (
    record { table = w.table; trace = event a ∷ w.trace; step = suc (suc w.step) },
    rw (quiet.unhindered w.step, e (suc w.step)) refl,
    refl,
  )

  pub readiness-Passive : (s : Sandbox) → Passive (readiness env setup s) ready
  unfolding readiness after_network
  readiness-Passive s =
      Passive-if s.spec.outbound _ _ ready
        (λ outbound.
          Passive-if (not setup.probes_network || not setup.gates_egress) _ _ ready
            (λ unable. absurd (able unable))
            (λ can.
              Passive-bind (ask env.probe_network (λ a. networked (silent a)))
                (after_network env setup) none ready
                (ask-Passive env.probe_network (λ a. networked (silent a)) none helps.networks)
                (Passive-bind (ask env.check_egress (λ a. gated (silent a)))
                  (λ a. done (gate_readiness a)) none ready
                  (ask-Passive env.check_egress (λ a. gated (silent a)) none helps.isolates)
                  (Passive-done ready))))
        (λ closed.
          Passive-bind (ask env.probe (λ a. probed (silent a))) (λ a. done (probe_readiness a)) none
            ready (ask-Passive env.probe (λ a. probed (silent a)) none helps.probes)
            (Passive-done ready))
    where
      able : (not setup.probes_network || not setup.gates_egress) ≡ true → ⊥
      able h = ground (arith, helps.can_network, helps.can_gate)

  pub shutdown-Passive : Passive (shutdown_runner env setup) tt
  unfolding shutdown_runner
  shutdown-Passive w = elim (Bool-cases setup.has_shutdown) [
    | inl e ↦ (note shut_down w, rw e refl, refl)
    | inr e ↦ (w, rw e refl, refl)
  ]

  pub project-Passive :
      (s : Sandbox)
      → is_none s.expires_at ≡ false
      → (s.revision == 0) ≡ false
      → Passive (project_lease env setup s) none
  unfolding project_lease
  project-Passive s leased numbered =
      Passive-if _ (done none) _ none (λ e. Passive-done none)
        (λ e.
          Passive-if (is_none s.expires_at || s.revision == 0) (done (some corrupt_error)) _ none
            (λ h. absurd (ground (arith, leased, numbered)))
            (λ h. ask-Passive env.write_lease (λ a. projected (silent a)) none helps.projects))

  pub commit_running_reaches :
      (s : Sandbox)
      → s.desired_state ≡ desired_running
      → is_none s.expires_at ≡ false
      → Reaches
          (Has s)
          (commit_running env setup s actual.runtime_id)
          (Settles s running actual.runtime_id)
  unfolding commit_running after_projection
  commit_running_reaches s wants leased =
      bind_reaches (settle env setup s running running_text actual.runtime_id)
        (λ row. project_lease env setup row >>= after_projection env setup row)
        (settle_reaches env setup quiet s running running_text actual.runtime_id refl
          (rw wants refl))
        (λ row w (settled, has).
          Passive-then {R = Settles s running actual.runtime_id} row (project_lease env setup row)
            (after_projection env setup row) none
            (project-Passive row (ap is_none settled.became.lease ∙ leased) settled.numbered)
            (λ v there. (v, tt, refl, (row, there, settled))) w has)

  pub commit_terminated_reaches :
      (s : Sandbox)
      → s.desired_state ≡ desired_terminated
      → Reaches (Has s) (commit_terminated env setup s) (Settles s terminated "")
  unfolding commit_terminated
  commit_terminated_reaches s wants =
      bind_reaches (settle env setup s terminated terminated_text "") (λ row. done tt)
        (settle_reaches env setup quiet s terminated terminated_text "" refl (rw wants refl))
        (λ row w (settled, has). (w, tt, refl, (row, has, settled)))
