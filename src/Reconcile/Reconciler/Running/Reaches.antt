-- ===== src/Reconcile/Reconciler/Running/Reaches.antt =====
-- Rules for the parts of a run of internal/reconcile/reconciler.go in which nothing fails and nobody
-- else writes.
use mini_sand_box.Prelude.{ℕ, ◌≡◌, ap, ◌∙◌, true, false, String, none, some, ok, ◌==◌}
use mini_sand_box.Prelude.Maps.{lookup}
use mini_sand_box.Protocol.Events.{is_zero}
use mini_sand_box.Domain.States.{SandboxState}
use mini_sand_box.Domain.Sandboxes.{Sandbox}
use mini_sand_box.Store.Lifecycle.{Table}
use mini_sand_box.Reconcile.Reconciler.{Environment, World, Act, ◌>>=◌, and_then}

-- Every call comes through, no time is zero, and nobody else writes.
pub record Quiet (env : Environment) : Type 0 where
  pub commits : (n : ℕ) → env.commits n ≡ true
  pub alone : (n : ℕ) (t : Table) → env.others n t ≡ t
  pub unhindered : (n : ℕ) → env.wait n ≡ none
  pub dated : (n : ℕ) → is_zero (env.now n) ≡ false

-- From a world with `P`, the run comes to its end with a value and a world that have `Q`.
abbrev pub Reaches : {A : Type 0} → (World → Type 0) → Act A → (A → World → Type 0) → Type 0
Reaches {A} P m Q = (w : World) → P w → (v : World) × (a : A) × (m w ≡ (v, ok a)) × Q a v

pub bind_reaches :
    {A B : Type 0} {P : World → Type 0} {Q : A → World → Type 0} {R : B → World → Type 0}
    (m : Act A) (f : A → Act B)
    → Reaches P m Q
    → ((a : A) → Reaches (Q a) (f a) R)
    → Reaches P (m >>= f) R
bind_reaches m f t u w h =
    let (v, a, e, q) = t w h in let (x, b, g, r) = u a v q in (x, b, ap (and_then f) e ∙ g, r)

-- A call that leaves the table, and its value.
abbrev pub Passive : {A : Type 0} → Act A → A → Type 0
Passive m a = (w : World) → (v : World) × (m w ≡ (v, ok a)) × (v.table ≡ w.table)

abbrev pub Has : Sandbox → World → Type 0
Has s w = lookup s.id w.table ≡ some s

-- A row with the state `state` that came from `s`.
pub record Became (s : Sandbox) (state : SandboxState) (runtime_id : String) (row : Sandbox)
    : Type 0 where
  pub id : row.id ≡ s.id
  pub desired : row.desired_state ≡ s.desired_state
  pub lease : row.expires_at ≡ s.expires_at
  pub state_is : row.observed_state ≡ state
  pub runtime_is : row.runtime_id ≡ runtime_id

-- The work is done: nothing is left to retry.
pub record Settled (s : Sandbox) (state : SandboxState) (runtime_id : String) (row : Sandbox)
    : Type 0 where
  pub became : Became s state runtime_id row
  pub attempts : row.retry_attempt ≡ 0
  pub unscheduled : row.next_reconcile_at ≡ none
  pub numbered : (row.revision == 0) ≡ false

-- Where a record is brought to.
abbrev pub Settles : Sandbox → SandboxState → String → Unit {0} → World → Type 0
Settles s state runtime_id unit w = (row : Sandbox) × Has row w × Settled s state runtime_id row

-- A row that came from one that came from `s`.
pub carried :
    (s row end : Sandbox) (before state : SandboxState) (a b : String)
    → Became s before a row
    → Settled row state b end
    → Settled s state b end
carried s row end before state a b x y = record {
  became = record {
    id = y.became.id ∙ x.id;
    desired = y.became.desired ∙ x.desired;
    lease = y.became.lease ∙ x.lease;
    state_is = y.became.state_is;
    runtime_is = y.became.runtime_is;
  };
  attempts = y.attempts;
  unscheduled = y.unscheduled;
  numbered = y.numbered;
}
