-- ===== src/Examples/Reconciler.antt =====
-- internal/reconcile/reconciler.go on one record: a runtime without an error, and one that cannot
-- make the container while another writer raises the record's revision.
use mini_sand_box.Prelude.{ℕ, ◌≡◌, refl, true, false, [], ◌∷◌, none, some, ok, ◌==◌, if◌then◌else◌}
use mini_sand_box.Prelude.Int.{pos, lt}
use mini_sand_box.Prelude.Maps.{lookup}
use mini_sand_box.Domain.States.{pending, running, terminated, desired_running, desired_terminated}
use mini_sand_box.Domain.Reasons.{create_accepted, container_create_failed}
use mini_sand_box.Domain.Sandboxes.{Sandbox, api, expired}
use mini_sand_box.Runtime.{plain_error}
use mini_sand_box.Application.Renew.Commit.{IsLeaseStore}
use mini_sand_box.Store.Lifecycle.{Table}
use mini_sand_box.Store.Lifecycle.Updates.{update_desired}
use mini_sand_box.Store.Lifecycle.History.{update_desired-Follows}
use mini_sand_box.Store.Lifecycle.Renewal.{sqlite_lease_store, sqlite_lease_store-IsLeaseStore}
use mini_sand_box.Reconcile.Reconciler.{Environment, Setup, Actual, made, refused, World}
use mini_sand_box.Reconcile.Reconciler.Running.{reconcile, fail_egress}
use mini_sand_box.Reconcile.Reconciler.Running.Reaches.{Quiet, Settles}
use mini_sand_box.Reconcile.Reconciler.Running.Calm.{Cooperative}
use mini_sand_box.Reconcile.Reconciler.Running.Outcome.{reconcile_runs, reconcile_terminates}
use mini_sand_box.Reconcile.Reconciler.Evidence.{justified}
use mini_sand_box.Reconcile.Reconciler.Evidence.Reconciles.{reconcile-justified, reconcile-Follows}

abbrev actual : Actual
actual = record { runtime_id = "c1"; spec_hash = "5e"; is_running = true }

abbrev calm : Environment
calm = record {
  commits = λ n. true;
  others = λ n t. t;
  now = λ n. pos 20;
  random = λ n cap. ok (pos 0);
  wait = λ n. none;
  ensure = λ n. made actual;
  delete = λ n. none;
  inspect = λ n. ok actual;
  replace = λ n. ok actual;
  probe = λ n. none;
  probe_network = λ n. none;
  check_egress = λ n. none;
  write_lease = λ n. none;
}

abbrev setup : Setup
setup = record {
  behind = (λ a b. lt b a);
  retry_min = pos 1;
  retry_max = pos 60;
  has_shutdown = true;
  has_projector = true;
  replaces_compute = true;
  probes_network = true;
  gates_egress = true;
}

calm-Quiet : Quiet calm
calm-Quiet = record {
  commits = λ n. refl;
  alone = λ n t. refl;
  unhindered = λ n. refl;
  dated = λ n. refl;
}

calm-Cooperative : Cooperative calm setup actual
calm-Cooperative = record {
  ensures = λ n. refl;
  deletes = λ n. refl;
  probes = λ n. refl;
  networks = λ n. refl;
  isolates = λ n. refl;
  projects = λ n. refl;
  can_network = refl;
  can_gate = refl;
}

abbrev accepted : Sandbox
accepted = record {
  id = "s1";
  spec = record {
    image = "alpine";
    resources = record { cpu_quota_millis = pos 500; memory_mib = pos 128; pids = pos 64 };
    workspace = record { mount_path = "/workspace"; persistent = true };
    outbound = true;
    platform = record { os = "linux"; arch = "amd64" };
  };
  desired_state = desired_running;
  observed_state = pending;
  reason = create_accepted;
  message = "Sandbox creation has been accepted.";
  runtime_id = "";
  spec_hash = "5e";
  revision = 1;
  created_at = pos 10;
  updated_at = pos 10;
  last_transition_at = pos 10;
  expires_at = some (pos 100000);
  retry_attempt = 2;
  next_reconcile_at = some (pos 15);
  last_reconcile_at = none;
  health_failure_count = 0;
  origin = api;
}

abbrev doomed : Sandbox
doomed = record accepted { desired_state = desired_terminated; observed_state = running }

abbrev over : Sandbox → World
over s = record { table = ("s1", s) ∷ []; trace = []; step = 0 }

reconcile_runs_example :
    (v : World) × (u : Unit {0}) × (reconcile calm setup "s1" (over accepted) ≡ (v, ok u))
    × Settles accepted running "c1" u v
unfolding lookup expired
reconcile_runs_example =
    reconcile_runs calm setup actual calm-Quiet calm-Cooperative accepted "s1" (over accepted) refl
      refl refl refl refl (λ n. refl)

reconcile_terminates_example :
    (v : World) × (u : Unit {0}) × (reconcile calm setup "s1" (over doomed) ≡ (v, ok u))
    × Settles doomed terminated "" u v
unfolding lookup
reconcile_terminates_example =
    reconcile_terminates calm setup actual calm-Quiet calm-Cooperative doomed "s1" (over doomed)
      refl refl refl refl

-- The container cannot be made, one write fails, and somebody tries to terminate the sandbox
-- before every call.
abbrev rough : Environment
rough = record calm {
  commits = λ n. if n == 3 then false else true;
  others = λ n t. (update_desired (λ a b. lt b a) (pos 30) "s1" desired_terminated n t).0;
  ensure = λ n. refused (record plain_error { failure_reason = some container_create_failed }) none;
}

reconcile-justified_example :
    (justified (reconcile rough setup "s1" (over accepted)).0.trace ≡ true)
    × (justified (fail_egress rough setup "s1" (over accepted)).0.trace ≡ true)
reconcile-justified_example = reconcile-justified rough setup "s1" (over accepted) refl

-- Another writer of a renewal is a run of the reconciler.
abbrev reconciling : ℕ → Table → Table
reconciling n t = (reconcile rough setup "s1" (record { table = t; trace = []; step = 0 })).0.table

sqlite_lease_store-IsLeaseStore_example :
    IsLeaseStore (sqlite_lease_store (λ a b. lt b a) "s1" reconciling)
sqlite_lease_store-IsLeaseStore_example =
    sqlite_lease_store-IsLeaseStore (λ a b. lt b a) "s1" reconciling
      (λ n t.
        (reconcile-Follows rough setup "s1" (record { table = t; trace = []; step = 0 })
          (λ n t. update_desired-Follows (λ a b. lt b a) (pos 30) "s1" desired_terminated n t)).0)
