-- ===== src/Examples/Sweeps.antt =====
-- internal/reconcile/candidate_sweeper.go over three records, two of which are due, in pages of one.
use mini_sand_box.Prelude.{◌≡◌, refl, true, false, List, [], ◌∷◌, none, some, ok, arith}
use mini_sand_box.Prelude.Int.{pos, lt}
use mini_sand_box.Domain.States.{pending, terminated, running, desired_running, desired_terminated}
use mini_sand_box.Domain.Reasons.{create_accepted}
use mini_sand_box.Domain.Sandboxes.{Sandbox, api}
use mini_sand_box.Store.Listing.{due, select, list_reconcile_candidates, below}
use mini_sand_box.Reconcile.Sweeper.{sweep}
use mini_sand_box.Reconcile.Sweeper.Pages.{IsOrdered}
use mini_sand_box.Reconcile.Sweeper.Complete.{collect, never, sweep_complete}

abbrev pending_row : Sandbox
pending_row = record {
  id = "a1";
  spec = record {
    image = "alpine";
    resources = record { cpu_quota_millis = pos 500; memory_mib = pos 128; pids = pos 64 };
    workspace = record { mount_path = "/workspace"; persistent = true };
    outbound = false;
    platform = record { os = "linux"; arch = "amd64" };
  };
  desired_state = desired_running;
  observed_state = pending;
  reason = create_accepted;
  message = "Sandbox creation has been accepted.";
  runtime_id = "";
  spec_hash = "5e";
  revision = 1;
  created_at = pos 10;
  updated_at = pos 10;
  last_transition_at = pos 10;
  expires_at = some (pos 10000);
  retry_attempt = 0;
  next_reconcile_at = none;
  last_reconcile_at = none;
  health_failure_count = 0;
  origin = api;
}

abbrev gone_row : Sandbox
gone_row = record pending_row {
  id = "b2";
  desired_state = desired_terminated;
  observed_state = terminated;
}

abbrev checked_row : Sandbox
checked_row = record pending_row {
  id = "c3";
  observed_state = running;
  last_reconcile_at = some (pos 900);
}

abbrev rows : List Sandbox
rows = pending_row ∷ gone_row ∷ checked_row ∷ []

rows-IsOrdered : IsOrdered "" rows
unfolding below
rows-IsOrdered = (refl, (refl, (refl, tt)))

sweep_complete_example :
    sweep (list_reconcile_candidates (λ a b. lt b a) rows) collect never 3 1 (pos 30) (pos 1000) []
    ≡ ok (pending_row ∷ checked_row ∷ [])
unfolding select due
sweep_complete_example =
    sweep_complete (λ a b. lt b a) rows 3 1 (pos 30) (pos 1000) rows-IsOrdered refl refl
      (omega arith) (omega arith)
