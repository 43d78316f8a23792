-- ===== src/Examples/Renewal.antt =====
-- internal/application/renew.go against a store of one record and a writer that comes in between
-- twice.
use mini_sand_box.Prelude.{
  ℕ, ◌+◌, ◌≡◌, refl, true, false, none, some, ok, err, ◌==◌, if◌then◌else◌, Bool-cases, inl, inr,
  arith,
}
use mini_sand_box.Prelude.Int.{ℤ, pos}
use mini_sand_box.Domain.States.{running, desired_running}
use mini_sand_box.Domain.Reasons.{create_accepted}
use mini_sand_box.Domain.Sandboxes.{Sandbox, api}
use mini_sand_box.Application.Renew.{
  conflict, RenewPolicy, LeaseStore, renew, with_read, renew_loop, after_validation, after_write,
  validate_renew, validate_extension,
}
use mini_sand_box.Application.Renew.Commit.{IsLeaseStore, extended, Renewed, renew-Renewed}

-- The state is the record; other writers raise its revision before every call but the last write.
abbrev single : LeaseStore Sandbox
single = record {
  get = λ s. ok s;
  renew = λ u s.
      if s.revision == u.expected_revision
      then (extended u s, ok (extended u s))
      else (s, err conflict);
  wake = λ id s. s;
  others = λ n s. if n == 0 then s else record s { revision = s.revision + 1 };
}

single-IsLeaseStore : IsLeaseStore single
single-IsLeaseStore = record {
  renews = λ u s t r h. elim (Bool-cases (s.revision == u.expected_revision)) [
    | inl e ↦ (s, ground arith, ground arith, ground arith, ground arith)
    | inr e ↦ absurd (ground arith)
  ];
  wakes = λ id s. refl;
  one_revision = λ n s a b f g e. ground arith;
}

abbrev policy : RenewPolicy
policy = record { minimum_ttl = pos 10; maximum_ttl = pos 1000; year = λ t. pos 2026 }

abbrev clock : ℕ → ℤ
clock n = pos 100

abbrev leased : Sandbox
leased = record {
  id = "s1";
  spec = record {
    image = "alpine";
    resources = record { cpu_quota_millis = pos 500; memory_mib = pos 128; pids = pos 64 };
    workspace = record { mount_path = "/workspace"; persistent = true };
    outbound = false;
    platform = record { os = "linux"; arch = "amd64" };
  };
  desired_state = desired_running;
  observed_state = running;
  reason = create_accepted;
  message = "";
  runtime_id = "c1";
  spec_hash = "5e";
  revision = 4;
  created_at = pos 10;
  updated_at = pos 10;
  last_transition_at = pos 10;
  expires_at = some (pos 200);
  retry_attempt = 0;
  next_reconcile_at = none;
  last_reconcile_at = none;
  health_failure_count = 0;
  origin = api;
}

-- The two writers have raised the revision four times before the renewal gets through.
abbrev renewed : Sandbox
renewed = record leased {
  revision = 9;
  expires_at = some (pos 500);
  next_reconcile_at = some (pos 100);
  updated_at = pos 100;
}

renew_third : renew single policy clock (pos 500) "s1" leased ≡ (renewed, ok renewed)
unfolding renew with_read renew_loop after_validation after_write validate_renew validate_extension
renew_third = refl

renew-Renewed_example :
    Renewed single policy clock (pos 500) single-IsLeaseStore leased renewed renewed
renew-Renewed_example =
    renew-Renewed single policy clock (pos 500) single-IsLeaseStore "s1" leased renewed renewed
      renew_third
