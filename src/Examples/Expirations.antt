-- ===== src/Examples/Expirations.antt =====
-- internal/reconcile/ttl_expiration.go: a timer whose first commit loses to another write.
use mini_sand_box.Prelude.{ℕ, zero, suc, ◌≡◌, refl, true, false, [], ◌∷◌, none, some}
use mini_sand_box.Prelude.Int.{pos, lt}
use mini_sand_box.Prelude.Maps.{lookup, insert}
use mini_sand_box.Domain.States.{running, desired_running}
use mini_sand_box.Domain.Reasons.{create_accepted}
use mini_sand_box.Domain.Sandboxes.{Sandbox, api}
use mini_sand_box.Store.Lifecycle.{Table, mutate}
use mini_sand_box.Store.Lifecycle.Updates.{expire_intent}
use mini_sand_box.Reconcile.Expiration.{TtlHeapEntry, expire_entry, after_validate, validate}
use mini_sand_box.Reconcile.Expiration.Justified.{wakes}

abbrev leased : ℕ → Sandbox
leased revision = record {
  id = "a1";
  spec = record {
    image = "alpine";
    resources = record { cpu_quota_millis = pos 500; memory_mib = pos 128; pids = pos 64 };
    workspace = record { mount_path = "/workspace"; persistent = true };
    outbound = false;
    platform = record { os = "linux"; arch = "amd64" };
  };
  desired_state = desired_running;
  observed_state = running;
  reason = create_accepted;
  message = "";
  runtime_id = "c1";
  spec_hash = "5e";
  revision = revision;
  created_at = pos 10;
  updated_at = pos 10;
  last_transition_at = pos 10;
  expires_at = some (pos 10000);
  retry_attempt = 0;
  next_reconcile_at = none;
  last_reconcile_at = none;
  health_failure_count = 0;
  origin = api;
}

abbrev timer : TtlHeapEntry
timer = record { sandbox_id = "a1"; expected_expires_at = pos 10000 }

abbrev kept : Table
kept = ("a1", leased 4) ∷ []

-- Another write raises the revision between the first read and its commit.
abbrev written : ℕ → Table → Table
written (suc (suc zero)) t = insert "a1" (leased 5) t
written n t = t

-- The second attempt goes through.
expired_second :
    wakes
      (expire_entry
        (λ a b. lt b a)
        (λ n. pos 10001)
        (λ n. true)
        (λ n. true)
        (λ n t. t)
        written
        timer
        kept).1
    ≡ true
unfolding expire_entry wakes lookup insert after_validate validate expire_intent mutate
expired_second = refl
