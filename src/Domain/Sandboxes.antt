-- ===== src/Domain/Sandboxes.antt =====
-- internal/domain/sandbox.go and sandbox_spec.go: the record of a sandbox.
use mini_sand_box.Prelude.{ℕ, Bool, false, not, String, Option, none, some}
use mini_sand_box.Prelude.Int.{ℤ, lt}
use mini_sand_box.Domain.States.{SandboxState, DesiredState}
use mini_sand_box.Domain.Reasons.{SandboxReason}

pub record ResourceLimits : Type 0 where
  pub cpu_quota_millis : ℤ
  pub memory_mib : ℤ
  pub pids : ℤ

pub record WorkspaceSpec : Type 0 where
  pub mount_path : String
  pub persistent : Bool

pub record Platform : Type 0 where
  pub os : String
  pub arch : String

-- `outbound` is the one field of `NetworkSpec`.
pub record SandboxSpec : Type 0 where
  pub image : String
  pub resources : ResourceLimits
  pub workspace : WorkspaceSpec
  pub outbound : Bool
  pub platform : Platform

-- `other_origin` is a text that the program does not define.
pub data SandboxOrigin : Type 0 where
  api recovered_orphan : SandboxOrigin
  other_origin : String → SandboxOrigin

-- A nil time is `none`.
pub record Sandbox : Type 0 where
  pub id : String
  pub spec : SandboxSpec
  pub desired_state : DesiredState
  pub observed_state : SandboxState
  pub reason : SandboxReason
  pub message : String
  pub runtime_id : String
  pub spec_hash : String
  pub revision : ℕ
  pub created_at : ℤ
  pub updated_at : ℤ
  pub last_transition_at : ℤ
  pub expires_at : Option ℤ
  pub retry_attempt : ℕ
  pub next_reconcile_at : Option ℤ
  pub last_reconcile_at : Option ℤ
  pub health_failure_count : ℕ
  pub origin : SandboxOrigin

-- The lease has ended by `now`, which is not before its end.
abbrev pub ended_by : ℤ → Option ℤ → Bool
ended_by now none = false
ended_by now (some end) = not (lt now end)

unfoldable pub expired : Sandbox → ℤ → Bool
expired s now = ended_by now s.expires_at
