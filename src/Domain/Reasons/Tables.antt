-- ===== src/Domain/Reasons/Tables.antt =====
-- The two tables of internal/domain/sandbox_reason.go against each other.
use mini_sand_box.Prelude.{arith, ◌≡◌, Bool, false, ◌||◌, String, is_some}
use mini_sand_box.Domain.States.{
  SandboxState, pending, creating, running, stopping, terminated, failed,
}
use mini_sand_box.Domain.Reasons.{
  SandboxReason, sandbox_reason_state_allowed, sandbox_reason_public_message,
}

-- The reason may stand with one of the six states that the program defines.
abbrev pub has_state : SandboxReason → Bool
has_state r =
    sandbox_reason_state_allowed r pending
    || sandbox_reason_state_allowed r creating
    || sandbox_reason_state_allowed r running
    || sandbox_reason_state_allowed r stopping
    || sandbox_reason_state_allowed r terminated
    || sandbox_reason_state_allowed r failed

-- A reason has a public text exactly when it may stand with one of the six states, and no reason
-- may stand with a state that the program does not define.
pub tables_agree :
    (r : SandboxReason) (text : String)
    → (is_some (sandbox_reason_public_message r) ≡ has_state r)
      × (sandbox_reason_state_allowed r (SandboxState.other text) ≡ false)
unfolding sandbox_reason_state_allowed sandbox_reason_public_message
tables_agree r text = ground arith
