-- ===== src/Domain/States.antt =====
-- internal/domain/sandbox_state.go: the observed and the desired state of a sandbox.
use mini_sand_box.Prelude.{Bool, true, false, ◌||◌, String}

-- `other` is a text that the program does not define as a state.
pub data SandboxState : Type 0 where
  pending creating running stopping terminated failed : SandboxState
  other : String → SandboxState

pub data DesiredState : Type 0 where
  desired_running desired_terminated : DesiredState
  other : String → DesiredState

abbrev pub is_state : SandboxState → SandboxState → Bool
is_state pending pending = true
is_state creating creating = true
is_state running running = true
is_state stopping stopping = true
is_state terminated terminated = true
is_state failed failed = true
is_state _ _ = false

abbrev pub is_desired : DesiredState → DesiredState → Bool
is_desired desired_running desired_running = true
is_desired desired_terminated desired_terminated = true
is_desired _ _ = false

abbrev pub terminal : SandboxState → Bool
terminal s = is_state s terminated || is_state s failed
