-- ===== src/Runner.antt =====
-- internal/runner: the process in the sandbox that runs commands.
pub mod Execution
pub mod Sequencer
pub mod EventStore
pub mod Arbiter
pub mod Manager
