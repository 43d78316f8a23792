-- ===== src/Domain.antt =====
-- internal/domain: the state and the reason of a sandbox, and its record.
pub mod States
pub mod Reasons
pub mod Sandboxes
