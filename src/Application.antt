-- ===== src/Application.antt =====
-- internal/application: the renewal of a lease.
pub mod Renew
