-- ===== src/Reconcile.antt =====
-- internal/reconcile: the work queue, the per-sandbox lock, retries and the recovery plan.
pub mod Recovery
pub mod KeyedLock
pub mod Queue
pub mod Backoff
pub mod Retry
pub mod Reconciler
pub mod Sweeper
pub mod Expiration
