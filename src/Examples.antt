-- ===== src/Examples.antt =====
-- The theorems of every part at concrete inputs.
mod Renewal
mod Queue
mod KeyedLock
mod Policies
mod Executions
mod Events
mod Terminal
mod Registry
mod Store
mod Reconciler
mod Sweeps
mod Expirations
