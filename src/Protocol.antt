-- ===== src/Protocol.antt =====
-- pkg/protocol: the wire types that the runner and the control plane share.
pub mod Events
