-- ===== src/Bus.antt =====
-- The crate agent-mesh-bus: replay defence and dispatch on the receiving side, sequence numbers on the
-- sending side.
pub mod Replay
pub mod Sequence
pub mod Reply
pub mod Inbox
