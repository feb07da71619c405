-- ===== src/Bus/Replay.antt =====
-- agent-mesh-bus/src/replay.rs: the two checks that every incoming envelope passes. `Nonces` is the
-- nonce cache and `Tracker` the sequence tracker. A mutex around each makes a call one step on the
-- state.
pub mod Nonces
pub mod Tracker
mod Examples
