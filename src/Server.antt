-- ===== src/Server.antt =====
-- The crate agent-mesh-flock-server: the sessions of a flock, the chain of admission records, and the
-- state that the log rebuilds.
pub mod Errors
pub mod Chain
pub mod Sessions
pub mod State
pub mod Frame
pub mod Log
pub mod Refusal
pub mod Transact
pub mod Admit
pub mod Follow
pub mod Journal
pub mod Entry
mod Examples
