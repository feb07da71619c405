-- ===== src/Flock.antt =====
-- The crate agent-mesh-flock: events, the board that folds from the admitted log, and admission.
pub mod Kind
pub mod Event
pub mod Board
pub mod Roster
pub mod Admission
pub mod Log
pub mod Attempt
pub mod Examples
