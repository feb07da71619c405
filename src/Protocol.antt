-- ===== src/Protocol.antt =====
-- The crate agent-mesh-protocol: the authority lattice, the grants over it, and the revocation log.
pub mod Caveats
pub mod Authority
pub mod Certs
pub mod Assertion
pub mod Envelope
pub mod Revocation
