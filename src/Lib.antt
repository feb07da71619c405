-- ===== src/Lib.antt =====
-- Verification of agent-mesh: the flock's event log, admission and server, the authority lattice,
-- certificates, grants and revocations, and the bus's envelopes, sequence numbers and replay defence.
--
-- The parts, and how they interact. Every event of a flock is a Merkle node. The flock's server
-- admits an event by preparing it against its state (who signed it, `admit` of the board, `check` of
-- the session table, `first_link`), sealing it into an admission record that it signs, appending the
-- frame to its log, and committing the change; when it opens the log again, and when a follower reads
-- its frames, each entry is replayed against the records before it. A board folds the log:
-- `Board::apply` asks `admit` for a verdict on each node and its signer, and records what is admitted.
-- Keys are certified by chains whose caveats only shrink, and authority is delegated by grants of the
-- same kind; a user withdraws it by a log of revocations, of which a reader keeps the last state it
-- saw. On the bus a sender signs and numbers its envelopes (`Sequencer`), and a receiver verifies
-- them, refuses repeated nonces and sequences that do not increase (`NonceCache`, `SequenceTracker`),
-- and takes replies from the peer asked only (`Inbox`, `ReplyWaiter`).
--
-- Files and the code that they are about:
--   Common        shared names: tests, lists, bytes, sets (BTreeSet), maps (BTreeMap, HashMap), results
--   Protocol      agent-mesh-protocol
--     Caveats     src/caveats.rs: Scope, CountBound and Caveats with leq and meet; Laws has the
--                 order's laws, Semantics what caveats permit
--     Authority   src/authority.rs: Binding is ResolvedGrant::bind, Edge is check_derivation, Chain
--                 is verify_chain, Fence is relate and admit
--     Certs       src/agent_key.rs: CertChain and AgentKey; Links is about verification, Delegated
--                 about issuing and delegation
--     Assertion   src/assertion.rs: signatures over content ids
--     Envelope    src/envelope.rs: SignedEnvelope
--     Revocation  src/revocation.rs: the signed log; Steps and Runs follow its loop, Append and Growth a
--                 log that grows, Contents its state, Rollback the check of a reader, Guarded
--                 verify_with
--   Bus           agent-mesh-bus
--     Replay      src/replay.rs: Nonces is NonceCache, Tracker is SequenceTracker
--     Sequence    src/sequence.rs: Sequencer::next over a durable store; Restart adds crashes
--     Reply       src/reply.rs: ReplyWaiter
--     Inbox       src/inbox.rs: admit and on_envelope; Once is about one call, Tasks and Interleaved
--                 about the calls of the tasks that src/bus.rs spawns
--   Flock         agent-mesh-flock
--     Kind, Event src/event.rs and src/signer.rs: the schema
--     Board       src/board.rs: the state and its getters; the types of a decision
--     Roster      src/admission.rs: check_devices, check_roots and what they lock
--     Admission   src/admission.rs: decide, with Signers (signer_member, writer_chain), Refs
--                 (check_refs) and Table (apply_table)
--     Log         src/board.rs: apply and fold
--     Attempt     src/board.rs: attempt, the view of a brief
--   Server        agent-mesh-flock-server
--     Errors      src/error.rs, and why an event or a record is refused
--     Chain       src/chain.rs: what the log establishes, and the check of one record
--     Sessions    src/sessions.rs: Resolve is resolve, Approver is approver_ok, Check is check, Observe is
--                 observe; Approved is what a passed check ensures, Single and
--                 Filed are invariants of the table
--     State       src/state.rs and seal of src/frame.rs: prepare, commit and replay; Rebuild is the
--                 replay of frames and logs, Replay and Committed compare the two, Beginning is the
--                 state at genesis
--     Frame       src/frame.rs: encode and next
--     Log         src/log.rs: the file as a list of bytes; Parsing, Total and Recovery are about parse
--                 and append
--     Refusal     src/refusal.rs: the chain of refusals
--     Transact    src/server.rs: append, record_refusal and transact; Admit is admit; the modules
--                 named Frames, Recovery and Staged are about the log behind them
--     Entry       src/entry.rs: the entry points
--     Follow      src/follow.rs: the follower; Journal is src/journal.rs
--
-- Conventions. A method on `&mut self` takes the state and returns the new one; a call under a mutex
-- is one step; `on_envelope`, which takes several in turn, is a step for each in Bus/Inbox/Tasks. A
-- `Result` is the type of Common/Results.antt and `?` is its bind; where a call fails half way through its changes, as `observe` may, the half-changed state is not returned. Ids of crate
-- content_addressable, keys, signatures, nonces and fingerprints are the numbers that their bytes
-- spell: the program compares them and no more. Sets are lists read by membership; maps are
-- association lists in iteration order. Content ids, encodings, hashes, signatures, the hex text of a
-- fingerprint and the check of an attestation are other crates' work, and so parameters (Externs,
-- Ids, Crypto, Keys, Codec, Wire, Crates, Host, AttestationVerifier); what the theorems need of them,
-- that signatures of a key verify, that ids do not collide and that decoding undoes encoding, is a
-- named hypothesis. What is drawn at random is an argument. `u64` values are natural numbers; where
-- the code can overflow, the wrap-around, the saturation or the checked addition is written out.
-- One loop needs fuel, that of `parse`: one more than the bytes of the file is enough, as each frame
-- takes eight bytes at least. Every other loop follows a list or a chain.
--
-- Not modelled: canonical encodings and cryptography, which are other crates', sockets, threads, files
-- and processes, the transports, the terminal interface, the command line and the Python bindings.
pub mod Common
pub mod Protocol
pub mod Bus
pub mod Flock
pub mod Server
