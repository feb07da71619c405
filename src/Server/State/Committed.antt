-- ===== src/Server/State/Committed.antt =====
-- state.rs: a sequence of preparations, each committed before the next, and the frame of their entries.
use agent_mesh.Common.{◌≡◌, refl, false, List, [], ◌∷◌, arith, ok, Option-cases, inl, inr}
use agent_mesh.Protocol.Certs.{AgentKey}
use agent_mesh.Protocol.Assertion.{Assertion}
use agent_mesh.Flock.Event
use agent_mesh.Flock.Event.{Event, MerkleNode}
use agent_mesh.Server.Errors.{Crates}
use agent_mesh.Server.Chain.{Sealed}
use agent_mesh.Server.State.{State, Spec, Prepared, prepare, commit}
use agent_mesh.Server.State.Replay.{IsFaithful, IsHosted, prepare-replay, apply-IsHosted}
use agent_mesh.Server.State.Rebuild.{replay_frame, drops_unbumped, own_event, server_event}

module _ (x : Crates) (key : AgentKey) where
  -- From one state to another by admissions that write these entries, where a roster that drops a
  -- member comes with its epoch bump.
  pub data Commits : State → List Sealed → State → Type 0 where
    nothing : {st : State} → Commits st [] st
    then :
        {st next last : State} {rest : List Sealed} (node : MerkleNode Event) (sig : Assertion)
        (p : Prepared)
        → prepare x st key node sig ≡ ok p
        → commit x st p ≡ ok next
        → drops_unbumped st next p.sealed rest ≡ false
        → Commits next rest last
        → Commits st (p.sealed ∷ rest) last

pub commit-IsHosted :
    (x : Crates) (st next : State) (key : AgentKey) (p : Prepared)
    → IsHosted x st key
    → commit x st p ≡ ok next
    → IsHosted x next key
unfolding commit
commit-IsHosted x st next key p host h =
    apply-IsHosted x st next key p.sealed.event p.signer p.id p.record_id
      p.sealed.record_node.payload host h

pub Commits-replay_frame :
    (x : Crates) (key : AgentKey) {st last : State} {sealed : List Sealed}
    → IsFaithful x
    → IsHosted x st key
    → Commits x key st sealed last
    → (replay_frame x st sealed ≡ ok last) × IsHosted x last key
unfolding replay_frame
Commits-replay_frame x key good host (Commits.nothing) = (refl, host)
Commits-replay_frame x key {st} good host
      (Commits.then {next = next} {rest = rest} node sig p prepared committed guarded more) =
    let again = prepare-replay x st key node sig p good host prepared in
    let (rest_done, hosted) =
      Commits-replay_frame x key good (commit-IsHosted x st next key p host committed) more in
    (ground (arith, again, committed, guarded, rest_done), hosted)

-- The server's own event is of the kind that was asked for.
pub server_event-kind :
    (x : Crates) (st : State) (key : AgentKey) (spec : Spec) (node : MerkleNode Event)
    (sig : Assertion)
    → server_event x st key spec ≡ ok (node, sig)
    → node.payload.kind ≡ spec.kind
unfolding server_event
server_event-kind x st key spec node sig h =
    elim (Option-cases (x.externs.content_id (Event.node (own_event x st key spec)))) [
      | inl bad ↦ absurd (ground arith)
      | inr (id, named) ↦ ground arith
    ]
