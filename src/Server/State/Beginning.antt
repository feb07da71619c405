-- ===== src/Server/State/Beginning.antt =====
-- state.rs: the state at genesis.
use agent_mesh.Common.{ℕ, ◌≡◌, refl, subst, some, arith, ok, Result-cases, Option-cases, inl, inr}
use agent_mesh.Protocol.Certs.{
  AgentKey, CertChain, cert, user, agent, agent_pubkey, issuer, UserPublic,
}
use agent_mesh.Protocol.Certs.Delegated.{Holds}
use agent_mesh.Protocol.Assertion.{root_agent}
use agent_mesh.Flock.Event.{Genesis, MerkleNode}
use agent_mesh.Flock.Log
use agent_mesh.Server.Errors.{Crates}
use agent_mesh.Server.Chain
use agent_mesh.Server.Sessions
use agent_mesh.Server.Sessions.Filed.{default-IsFiled}
use agent_mesh.Server.State.{State}
use agent_mesh.Server.State.Replay.{IsHosted}
use agent_mesh.Server.State.Rebuild.{genesis_state, genesis_user}

root_agent-user :
    (c : CertChain) (u : UserPublic)
    → genesis_user (issuer c) ≡ ok u
    → root_agent c ≡ agent_pubkey c
unfolding root_agent
root_agent-user (cert k meta (user v) sig) u h = refl
root_agent-user (cert k meta (agent by parent) sig) u h = absurd (ground arith)

-- The state at genesis is hosted by the key whose certificate the genesis names, if that certificate
-- verifies in every generation.
pub genesis_state-IsHosted :
    (x : Crates) (genesis : MerkleNode Genesis) (key : AgentKey) (st : State)
    → key.chain ≡ genesis.payload.server_cert
    → ((generation : ℕ) → Holds x.keys key (some generation))
    → genesis_state x genesis ≡ ok st
    → IsHosted x st key
unfolding genesis_state Chain.new
genesis_state-IsHosted x genesis key st own holds h =
    elim (Option-cases (Log.new x.externs genesis)) [
      | inl bad ↦ absurd (ground arith)
      | inr (board, made) ↦
          elim (Result-cases (genesis_user (issuer genesis.payload.server_cert))) [
            | inr (e, bad) ↦ absurd (ground arith)
            | inl (u, who) ↦
                let is : record {
                  board = board;
                  chain = Chain.new board.flock genesis.payload.server_cert u;
                  sessions = Sessions.default;
                }
                    ≡ st =
                  ground arith in
                subst (λ s. IsHosted x s key) is
                  (record {
                    own = own;
                    rooted = root_agent-user genesis.payload.server_cert u who;
                    holds = holds;
                    filed = default-IsFiled x;
                  })
          ]
    ]
