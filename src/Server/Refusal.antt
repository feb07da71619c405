-- ===== src/Server/Refusal.antt =====
-- agent-mesh-flock-server/src/refusal.rs: the chain of refusals.
use agent_mesh.Common.{
  ℕ, ◌≡◌, not, ◌||◌, some, [], ◌∷◌, ◌==◌, ==_refl, arith, ltb, ◌≤◌, nat_eq, set_eq, set_eq_refl,
  Result, ok, err, ◌>>=◌, ◌>>◌, fail_if, ok_or, Option-cases, inl, inr,
}
use agent_mesh.Protocol.Certs.{AgentKey, Pubkey, MeshError, agent_pubkey}
use agent_mesh.Protocol.Certs.Delegated.{Honest, Holds}
use agent_mesh.Protocol.Assertion
use agent_mesh.Protocol.Assertion.{Assertion, root_agent, sign-verify}
use agent_mesh.Flock.Event.{ContentId, MerkleNode}
use agent_mesh.Server.Errors.{
  Crates, RefusalRecord, ServerError, encoding_failed, signer, refusal_key, refusal_parent,
  refusal_count, certificate,
}

pub record RefusalEntry : Type 0 where
  pub node : MerkleNode RefusalRecord
  pub sig : Assertion

abbrev mesh : Result MeshError (Unit {0}) → Result ServerError (Unit {0})
mesh (ok t) = ok tt
mesh (err e) = err (signer (certificate e))

module _ (x : Crates) where
  unfoldable pub sign : AgentKey → ContentId → RefusalRecord → Result ServerError RefusalEntry
  sign server prev rec = do
    let node : MerkleNode RefusalRecord = record { payload = rec; parents = prev ∷ [] }
    id ← ok_or (x.refusal_id node) encoding_failed
    ok (record { node = node; sig = Assertion.sign x.keys x.to_bytes server id })

  unfoldable pub verify :
      RefusalEntry → ContentId → Pubkey → ℕ → ℕ → ℕ → Result ServerError ContentId
  verify entry prev server_pub epoch last_admitted total_admitted = do
    id ← ok_or (x.refusal_id entry.node) encoding_failed
    fail_if (not (agent_pubkey entry.sig.author == server_pub)) (signer refusal_key)
    mesh (Assertion.verify x.keys x.to_bytes entry.sig id server_pub epoch)
    fail_if (not (set_eq entry.node.parents (prev ∷ []))) (signer refusal_parent)
    let at = entry.node.payload.admitted
    fail_if (ltb at last_admitted || ltb total_admitted at) (signer refusal_count)
    ok id

  -- A refusal that the server signs is the next of its chain: where signatures verify and the
  -- server's own certificate verifies at the epoch and is its own root, an entry signed after `prev`
  -- verifies after `prev`, with its own id, if its count is not below the last and not beyond the
  -- total.
  pub sign-verify_refusal :
      (key : AgentKey) (prev : ContentId) (rec : RefusalRecord) (entry : RefusalEntry)
      (epoch last_admitted total_admitted : ℕ)
      → Honest x.keys
      → Holds x.keys key (some epoch)
      → root_agent key.chain ≡ agent_pubkey key.chain
      → last_admitted ≤ rec.admitted
      → rec.admitted ≤ total_admitted
      → sign key prev rec ≡ ok entry
      → (id : ContentId) × (x.refusal_id entry.node ≡ some id)
        × (verify entry prev (agent_pubkey key.chain) epoch last_admitted total_admitted ≡ ok id)
  unfolding sign verify Assertion.sign
  sign-verify_refusal key prev rec entry epoch last_admitted total_admitted hon held own low high
        h =
      elim (Option-cases (x.refusal_id (record { payload = rec; parents = prev ∷ [] }))) [
        | inl bad ↦ absurd (ground arith)
        | inr (id, named) ↦
            let signed = sign-verify x.keys x.to_bytes key id epoch hon held in
            let parents = set_eq_refl (prev ∷ []) in
            (
              id,
              ground arith,
              ground (arith, signed, own, parents, ==_refl (agent_pubkey key.chain), low, high),
            )
      ]
