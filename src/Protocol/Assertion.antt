-- ===== src/Protocol/Assertion.antt =====
-- agent-mesh-protocol/src/assertion.rs: a signature over a content id, with the certificate chain of
-- its author.
use agent_mesh.Common.{
  ℕ, ◌≡◌, Bool, false, not, some, List, [], ◌∷◌, ◌++◌, arith, ◌==◌, ==_refl, nat_eq, Result, ok,
  ◌>>◌, fail_if,
}
use agent_mesh.Protocol.Certs.{
  CertChain, Issuer, cert, user, agent, agent_pubkey, issuer, Keys, MeshError, bad_signature,
  invalid_cert_chain, AgentKey, Pubkey, UserPublic, Signature, verify_at,
}
use agent_mesh.Protocol.Certs.Delegated.{Honest, Holds}

abbrev pub ContentId : Type 0
ContentId = ℕ

pub record Assertion : Type 0 where
  pub author : CertChain
  pub sig : Signature

-- The bytes of "agent-mesh/provenance/assertion/v1" and a zero byte.
abbrev pub assertion_domain : List ℕ
assertion_domain =
    97 ∷ 103 ∷ 101 ∷ 110 ∷ 116 ∷ 45 ∷ 109 ∷ 101 ∷ 115 ∷ 104 ∷ 47 ∷ 112 ∷ 114 ∷ 111 ∷ 118 ∷ 101 ∷ 110
    ∷ 97 ∷ 110 ∷ 99 ∷ 101 ∷ 47 ∷ 97 ∷ 115 ∷ 115 ∷ 101 ∷ 114 ∷ 116 ∷ 105 ∷ 111 ∷ 110 ∷ 47 ∷ 118 ∷ 49
    ∷ 0 ∷ []

unfoldable pub root_agent : CertChain → Pubkey
root_agent (cert pubkey meta (user u) sig) = pubkey
root_agent (cert pubkey meta (agent by parent) sig) = root_agent parent

-- The author is certified directly by this user.
abbrev pub is_direct : Issuer → UserPublic → Bool
is_direct (user u) want = u == want
is_direct (agent by parent) want = false

-- The keys, and the bytes of an id.
module _ (k : Keys) (to_bytes : ContentId → List ℕ) where
  abbrev pub assertion_message : ContentId → List ℕ
  assertion_message cid = assertion_domain ++ to_bytes cid

  unfoldable pub sign : AgentKey → ContentId → Assertion
  sign author cid = record {
    author = author.chain;
    sig = k.sign author.signing (assertion_message cid);
  }

  abbrev check_sig : Assertion → ContentId → Result MeshError (Unit {0})
  check_sig a cid =
      fail_if (not (k.verify_strict (agent_pubkey a.author) (assertion_message cid) a.sig))
        bad_signature

  unfoldable pub verify : Assertion → ContentId → Pubkey → ℕ → Result MeshError (Unit {0})
  verify a cid trust_root generation = do
    verify_at k a.author generation
    fail_if (not (root_agent a.author == trust_root)) invalid_cert_chain
    check_sig a cid

  unfoldable pub verify_user : Assertion → ContentId → UserPublic → ℕ → Result MeshError (Unit {0})
  verify_user a cid want generation = do
    verify_at k a.author generation
    fail_if (not (is_direct (issuer a.author) want)) invalid_cert_chain
    check_sig a cid

  -- An assertion of a key whose certificate verifies is accepted at the chain's own root.
  pub sign-verify :
      (key : AgentKey) (cid : ContentId) (generation : ℕ)
      → Honest k
      → Holds k key (some generation)
      → verify (sign key cid) cid (root_agent key.chain) generation ≡ ok tt
  unfolding sign verify
  sign-verify key cid generation hon held =
      let signed = hon.strictly key.signing (assertion_message cid) in
      ground (arith, held.trusted, held.own, signed, ==_refl (root_agent key.chain))
