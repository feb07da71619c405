-- ===== src/Protocol/Certs/Examples.antt =====
-- A user, an agent that it issues, and a phone's key that the agent certifies.
use agent_mesh.Common.{◌≡◌, refl, true, contains, none, some, [], ◌∷◌, ◌==◌, ==_refl, ok}
use agent_mesh.Protocol.Caveats
use agent_mesh.Protocol.Caveats.{Caveats}
use agent_mesh.Protocol.Caveats.Scope
use agent_mesh.Protocol.Caveats.CountBound
use agent_mesh.Protocol.Certs.{
  CertChain, cert, user, agent, Keys, AgentMetadata, AgentKey, PossessionChallenge, issue_with,
  certify_pubkey, delegate_external, verify_inner, check_generation,
}
use agent_mesh.Protocol.Certs.Links.{AllVouched, links, verify_inner-AllVouched}
use agent_mesh.Protocol.Certs.Delegated.{
  Honest, Holds, Certified, issue_with-Holds, delegate_external-Certified,
  delegate_external-verify_inner,
}

-- A key signs with its own number.
abbrev pub keys : Keys
keys = record {
  fingerprint = λ k. k;
  decodes = λ k. true;
  verify = λ k m s. k == s;
  verify_strict = λ k m s. k == s;
  verifying_key = λ s. s;
  sign = λ s m. s;
  key_bytes = λ k. k ∷ [];
  metadata_json = λ m. [];
}

pub keys-Honest : Honest keys
keys-Honest = record {
  decoded = λ s. refl;
  verifies = λ s m. ==_refl s;
  strictly = λ s m. ==_refl s;
}

-- Valid for generation 3 only.
abbrev pub bounded : AgentMetadata
bounded = record {
  role = "phone";
  host = "";
  capabilities = [];
  issued_at = "";
  expires_at = none;
  caveats = record Caveats.top { valid_for_generation = Scope.only (3 ∷ []) };
}

abbrev pub unbounded : AgentMetadata
unbounded = record bounded { caveats = Caveats.top }

-- User 1 issues agent 7, which certifies the phone's key 8.
abbrev pub worker : AgentKey
worker = issue_with keys 1 7 unbounded

pub worker-Holds : Holds keys worker (some 3)
unfolding check_generation
worker-Holds = issue_with-Holds keys 1 7 unbounded (some 3) keys-Honest refl

abbrev pub challenge : PossessionChallenge
challenge = record { issuer_pubkey = 7; subject_pubkey = 8; nonce = 5 }

abbrev pub phone : CertChain
phone = cert 8 bounded (agent 7 (cert 7 unbounded (user 1) 1)) 7

phone_minted : delegate_external keys worker challenge 8 bounded ≡ ok phone
unfolding delegate_external certify_pubkey issue_with Caveats.leq Scope.leq CountBound.leq
phone_minted = refl

delegate_external-Certified_example : Certified keys worker challenge 8 bounded (some 3) phone
delegate_external-Certified_example =
    delegate_external-Certified keys worker challenge 8 bounded (some 3) phone phone_minted

phone_verifies : verify_inner keys phone (some 3) ≡ ok tt
unfolding check_generation contains
phone_verifies =
    delegate_external-verify_inner keys worker challenge 8 bounded (some 3) phone keys-Honest
      worker-Holds refl phone_minted

verify_inner-AllVouched_example : AllVouched keys (some 3) phone (links phone)
verify_inner-AllVouched_example = verify_inner-AllVouched keys phone (some 3) phone_verifies
