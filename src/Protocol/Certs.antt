-- ===== src/Protocol/Certs.antt =====
-- agent-mesh-protocol/src/agent_key.rs: certificate chains, their check, and delegation. `Links` says
-- what a verified chain is, `Delegated` what a delegation leaves. Keys, fingerprints, signatures and
-- nonces are the numbers that their bytes spell.
pub mod Links
pub mod Delegated
pub mod Examples
use agent_mesh.Common.{
  ℕ, String, Bool, true, false, not, Option, none, some, List, [], ◌∷◌, ◌++◌, ◌==◌, nat_eq,
  contains, if◌then◌else◌, Result, ok, err, ◌>>=◌, ◌>>◌, fail_if,
}
use agent_mesh.Protocol.Caveats
use agent_mesh.Protocol.Caveats.{Caveats}
use agent_mesh.Protocol.Caveats.Scope
use agent_mesh.Protocol.Caveats.Scope.{Scope}

abbrev pub Fingerprint : Type 0
Fingerprint = ℕ

abbrev pub Pubkey : Type 0
Pubkey = ℕ

abbrev pub SigningKey : Type 0
SigningKey = ℕ

abbrev pub UserPublic : Type 0
UserPublic = ℕ

abbrev pub Signature : Type 0
Signature = ℕ

pub record AgentMetadata : Type 0 where
  pub role : String
  pub host : String
  pub capabilities : List String
  pub issued_at : String
  pub expires_at : Option String
  pub caveats : Caveats

mutual
  pub data CertChain : Type 0 where
    cert : Pubkey → AgentMetadata → Issuer → Signature → CertChain

  pub data Issuer : Type 0 where
    user : UserPublic → Issuer
    agent : Pubkey → CertChain → Issuer

abbrev pub agent_pubkey : CertChain → Pubkey
agent_pubkey (cert pubkey metadata issuer sig) = pubkey

abbrev pub metadata : CertChain → AgentMetadata
metadata (cert pubkey meta issuer sig) = meta

abbrev pub issuer : CertChain → Issuer
issuer (cert pubkey meta by sig) = by

abbrev pub issuer_sig : CertChain → Signature
issuer_sig (cert pubkey meta by sig) = sig

pub data MeshError : Type 0 where
  bad_signature invalid_cert_chain caveat_amplification payload_cid_mismatch invalid_key
        wrong_user :
      MeshError
  generation_refused : Option ℕ → MeshError
  revoked : Fingerprint → MeshError

-- The crates behind the keys: fingerprints (blake3), which bytes are a public key, and
-- signatures (ed25519-dalek; bytes that are no key verify nothing), the bytes of a key, and the JSON of
-- metadata (serde_json).
pub record Keys : Type 0 where
  pub fingerprint : Pubkey → Fingerprint
  pub decodes : Pubkey → Bool
  pub verify : Pubkey → List ℕ → Signature → Bool
  pub verify_strict : Pubkey → List ℕ → Signature → Bool
  pub verifying_key : SigningKey → Pubkey
  pub sign : SigningKey → List ℕ → Signature
  pub key_bytes : Pubkey → List ℕ
  pub metadata_json : AgentMetadata → List ℕ

unfoldable pub check_generation : Scope ℕ → Option ℕ → Result MeshError (Unit {0})
check_generation Scope.all current = ok tt
check_generation (Scope.only gens) none = err (generation_refused none)
check_generation (Scope.only gens) (some g) =
    if contains gens g then ok tt else err (generation_refused (some g))

-- `POP_DOMAIN`: the bytes of "agent-mesh/possession-challenge/v1".
abbrev pub pop_domain : List ℕ
pop_domain =
    97 ∷ 103 ∷ 101 ∷ 110 ∷ 116 ∷ 45 ∷ 109 ∷ 101 ∷ 115 ∷ 104 ∷ 47 ∷ 112 ∷ 111 ∷ 115 ∷ 115 ∷ 101 ∷ 115
    ∷ 115 ∷ 105 ∷ 111 ∷ 110 ∷ 45 ∷ 99 ∷ 104 ∷ 97 ∷ 108 ∷ 108 ∷ 101 ∷ 110 ∷ 103 ∷ 101 ∷ 47 ∷ 118 ∷ 49
    ∷ []

pub record PossessionChallenge : Type 0 where
  pub issuer_pubkey : Pubkey
  pub subject_pubkey : Pubkey
  pub nonce : ℕ

-- The certificate, and the secret half of its key.
pub record AgentKey : Type 0 where
  pub signing : SigningKey
  pub chain : CertChain

module _ (k : Keys) where
  abbrev pub sign_payload : Pubkey → AgentMetadata → List ℕ
  sign_payload pubkey meta = k.key_bytes pubkey ++ k.metadata_json meta

  abbrev pub verify_detached : Pubkey → List ℕ → Signature → Result MeshError (Unit {0})
  verify_detached pubkey message sig =
      fail_if (not (k.verify_strict pubkey message sig)) bad_signature

  unfoldable pub verify_inner : CertChain → Option ℕ → Result MeshError (Unit {0})
  verify_inner (cert pubkey meta (user u) sig) current = do
    check_generation meta.caveats.valid_for_generation current
    fail_if (not (k.verify u (sign_payload pubkey meta) sig)) bad_signature
  verify_inner (cert pubkey meta (agent by parent) sig) current = do
    check_generation meta.caveats.valid_for_generation current
    fail_if (not (by == agent_pubkey parent)) invalid_cert_chain
    verify_inner parent current
    verify_detached by (sign_payload pubkey meta) sig
    fail_if (not (Caveats.leq meta.caveats (metadata parent).caveats)) caveat_amplification

  abbrev pub verify : CertChain → Result MeshError (Unit {0})
  verify c = verify_inner c none

  abbrev pub verify_at : CertChain → ℕ → Result MeshError (Unit {0})
  verify_at c generation = verify_inner c (some generation)

  abbrev pub agent_fingerprint : CertChain → Fingerprint
  agent_fingerprint c = k.fingerprint (agent_pubkey c)

  unfoldable pub root_user_pubkey : CertChain → UserPublic
  root_user_pubkey (cert pubkey meta (user u) sig) = u
  root_user_pubkey (cert pubkey meta (agent by parent) sig) = root_user_pubkey parent

  unfoldable pub user_fingerprint : CertChain → Fingerprint
  user_fingerprint (cert pubkey meta (user u) sig) = k.fingerprint u
  user_fingerprint (cert pubkey meta (agent by parent) sig) = user_fingerprint parent

  -- `AgentKey::issue_with`, under the user whose signing key is given.
  unfoldable pub issue_with : SigningKey → SigningKey → AgentMetadata → AgentKey
  issue_with user_key signing meta = record {
    signing = signing;
    chain =
        cert (k.verifying_key signing) meta (user (k.verifying_key user_key))
          (k.sign user_key (sign_payload (k.verifying_key signing) meta));
  }

  unfoldable pub certify_pubkey : AgentKey → Pubkey → AgentMetadata → Result MeshError CertChain
  certify_pubkey key pubkey meta = do
    fail_if (not (Caveats.leq meta.caveats (metadata key.chain).caveats)) caveat_amplification
    ok (
        cert pubkey meta (agent (agent_pubkey key.chain) key.chain)
          (k.sign key.signing (sign_payload pubkey meta)))

  -- The new key pair is drawn at random: it is an argument.
  unfoldable pub delegate : AgentKey → SigningKey → AgentMetadata → Result MeshError AgentKey
  delegate key fresh meta = do
    chain ← certify_pubkey key (k.verifying_key fresh) meta
    ok (record { signing = fresh; chain = chain })

  -- The nonce is drawn at random: it is an argument.
  abbrev pub possession_challenge : AgentKey → Pubkey → ℕ → PossessionChallenge
  possession_challenge key subject nonce = record {
    issuer_pubkey = agent_pubkey key.chain;
    subject_pubkey = subject;
    nonce = nonce;
  }

  abbrev pub signing_bytes : PossessionChallenge → List ℕ
  signing_bytes c =
      pop_domain
      ++ (k.key_bytes c.issuer_pubkey ++ (k.key_bytes c.subject_pubkey ++ k.key_bytes c.nonce))

  unfoldable pub delegate_external :
      AgentKey → PossessionChallenge → Signature → AgentMetadata → Result MeshError CertChain
  delegate_external key challenge proof meta = do
    fail_if (not (challenge.issuer_pubkey == agent_pubkey key.chain)) invalid_cert_chain
    verify_detached challenge.subject_pubkey (signing_bytes challenge) proof
    certify_pubkey key challenge.subject_pubkey meta

  unfoldable pub from_seed_and_cert : SigningKey → CertChain → Result MeshError AgentKey
  from_seed_and_cert seed chain = do
    fail_if (not (k.verifying_key seed == agent_pubkey chain)) bad_signature
    ok (record { signing = seed; chain = chain })
