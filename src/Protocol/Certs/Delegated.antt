-- ===== src/Protocol/Certs/Delegated.antt =====
-- agent_key.rs: the certificates that a user and an agent issue.
use agent_mesh.Common.{
  Bool-cases, ℕ, ◌≡◌, refl, Bool, true, Option, List, arith, ==_iff, ==_refl, nat_eq, ok,
  Result-cases, inl, inr, ◌>>◌, ◌∙◌,
}
use agent_mesh.Protocol.Caveats
use agent_mesh.Protocol.Certs.{
  CertChain, cert, agent, agent_pubkey, metadata, Keys, AgentMetadata, AgentKey,
  PossessionChallenge, Pubkey, SigningKey, Signature, check_generation, sign_payload, signing_bytes,
  verify_inner, verify_detached, issue_with, certify_pubkey, delegate, delegate_external,
  root_user_pubkey,
}

-- What ed25519-dalek promises: a signature verifies under the signer's own public key, which decodes.
pub record Honest (k : Keys) : Type 0 where
  pub decoded : (s : SigningKey) → k.decodes (k.verifying_key s) ≡ true
  pub verifies : (s : SigningKey) (m : List ℕ) → k.verify (k.verifying_key s) m (k.sign s m) ≡ true
  pub strictly :
      (s : SigningKey) (m : List ℕ) → k.verify_strict (k.verifying_key s) m (k.sign s m) ≡ true

-- A key that holds the secret half of its certificate, which verifies.
pub record Holds (k : Keys) (key : AgentKey) (current : Option ℕ) : Type 0 where
  pub own : k.verifying_key key.signing ≡ agent_pubkey key.chain
  pub trusted : verify_inner k key.chain current ≡ ok tt

-- What a certificate of `certify_pubkey` is.
pub certify_pubkey-verify_inner :
    (k : Keys) (key : AgentKey) (current : Option ℕ) (pubkey : Pubkey) (meta : AgentMetadata)
    (c : CertChain)
    → Honest k
    → Holds k key current
    → check_generation meta.caveats.valid_for_generation current ≡ ok tt
    → certify_pubkey k key pubkey meta ≡ ok c
    → (verify_inner k c current ≡ ok tt)
      × (agent_pubkey c ≡ pubkey)
      × (metadata c ≡ meta)
      × (Caveats.leq meta.caveats (metadata key.chain).caveats ≡ true)
      × (root_user_pubkey k c ≡ root_user_pubkey k key.chain)
unfolding certify_pubkey verify_inner root_user_pubkey
certify_pubkey-verify_inner k key current pubkey meta c hon held gen h = elim (Bool-cases below) [
  | inr wide ↦ absurd (ground arith)
  | inl narrow ↦
      let signed = hon.strictly key.signing (sign_payload k pubkey meta) in
      let is : c
          ≡ cert pubkey meta (agent (agent_pubkey key.chain) key.chain)
              (k.sign key.signing (sign_payload k pubkey meta)) =
        ground arith in
      rw is (
        ground
            (arith, gen, held.trusted, held.own, signed, narrow, ==_refl (agent_pubkey key.chain)),
        refl,
        refl,
        narrow,
        refl,
      )
]
  where
    below : Bool
    below = Caveats.leq meta.caveats (metadata key.chain).caveats

-- A key that the user issues verifies under every generation that its caveats allow.
pub issue_with-Holds :
    (k : Keys) (user_key signing : SigningKey) (meta : AgentMetadata) (current : Option ℕ)
    → Honest k
    → check_generation meta.caveats.valid_for_generation current ≡ ok tt
    → Holds k (issue_with k user_key signing meta) current
unfolding issue_with verify_inner
issue_with-Holds k user_key signing meta current hon gen = record {
  own = refl;
  trusted =
      let payload = sign_payload k (k.verifying_key signing) meta in
      ground (arith, gen, hon.verifies user_key payload);
}

-- A key that an agent with a verified certificate delegates holds a certificate that verifies.
pub delegate-Holds :
    (k : Keys) (key : AgentKey) (fresh : SigningKey) (meta : AgentMetadata) (current : Option ℕ)
    (sub : AgentKey)
    → Honest k
    → Holds k key current
    → check_generation meta.caveats.valid_for_generation current ≡ ok tt
    → delegate k key fresh meta ≡ ok sub
    → Holds k sub current
unfolding delegate
delegate-Holds k key fresh meta current sub hon held gen h =
    elim (Result-cases (certify_pubkey k key (k.verifying_key fresh) meta)) [
      | inr (e, bad) ↦ absurd (ground arith)
      | inl (c, minted) ↦
          let (good, pub_half, _, _, _) =
            certify_pubkey-verify_inner k key current (k.verifying_key fresh) meta c hon held gen
              minted in
          let is : sub ≡ record { signing = fresh; chain = c } = ground arith in
          rw is (record { own = ground (arith, pub_half); trusted = good })
    ]

-- What `delegate_external` certifies. Verifying the certificate is the check of its own generation
-- scope, then the verification of the issuer's certificate, then the check of the issuer's signature.
pub record Certified (k : Keys) (key : AgentKey) (challenge : PossessionChallenge)
    (proof : Signature) (meta : AgentMetadata) (current : Option ℕ) (c : CertChain) : Type 0 where
  pub ours : challenge.issuer_pubkey ≡ agent_pubkey key.chain
  pub proven : k.verify_strict challenge.subject_pubkey (signing_bytes k challenge) proof ≡ true
  pub subject : agent_pubkey c ≡ challenge.subject_pubkey
  pub stated : metadata c ≡ meta
  pub narrower : Caveats.leq meta.caveats (metadata key.chain).caveats ≡ true
  pub same_root : root_user_pubkey k c ≡ root_user_pubkey k key.chain
  pub verification : verify_inner k c current ≡ (do
    check_generation meta.caveats.valid_for_generation current
    verify_inner k key.chain current
    verify_detached k
        (agent_pubkey key.chain)
        (sign_payload k challenge.subject_pubkey meta)
        (k.sign key.signing (sign_payload k challenge.subject_pubkey meta)))

-- Verifying a certificate that a key signs with narrower caveats.
verify_inner-signed :
    (k : Keys) (key : AgentKey) (pubkey : Pubkey) (meta : AgentMetadata) (current : Option ℕ)
    (sig : Signature)
    → Caveats.leq meta.caveats (metadata key.chain).caveats ≡ true
    → verify_inner k (cert pubkey meta (agent (agent_pubkey key.chain) key.chain) sig) current ≡ (do
      check_generation meta.caveats.valid_for_generation current
      verify_inner k key.chain current
      verify_detached k (agent_pubkey key.chain) (sign_payload k pubkey meta) sig)
unfolding verify_inner
verify_inner-signed k key pubkey meta current sig narrow =
    ground (arith, narrow, ==_refl (agent_pubkey key.chain))

-- If `delegate_external` gives a certificate, then, whatever the keys, the challenge is this agent's
-- own, the proof verifies strictly under the key challenged, and the certificate is of that key and
-- the metadata given, whose caveats are below the agent's, and roots at the agent's user; and at any
-- generation its verification is the check of its own generation scope, then the verification of the
-- agent's certificate, then the strict check of the signature that the agent made, errors included.
pub delegate_external-Certified :
    (k : Keys) (key : AgentKey) (challenge : PossessionChallenge) (proof : Signature)
    (meta : AgentMetadata) (current : Option ℕ) (c : CertChain)
    → delegate_external k key challenge proof meta ≡ ok c
    → Certified k key challenge proof meta current c
unfolding delegate_external certify_pubkey root_user_pubkey
delegate_external-Certified k key challenge proof meta current c h =
    let payload = sign_payload k challenge.subject_pubkey meta in
    let narrow : Caveats.leq meta.caveats (metadata key.chain).caveats ≡ true = ground arith in
    let is : c
        ≡ cert challenge.subject_pubkey meta (agent (agent_pubkey key.chain) key.chain)
            (k.sign key.signing payload) =
      ground arith in
    rw is (record {
      ours = ground (arith, ==_iff challenge.issuer_pubkey (agent_pubkey key.chain));
      proven = ground arith;
      subject = refl;
      stated = refl;
      narrower = narrow;
      same_root = refl;
      verification =
          verify_inner-signed k key challenge.subject_pubkey meta current
            (k.sign key.signing payload) narrow;
    })

-- Where signatures verify, a certificate that `delegate_external` gives verifies at a generation that
-- its own scope and the certificate of the agent, whose secret key the agent holds, allow.
pub delegate_external-verify_inner :
    (k : Keys) (key : AgentKey) (challenge : PossessionChallenge) (proof : Signature)
    (meta : AgentMetadata) (current : Option ℕ) (c : CertChain)
    → Honest k
    → Holds k key current
    → check_generation meta.caveats.valid_for_generation current ≡ ok tt
    → delegate_external k key challenge proof meta ≡ ok c
    → verify_inner k c current ≡ ok tt
delegate_external-verify_inner k key challenge proof meta current c hon held gen h =
    let certified = delegate_external-Certified k key challenge proof meta current c h in
    let signed = hon.strictly key.signing (sign_payload k challenge.subject_pubkey meta) in
    certified.verification ∙ ground (arith, gen, held.trusted, held.own, signed)
