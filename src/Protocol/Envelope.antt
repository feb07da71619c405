-- ===== src/Protocol/Envelope.antt =====
-- agent-mesh-protocol/src/envelope.rs: the signed envelope of the wire.
pub mod Examples
use agent_mesh.Common.{
  ℕ, zero, suc, ◌/◌, ◌%◌, ◌^◌, String, ◌≡◌, refl, Bool, true, false, not, ◌&&◌, Option, none, some,
  List, [], ◌∷◌, ◌++◌, arith, ◌==◌, ==_iff, ==_refl, nat_eq, if◌then◌else◌, Result, ok, err, ◌>>=◌,
  ◌>>◌, fail_if, Result-cases, inl, inr,
}
use agent_mesh.Common.Bytes.{be_bytes}
use agent_mesh.Protocol.Certs.{
  CertChain, agent_pubkey, Keys, MeshError, bad_signature, payload_cid_mismatch, invalid_key,
  AgentKey, Fingerprint, SigningKey, Signature, verify_inner, agent_fingerprint, user_fingerprint,
}
use agent_mesh.Protocol.Certs
use agent_mesh.Protocol.Certs.Delegated.{Honest, Holds}

abbrev pub Payload : Type 0
Payload = List ℕ

pub data Recipient : Type 0 where
  direct : Fingerprint → Recipient
  topic anycast : String → Recipient

pub record SignedEnvelope : Type 0 where
  pub cert_chain : CertChain
  pub recipient : Recipient
  pub nonce : ℕ
  pub sequence : ℕ
  pub payload_cid : ℕ
  pub payload : Payload
  pub agent_sig : Signature

-- The JSON of a recipient (serde_json), the hash of a payload (blake3), and the bytes of a nonce and
-- of a hash.
pub record Codec : Type 0 where
  pub recipient_json : Recipient → List ℕ
  pub hash : Payload → ℕ
  pub nonce_bytes : ℕ → List ℕ
  pub hash_bytes : ℕ → List ℕ

-- The bytes of "agent-mesh-envelope-v1".
abbrev pub envelope_tag : List ℕ
envelope_tag =
    97 ∷ 103 ∷ 101 ∷ 110 ∷ 116 ∷ 45 ∷ 109 ∷ 101 ∷ 115 ∷ 104 ∷ 45 ∷ 101 ∷ 110 ∷ 118 ∷ 101 ∷ 108 ∷ 111
    ∷ 112 ∷ 101 ∷ 45 ∷ 118 ∷ 49 ∷ []

module _ (k : Keys) (codec : Codec) where
  abbrev pub signing_message : Recipient → ℕ → ℕ → ℕ → List ℕ
  signing_message to nonce sequence cid =
      envelope_tag
      ++ (codec.recipient_json to
          ++ (codec.nonce_bytes nonce ++ (be_bytes 8 sequence ++ codec.hash_bytes cid)))

  -- The nonce is drawn at random: it is an argument.
  unfoldable pub new_with_signer :
      SigningKey → CertChain → Recipient → ℕ → ℕ → Payload → SignedEnvelope
  new_with_signer signer chain to nonce sequence payload = record {
    cert_chain = chain;
    recipient = to;
    nonce = nonce;
    sequence = sequence;
    payload_cid = codec.hash payload;
    payload = payload;
    agent_sig = k.sign signer (signing_message to nonce sequence (codec.hash payload));
  }

  abbrev pub new : AgentKey → Recipient → ℕ → ℕ → Payload → SignedEnvelope
  new sender to nonce sequence payload =
      new_with_signer sender.signing sender.chain to nonce sequence payload

  abbrev pub message_of : SignedEnvelope → List ℕ
  message_of env = signing_message env.recipient env.nonce env.sequence env.payload_cid

  unfoldable pub verify : SignedEnvelope → Result MeshError (Unit {0})
  verify env = do
    Certs.verify k env.cert_chain
    fail_if (not (codec.hash env.payload == env.payload_cid)) payload_cid_mismatch
    fail_if (not (k.decodes (agent_pubkey env.cert_chain))) invalid_key
    fail_if (not (k.verify (agent_pubkey env.cert_chain) (message_of env) env.agent_sig))
        bad_signature

  abbrev pub sender_agent_fp : SignedEnvelope → Fingerprint
  sender_agent_fp env = agent_fingerprint k env.cert_chain

  abbrev pub sender_user_fp : SignedEnvelope → Fingerprint
  sender_user_fp env = user_fingerprint k env.cert_chain

  -- What an accepted envelope carries.
  pub record Authentic (env : SignedEnvelope) : Type 0 where
    pub chain : verify_inner k env.cert_chain none ≡ ok tt
    pub content : codec.hash env.payload ≡ env.payload_cid
    pub signed : k.verify (agent_pubkey env.cert_chain) (message_of env) env.agent_sig ≡ true

  -- `verify` accepts only an envelope whose chain verifies, whose payload has the id that the
  -- envelope states, and whose chain's key signed the recipient, nonce, sequence and that id.
  pub verify-Authentic : (env : SignedEnvelope) → verify env ≡ ok tt → Authentic env
  unfolding verify
  verify-Authentic env h = elim (Result-cases (verify_inner k env.cert_chain none)) [
    | inr (e, bad) ↦ absurd (ground arith)
    | inl (tt, good) ↦ record {
      chain = good;
      content = ground (arith, ==_iff (codec.hash env.payload) env.payload_cid);
      signed = ground arith;
    }
  ]

  -- An envelope that a key with a verified certificate signs is accepted by `verify`, where
  -- signatures verify, whatever its recipient, nonce, sequence and payload; and with another payload
  -- put in its place it is refused, unless the two payloads have one hash.
  pub new-verify :
      (key : AgentKey) (to : Recipient) (nonce sequence : ℕ) (payload other : Payload)
      → Honest k
      → Holds k key none
      → let env = new key to nonce sequence payload in
        (verify env ≡ ok tt)
        × (verify (record env { payload = other })
            ≡ (if codec.hash other == codec.hash payload then ok tt else err payload_cid_mismatch))
  unfolding new_with_signer verify
  new-verify key to nonce sequence payload other hon held =
      let message = signing_message to nonce sequence (codec.hash payload) in
      let signed = hon.verifies key.signing message in
      let decodes = hon.decoded key.signing in
      (
        ground (arith, held.trusted, held.own, signed, decodes, ==_refl (codec.hash payload)),
        ground (arith, held.trusted, held.own, signed, decodes),
      )
