-- ===== src/Server/Chain.antt =====
-- agent-mesh-flock-server/src/chain.rs: what the log establishes so far, and the check of one record
-- against it.
use agent_mesh.Common.{
  ℕ, ◌+◌, Bool, not, [], ◌∷◌, ◌==◌, nat_eq, set_eq, if◌then◌else◌, Result, ok, err, ◌>>=◌, ◌>>◌,
  fail_if, ok_or,
}
use agent_mesh.Protocol.Certs.{CertChain, Pubkey, UserPublic, Signature, agent_pubkey, MeshError}
use agent_mesh.Protocol.Assertion
use agent_mesh.Protocol.Assertion.{Assertion}
use agent_mesh.Flock.Kind.{Kind, rank}
use agent_mesh.Flock.Event.{ContentId, Event, MerkleNode}
use agent_mesh.Server.Errors.{
  AdmissionRecord, Crates, ServerError, encoding_failed, signer, record_signature, record_parent,
  record_index, record_event, record_epoch,
}

pub record Sealed : Type 0 where
  pub event : MerkleNode Event
  pub event_sig : Signature
  pub record_node : MerkleNode AdmissionRecord
  pub record_sig : Signature

pub record Chain : Type 0 where
  pub prev : ContentId
  pub next_index : ℕ
  pub epoch : ℕ
  pub server_pub : Pubkey
  pub server_cert : CertChain
  pub user : UserPublic

-- `Chain::new`.
unfoldable pub new : ContentId → CertChain → UserPublic → Chain
new genesis server_cert user = record {
  prev = genesis;
  next_index = 1;
  epoch = 0;
  server_pub = agent_pubkey server_cert;
  server_cert = server_cert;
  user = user;
}

abbrev pub is_epoch : Kind → Bool
is_epoch kind = rank kind == rank Kind.epoch

unfoldable pub epoch_for : Chain → Kind → ℕ
epoch_for chain kind = if is_epoch kind then chain.epoch + 1 else chain.epoch

unfoldable pub advance : Chain → ContentId → AdmissionRecord → Chain
advance chain record_id rec = record chain {
  prev = record_id;
  next_index = chain.next_index + 1;
  epoch = rec.epoch;
}

abbrev signed_record : Result MeshError (Unit {0}) → Result ServerError (Unit {0})
signed_record (ok t) = ok tt
signed_record (err e) = err (signer record_signature)

-- The ids of the event and of the record.
unfoldable pub verify_record : Crates → Chain → Sealed → Result ServerError (ContentId × ContentId)
verify_record x chain s = do
  record_id ← ok_or (x.record_id s.record_node) encoding_failed
  signed_record (
      Assertion.verify x.keys x.to_bytes (record { author = chain.server_cert; sig = s.record_sig })
        record_id chain.server_pub s.record_node.payload.epoch)
  fail_if (not (set_eq s.record_node.parents (chain.prev ∷ []))) (signer record_parent)
  fail_if (not (s.record_node.payload.index == chain.next_index)) (signer record_index)
  event_id ← ok_or (x.externs.content_id s.event) encoding_failed
  fail_if (not (s.record_node.payload.event == event_id)) (signer record_event)
  fail_if (not (s.record_node.payload.epoch == epoch_for chain s.event.payload.kind))
      (signer record_epoch)
  ok (event_id, record_id)
