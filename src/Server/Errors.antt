-- ===== src/Server/Errors.antt =====
-- agent-mesh-flock-server: why a session event, a signer or a record is refused (each constructor is
-- one of the messages of sessions.rs, state.rs, chain.rs and entry.rs), and what the server takes from
-- other crates.
use agent_mesh.Common.{ℕ, String, Option, List, Result, ok, err}
use agent_mesh.Protocol.Certs.{CertChain, Keys, MeshError}
use agent_mesh.Flock.Event.{ContentId, MerkleNode, HandoffApproval}
use agent_mesh.Flock.Board.{Externs, Refusal}

pub data Why : Type 0 where
  encoding device_not_registered not_a_session session_ended cert_not_issued : Why
  cert_for_another_key cert_not_by_server cert_not_bounded wrong_references : Why
  not_on_roster verifier_known unknown_invite invite_consumed invite_for_another already_enrolled :
      Why
  no_live_session epoch_mismatch renewal_epoch already_certified not_a_device server_is_device
        device_known :
      Why
  approval_for_another_flock handoff_differs no_context approval_consumed unknown_session
        not_the_members not_the_holder not_pending wrong_resume :
      Why
  not_a_listed_device not_for_a_device delegate_needs_device not_an_authority not_a_shepherd : Why
  must_follow_handoff no_handoff_to_follow : Why
  record_signature record_parent record_index record_event record_epoch : Why
  already_admitted unheld_certificate epoch_bump_missing drop_without_bump genesis_not_by_user
        empty_frame :
      Why
  refusal_key refusal_parent refusal_count too_large_for_watcher : Why
  no_challenge enroll_challenge renew_challenge epoch_moved session_gone not_recorded : Why
  certificate : MeshError → Why

pub data ServerError : Type 0 where
  encoding_failed : ServerError
  signer session message : Why → ServerError
  refused : Refusal → ServerError
  corrupt : ℕ → ServerError → ServerError
  poisoned io : ServerError

-- What a damaged log reports, from the offset of the frame and why.
abbrev pub as_corrupt {ℓ} : {A : Type ℓ} → ℕ → Result ServerError A → Result ServerError A
as_corrupt offset (ok a) = ok a
as_corrupt offset (err e) = err (corrupt offset e)

-- A bare message.
abbrev pub as_message {ℓ} : {A : Type ℓ} → Result Why A → Result ServerError A
as_message (ok a) = ok a
as_message (err e) = err (message e)

-- `map_err(ServerError::Signer)` and `map_err(ServerError::Session)`.
abbrev pub as_signer {ℓ} : {A : Type ℓ} → Result Why A → Result ServerError A
as_signer (ok a) = ok a
as_signer (err e) = err (signer e)

abbrev pub as_session {ℓ} : {A : Type ℓ} → Result Why A → Result ServerError A
as_session (ok a) = ok a
as_session (err e) = err (session e)

-- The record of an admission.
pub record AdmissionRecord : Type 0 where
  pub index : ℕ
  pub epoch : ℕ
  pub event : ContentId
  pub cert : ContentId

-- The record of a refusal. The variants of `Reason` are those of `Refusal`.
pub record RefusalRecord : Type 0 where
  pub event : ContentId
  pub author : String
  pub reason : Refusal
  pub admitted : ℕ

-- What other crates compute: content ids, of a certificate's canonical encoding too, which fail where
-- the encoding does; the bytes of an id; and the keys.
pub record Crates : Type 0 where
  pub externs : Externs
  pub keys : Keys
  pub to_bytes : ContentId → List ℕ
  pub approval_id : MerkleNode HandoffApproval → Option ContentId
  pub record_id : MerkleNode AdmissionRecord → Option ContentId
  pub refusal_id : MerkleNode RefusalRecord → Option ContentId
  pub cert_id : CertChain → Option ContentId
