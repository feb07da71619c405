-- ===== src/Server/State.antt =====
-- agent-mesh-flock-server/src/state.rs, and `seal` of frame.rs: what a frame changes. `Replay` is
-- about replay against commit, and `Rebuild` is the fold of a log.
pub mod Replay
pub mod Rebuild
pub mod Committed
pub mod Beginning
use agent_mesh.Common.{
  ℕ, String, ◌≡◌, refl, Bool, true, false, not, ◌&&◌, ◌||◌, Option, none, some, List, [], ◌∷◌, ◌==◌,
  nat_eq, str_eq, any, map, filter, if◌then◌else◌, Result, ok, err, ◌>>=◌, ◌>>◌, fail_if, ok_or,
}
use agent_mesh.Common.Maps
use agent_mesh.Common.Maps.{Map}
use agent_mesh.Protocol.Certs.{
  CertChain, Issuer, AgentKey, Signature, UserPublic, user, agent, issuer, agent_fingerprint,
}
use agent_mesh.Protocol.Assertion
use agent_mesh.Protocol.Assertion.{Assertion}
use agent_mesh.Flock.Kind.{Kind, rank}
use agent_mesh.Flock.Event
use agent_mesh.Flock.Event.{ContentId, Event, Body, Genesis, Member, MerkleNode, Signer}
use agent_mesh.Flock.Board.{
  Board, ConflictKind, Verdict, admit, conflict, duplicate, refuse, head_of,
}
use agent_mesh.Flock.Admission.{verdict_on}
use agent_mesh.Flock.Log.{LogEntry}
use agent_mesh.Flock.Log
use agent_mesh.Server.Errors.{
  AdmissionRecord, Crates, ServerError, Why, as_signer, as_session, encoding_failed, signer,
  session, refused, corrupt, already_admitted, unheld_certificate, epoch_bump_missing,
  drop_without_bump, genesis_not_by_user, empty_frame,
}
use agent_mesh.Server.Chain
use agent_mesh.Server.Chain.{Chain, Sealed, is_epoch, epoch_for, advance, verify_record}
use agent_mesh.Server.Sessions
use agent_mesh.Server.Sessions.{Sessions, cert_of, live}
use agent_mesh.Server.Sessions.Resolve.{resolve}
use agent_mesh.Server.Sessions.Check.{check}
use agent_mesh.Server.Sessions.Observe.{observe, first_link}

pub record State : Type 0 where
  pub board : Board
  pub chain : Chain
  pub sessions : Sessions

pub record Spec : Type 0 where
  pub kind : Kind
  pub refs : Map String ContentId
  pub body : Body

pub record Prepared : Type 0 where
  pub sealed : Sealed
  pub signer : Signer
  pub conflict : Option ConflictKind
  pub id : ContentId
  pub record_id : ContentId

-- `cert_cid` of frame.rs.
abbrev pub cert_cid : Crates → CertChain → Result ServerError ContentId
cert_cid x c = ok_or (x.cert_id c) encoding_failed

abbrev pub needs_bump : Kind → Bool
needs_bump kind = rank kind == rank Kind.session_end || rank kind == rank Kind.handoff

-- The event after this one in its frame is an epoch bump.
abbrev pub bump_next : List Sealed → Bool
bump_next [] = false
bump_next (s ∷ rest) = is_epoch s.event.payload.kind

unfoldable pub check_frame_shape : List Sealed → Result Why (Unit {0})
check_frame_shape [] = ok tt
check_frame_shape (s ∷ rest) =
    let others = check_frame_shape rest in
    if needs_bump s.event.payload.kind && not (bump_next rest)
    then err epoch_bump_missing
    else others

abbrev same_name : Member → Member → Bool
same_name b a = str_eq a.name b.name

unfoldable pub drops_member : List Member → List Member → Bool
drops_member before after = any (λ b. not (any (same_name b) after)) before

abbrev pub outcome : Verdict → Result ServerError (Option ConflictKind)
outcome admit = ok none
outcome (conflict c) = ok (some c)
outcome (duplicate index) = err (session already_admitted)
outcome (refuse r) = err (refused r)

module _ (x : Crates) where
  unfoldable pub vet :
      State
      → MerkleNode Event
      → ContentId
      → Assertion
      → ℕ
      → Result ServerError (Signer × Option ConflictKind)
  vet st node id sig epoch = do
    who ← as_signer (resolve x st.sessions sig id st.chain.server_pub st.chain.user epoch)
    found ← outcome (verdict_on x.externs st.board node who)
    as_session (check x st.sessions st.board node.payload epoch st.chain)
    as_session (first_link st.sessions st.board node.payload)
    ok (who, found)

  unfoldable pub cited_cert : State → ContentId → Result ServerError CertChain
  cited_cert st cid = do
    own ← cert_cid x st.chain.server_cert
    (if cid == own
        then ok st.chain.server_cert
        else ok_or (cert_of st.sessions cid) (signer unheld_certificate))

  -- `seal` of frame.rs.
  unfoldable pub seal :
      AgentKey → ContentId → ℕ → ℕ → MerkleNode Event → Assertion → Result ServerError Sealed
  seal server prev index epoch event event_sig = do
    event_id ← ok_or (x.externs.content_id event) encoding_failed
    cid ← cert_cid x event_sig.author
    let record_node : MerkleNode AdmissionRecord = record {
      payload = record { index = index; epoch = epoch; event = event_id; cert = cid };
      parents = prev ∷ [];
    }
    record_id ← ok_or (x.record_id record_node) encoding_failed
    ok (record {
      event = event;
      event_sig = event_sig.sig;
      record_node = record_node;
      record_sig = (Assertion.sign x.keys x.to_bytes server record_id).sig;
    })

  unfoldable pub prepare :
      State → AgentKey → MerkleNode Event → Assertion → Result ServerError Prepared
  prepare st key node sig = do
    id ← ok_or (x.externs.content_id node) encoding_failed
    let epoch = epoch_for st.chain node.payload.kind
    (who, found) ← vet st node id sig epoch
    cid ← cert_cid x sig.author
    author ← cited_cert st cid
    sealed ← seal key st.chain.prev st.chain.next_index epoch node sig
    record_id ← ok_or (x.record_id sealed.record_node) encoding_failed
    ok (record { sealed = sealed; signer = who; conflict = found; id = id; record_id = record_id })

  unfoldable pub apply :
      State
      → MerkleNode Event
      → Signer
      → ContentId
      → ContentId
      → AdmissionRecord
      → Result ServerError State
  apply st node who id record_id rec = do
    sessions ← as_session (observe x st.sessions id node.payload rec.epoch)
    ok (record {
      board = (Log.apply x.externs st.board (record { node = node; signer = who })).0;
      chain = advance st.chain record_id rec;
      sessions = sessions;
    })

  unfoldable pub commit : State → Prepared → Result ServerError State
  commit st p = apply st p.sealed.event p.signer p.id p.record_id p.sealed.record_node.payload

  unfoldable pub replay : State → Sealed → Result ServerError State
  replay st sealed = do
    (id, record_id) ← verify_record x st.chain sealed
    let rec = sealed.record_node.payload
    author ← cited_cert st rec.cert
    (who, found) ←
        vet st sealed.event id (record { author = author; sig = sealed.event_sig }) rec.epoch
    apply st sealed.event who id record_id rec
