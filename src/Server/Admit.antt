-- ===== src/Server/Admit.antt =====
-- agent-mesh-flock-server/src/server.rs: `admit`, one admission.
mod Frames
pub mod Recovery
use agent_mesh.Common.{
  ℕ, ◌+◌, ◌-◌, String, Bool, true, false, not, Option, none, some, List, [], ◌∷◌, ◌++◌, length, leb,
  if◌then◌else◌, Result, ok, err, ◌>>=◌, ◌>>◌, fail_if, ok_or, nat_eq,
}
use agent_mesh.Common.Maps.{Map}
use agent_mesh.Protocol.Certs.{AgentKey, PossessionChallenge}
use agent_mesh.Protocol.Assertion.{Assertion}
use agent_mesh.Flock.Kind.{Kind}
use agent_mesh.Flock.Event.{ContentId, Event, Body, Genesis, MerkleNode}
use agent_mesh.Flock.Board
use agent_mesh.Flock.Board.{Board, Entry, Refusal, ConflictKind}
use agent_mesh.Server.Errors.{
  Crates, ServerError, RefusalRecord, encoding_failed, session, refused, poisoned, io,
  epoch_bump_missing, too_large_for_watcher,
}
use agent_mesh.Server.Sessions.{InviteInfo}
use agent_mesh.Server.Chain.{Sealed}
use agent_mesh.Server.Refusal
use agent_mesh.Server.Refusal.{RefusalEntry}
use agent_mesh.Server.Frame.{Wire}
use agent_mesh.Server.Log
use agent_mesh.Server.Log.{Log, LogError}
use agent_mesh.Server.Transact.{Server, Host, Held, frame_fits, append, record_refusal, published}
use agent_mesh.Server.State.{State, Spec, Prepared, needs_bump, drops_member, prepare, commit}
use agent_mesh.Server.State.Rebuild.{is_roster, eligible, server_event}

pub record Receipt : Type 0 where
  pub index : ℕ
  pub duplicate : Bool
  pub conflict : Option ConflictKind

abbrev pub receipt_of : Prepared → Receipt
receipt_of p = record {
  index = p.sealed.record_node.payload.index;
  duplicate = false;
  conflict = p.conflict;
}

abbrev pub known : Entry → Receipt
known done = record { index = done.index; duplicate = true; conflict = none }

abbrev pub then_refused {ℓ} :
    {A : Type ℓ} → Refusal → Server × Result ServerError (Unit {0}) → Server × Result ServerError A
then_refused why (srv, ok t) = (srv, err (refused why))
then_refused why (srv, err e) = (srv, err e)

abbrev pub epoch_spec : ℕ → Spec
epoch_spec epoch = record { kind = Kind.epoch; refs = []; body = Body.epoch epoch }

module _ (h : Host) where
  -- The refusal is recorded, and is the result.
  abbrev pub refuse_with :
      Server → ContentId → MerkleNode Event → Refusal → Server × Result ServerError Receipt
  refuse_with srv cid node why = then_refused why (record_refusal h srv cid node why)

  abbrev pub one_committed :
      Prepared → Server × Result ServerError (Unit {0}) → Server × Result ServerError Receipt
  one_committed p (srv, err e) = (srv, err e)
  one_committed p (srv, ok t) = elim (commit h.crates srv.st p) [
    | err e ↦ (srv, err e)
    | ok next ↦ published next (p.sealed ∷ []) (receipt_of p) (srv, ok tt)
  ]

  -- One event in a frame of its own.
  abbrev pub one_frame : Server → Prepared → Server × Result ServerError Receipt
  one_frame srv p = one_committed p (append h srv (p.sealed ∷ []))

  -- The epoch bump after `next`, prepared and committed.
  abbrev pub bump : State → AgentKey → Result ServerError (Prepared × State)
  bump next key = do
    own ← server_event h.crates next key (epoch_spec (next.chain.epoch + 1))
    p ← prepare h.crates next key own.0 own.1
    last ← commit h.crates next p
    ok (p, last)

  abbrev pub with_bump :
      Server
      → ContentId
      → MerkleNode Event
      → Prepared
      → Prepared × State
      → Result ServerError Bool
      → Server × Result ServerError Receipt
  with_bump srv cid node p b (err e) = (srv, err e)
  with_bump srv cid node p b (ok false) = refuse_with srv cid node Refusal.too_large
  with_bump srv cid node p b (ok true) =
      let sealed = p.sealed ∷ b.0.sealed ∷ [] in
      published b.1 sealed (receipt_of p) (append h srv sealed)

  abbrev pub two_frame :
      Server
      → ContentId
      → MerkleNode Event
      → Prepared
      → Result ServerError (Prepared × State)
      → Server × Result ServerError Receipt
  two_frame srv cid node p (err e) = (srv, err e)
  two_frame srv cid node p (ok b) =
      with_bump srv cid node p b (frame_fits h (p.sealed ∷ b.0.sealed ∷ []))

  -- A roster that drops a member is sealed with its epoch bump.
  abbrev pub roster_frame :
      Server
      → ContentId
      → MerkleNode Event
      → Prepared
      → Result ServerError State
      → Server × Result ServerError Receipt
  roster_frame srv cid node p (err e) = (srv, err e)
  roster_frame srv cid node p (ok next) =
      if drops_member srv.st.board.members next.board.members
      then two_frame srv cid node p (bump next srv.key)
      else one_frame srv p

  abbrev pub fitting :
      Server
      → ContentId
      → MerkleNode Event
      → Prepared
      → Result ServerError Bool
      → Server × Result ServerError Receipt
  fitting srv cid node p (err e) = (srv, err e)
  fitting srv cid node p (ok false) = refuse_with srv cid node Refusal.too_large
  fitting srv cid node p (ok true) =
      if is_roster node.payload.kind
      then roster_frame srv cid node p (commit h.crates srv.st p)
      else one_frame srv p

  abbrev pub prepared :
      Server
      → ContentId
      → MerkleNode Event
      → Result ServerError Prepared
      → Server × Result ServerError Receipt
  prepared srv cid node (ok p) = fitting srv cid node p (frame_fits h (p.sealed ∷ []))
  prepared srv cid node (err e) = elim e [
    | refused why ↦ refuse_with srv cid node why
    | other ↦ (srv, err other)
  ]

  abbrev pub admit_new :
      Server → MerkleNode Event → Assertion → ContentId → Server × Result ServerError Receipt
  admit_new srv node sig cid =
      if needs_bump node.payload.kind
      then (srv, err (session epoch_bump_missing))
      else prepared srv cid node (prepare h.crates srv.st srv.key node sig)

  abbrev pub admit_id :
      Server
      → MerkleNode Event
      → Assertion
      → ContentId
      → Option Entry
      → Server × Result ServerError Receipt
  admit_id srv node sig cid (some done) = (srv, ok (known done))
  admit_id srv node sig cid none = admit_new srv node sig cid

  abbrev pub admit_named :
      Server → MerkleNode Event → Assertion → Option ContentId → Server × Result ServerError Receipt
  admit_named srv node sig none = (srv, err encoding_failed)
  admit_named srv node sig (some cid) = admit_id srv node sig cid (Board.get srv.st.board cid)

  unfoldable pub admit : Server → MerkleNode Event → Assertion → Server × Result ServerError Receipt
  admit srv node sig =
      if srv.poisoned
      then (srv, err poisoned)
      else admit_named srv node sig (h.crates.externs.content_id node)
