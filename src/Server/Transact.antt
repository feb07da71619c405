-- ===== src/Server/Transact.antt =====
-- agent-mesh-flock-server/src/server.rs: the open server, its appends and transactions. The writes of
-- the system succeed unless a planned crash stops them.
pub mod Recovery
pub mod Staged
use agent_mesh.Common.{
  ℕ, ◌+◌, ◌-◌, String, Bool, true, false, not, Option, none, some, List, [], ◌∷◌, ◌++◌, length, leb,
  if◌then◌else◌, Result, ok, err, ◌>>=◌, ◌>>◌, fail_if, ok_or, nat_eq,
}
use agent_mesh.Common.Maps.{Map}
use agent_mesh.Protocol.Certs.{AgentKey, PossessionChallenge}
use agent_mesh.Protocol.Assertion.{Assertion}
use agent_mesh.Flock.Kind.{Kind}
use agent_mesh.Flock.Event.{ContentId, Event, Body, Genesis, MerkleNode}
use agent_mesh.Flock.Board
use agent_mesh.Flock.Board.{Board, Entry, Refusal, ConflictKind}
use agent_mesh.Server.Errors.{
  Crates, ServerError, RefusalRecord, encoding_failed, session, refused, poisoned, io,
  epoch_bump_missing, too_large_for_watcher,
}
use agent_mesh.Server.Sessions.{InviteInfo}
use agent_mesh.Server.Chain.{Sealed}
use agent_mesh.Server.Refusal
use agent_mesh.Server.Refusal.{RefusalEntry}
use agent_mesh.Server.Frame.{Wire}
use agent_mesh.Server.Log
use agent_mesh.Server.Log.{Log, LogError}
use agent_mesh.Server.State.{State, Spec, Prepared, needs_bump, drops_member, prepare, commit}
use agent_mesh.Server.State.Rebuild.{is_roster, eligible, server_event}

-- What a challenge was issued for (entry.rs).
pub data Purpose : Type 0 where
  enroll : InviteInfo → Purpose
  renew : String → ℕ → Purpose

pub record Held : Type 0 where
  pub challenge : PossessionChallenge
  pub purpose : Purpose

pub record Server : Type 0 where
  pub key : AgentKey
  pub genesis : MerkleNode Genesis
  pub st : State
  pub log : Log
  pub refusal_log : Log
  pub refusals : List RefusalEntry
  pub refusal_prev : ContentId
  pub challenges : Map ℕ Held
  pub poisoned : Bool
  pub journal : List (List Sealed × List String)

-- What the server takes from other crates: ids and keys, the encodings of frames and refusals, and the
-- encoding of the message that carries a frame.
pub record Host : Type 0 where
  pub crates : Crates
  pub frames : Wire (List Sealed)
  pub entries : Wire RefusalEntry
  pub resp_frame : List Sealed → Option (List ℕ)

abbrev pub max_message : ℕ
max_message = 1048576

abbrev pub log_error : LogError → ServerError
log_error (LogError.encoding e) = encoding_failed
log_error (LogError.corrupt at why) = io
log_error LogError.io = io

abbrev pub admitted : Server → ℕ
admitted srv = srv.st.chain.next_index - 1

-- What is left once a frame is appended: the state moves on, and the frame goes to the watchers.
abbrev pub published {ℓ} :
    {A : Type ℓ}
    → State
    → List Sealed
    → A
    → Server × Result ServerError (Unit {0})
    → Server × Result ServerError A
published next sealed done (srv, err e) = (srv, err e)
published next sealed done (srv, ok t) =
    (record srv { st = next; journal = srv.journal ++ ((sealed, eligible next) ∷ []) }, ok done)

module _ (h : Host) where
  -- `frame_fits` of wire.rs.
  unfoldable pub frame_fits : List Sealed → Result ServerError Bool
  frame_fits sealed = do
    bytes ← ok_or (h.resp_frame sealed) encoding_failed
    ok (leb (length bytes) max_message)

  abbrev appended :
      Server → Log × Result LogError (Unit {0}) → Server × Result ServerError (Unit {0})
  appended srv (log, ok t) = (record srv { log = log }, ok tt)
  appended srv (log, err e) = (record srv { log = log; poisoned = true }, err (log_error e))

  -- `Server::append`.
  unfoldable pub append : Server → List Sealed → Server × Result ServerError (Unit {0})
  append srv sealed = appended srv (Log.append h.frames srv.log sealed)

  abbrev recorded :
      Server
      → RefusalEntry
      → Log × Result LogError (Unit {0})
      → Server × Result ServerError (Unit {0})
  recorded srv entry (log, err e) =
      (record srv { refusal_log = log; poisoned = true }, err (log_error e))
  recorded srv entry (log, ok t) = elim (h.crates.refusal_id entry.node) [
    | none ↦ (record srv { refusal_log = log }, err encoding_failed)
    | some id ↦ (
      record srv { refusal_log = log; refusal_prev = id; refusals = srv.refusals ++ (entry ∷ []) },
      ok tt,
    )
  ]

  unfoldable pub record_refusal :
      Server → ContentId → MerkleNode Event → Refusal → Server × Result ServerError (Unit {0})
  record_refusal srv cid node why =
      let rec : RefusalRecord = record {
        event = cid;
        author = node.payload.author;
        reason = why;
        admitted = admitted srv;
      } in
      elim (Refusal.sign h.crates srv.key srv.refusal_prev rec) [
        | err e ↦ (srv, err e)
        | ok entry ↦ recorded srv entry (Log.append h.entries srv.refusal_log entry)
      ]

  -- The loop of `transact`: each event is checked against the state that the one before left.
  unfoldable pub staged :
      AgentKey → State → List Spec → Result ServerError (State × List Sealed × List ContentId)
  staged key st [] = ok (st, [], [])
  staged key st (spec ∷ specs) = do
    own ← server_event h.crates st key spec
    p ← prepare h.crates st key own.0 own.1
    next ← commit h.crates st p
    rest ← staged key next specs
    ok (rest.0, p.sealed ∷ rest.1, p.id ∷ rest.2)

  abbrev transacted :
      Server
      → State × List Sealed × List ContentId
      → Result ServerError Bool
      → Server × Result ServerError (List ContentId)
  transacted srv done (err e) = (srv, err e)
  transacted srv done (ok false) = (srv, err (session too_large_for_watcher))
  transacted srv done (ok true) = published done.0 done.1 done.2 (append srv done.1)

  abbrev transact_staged :
      Server
      → Result ServerError (State × List Sealed × List ContentId)
      → Server × Result ServerError (List ContentId)
  transact_staged srv (err e) = (srv, err e)
  transact_staged srv (ok done) = transacted srv done (frame_fits done.1)

  unfoldable pub transact : Server → List Spec → Server × Result ServerError (List ContentId)
  transact srv specs =
      if srv.poisoned
      then (srv, err poisoned)
      else transact_staged srv (staged srv.key srv.st specs)
