-- ===== src/Bus/Inbox.antt =====
-- agent-mesh-bus/src/inbox.rs: the admission of an envelope, and its dispatch.
pub mod Once
pub mod Interleaved
mod Tasks
mod Examples
use agent_mesh.Common.{
  ℕ, String, ◌≡◌, refl, Bool, true, false, not, ◌&&◌, Option, none, some, List, [], ◌∷◌, arith,
  ◌==◌, nat_eq, string_eq, contains, insert, if◌then◌else◌, Result, ok, err, ◌>>=◌, ◌>>◌, fail_if,
}
use agent_mesh.Common.Maps
use agent_mesh.Common.Maps.{Map}
use agent_mesh.Protocol.Certs.{Keys, MeshError}
use agent_mesh.Protocol.Envelope
use agent_mesh.Protocol.Envelope.{SignedEnvelope, Recipient, direct, topic, anycast, Payload, Codec}
use agent_mesh.Bus.Replay.Nonces
use agent_mesh.Bus.Replay.Nonces.{NonceCache, check_and_insert}
use agent_mesh.Bus.Replay.Tracker.{Fingerprint, SequenceTracker, check_and_advance}
use agent_mesh.Bus.Reply
use agent_mesh.Bus.Reply.{CorrelationId, ReplyWaiter, ReplyPeerCheck, check_peer, deliver, mismatch}

pub data BusMessage : Type 0 where
  request : String → CorrelationId → Payload → BusMessage
  reply : CorrelationId → Payload → BusMessage
  publish : String → Payload → BusMessage

pub record RequestContext : Type 0 where
  pub caller_user_fp : Fingerprint
  pub caller_agent_fp : Fingerprint

pub record AuthenticatedPeer : Type 0 where
  pub agent_fp : Fingerprint
  pub user_fp : Fingerprint

pub data DeliveryProvenance : Type 0 where
  direct_from : AuthenticatedPeer → DeliveryProvenance
  unbound : DeliveryProvenance

-- `BusError`, with fingerprints in place of their hex text. `json` stands for the errors of
-- serde_json.
pub data BusError : Type 0 where
  mesh : MeshError → BusError
  json : String → BusError
  unbound_delivery replay : BusError
  carrier_agent_mismatch carrier_user_mismatch foreign_peer wrong_recipient :
      Fingerprint → Fingerprint → BusError
  bad_sequence : Fingerprint → ℕ → ℕ → BusError

pub record OutgoingReply : Type 0 where
  pub peer_fp : Fingerprint
  pub correlation : CorrelationId
  pub body : Payload

abbrev pub RequestHandler : Type 0
RequestHandler = RequestContext → Payload → Result BusError Payload

-- The topics that some channel was made for, and the handlers by topic.
pub record Inbox : Type 0 where
  pub nonce_cache : NonceCache
  pub sequence : SequenceTracker
  pub waiters : ReplyWaiter
  pub subscriptions : List String
  pub handlers : Map String RequestHandler

-- The crates behind an envelope, the JSON of a message (serde_json), and whether the receiver of a
-- token's oneshot channel (tokio) is still held.
pub record Crates : Type 0 where
  pub keys : Keys
  pub codec : Codec
  pub from_slice : Payload → Result String BusMessage
  pub live : ℕ → Bool

abbrev pub verify_envelope : Crates → SignedEnvelope → Result MeshError (Unit {0})
verify_envelope x env = Envelope.verify x.keys x.codec env

abbrev pub sender_agent_fp : Crates → SignedEnvelope → Fingerprint
sender_agent_fp x env = Envelope.sender_agent_fp x.keys x.codec env

abbrev pub sender_user_fp : Crates → SignedEnvelope → Fingerprint
sender_user_fp x env = Envelope.sender_user_fp x.keys x.codec env

-- `Inbox::new`.
pub new : Inbox
new = record {
  nonce_cache = Nonces.new 4096;
  sequence = [];
  waiters = Reply.new;
  subscriptions = [];
  handlers = [];
}

-- The topics below are in wire form. A topic's channel is made once.
pub subscribe : Inbox → String → Inbox
subscribe box key = record box { subscriptions = insert key box.subscriptions }

-- A new handler replaces the topic's previous one. `register_handler` is this with a handler that
-- drops its context.
unfoldable pub register_handler_with_context : Inbox → String → RequestHandler → Inbox
register_handler_with_context box key handler = record box {
  handlers = Maps.insert box.handlers key handler;
}

-- What the inbox hands to the application.
pub data Effect : Type 0 where
  handled : String → RequestContext → Payload → Effect
  replied : ℕ → Payload → Effect
  published : String → Payload → Effect

abbrev verified : Result MeshError (Unit {0}) → Result BusError (Unit {0})
verified (ok t) = ok tt
verified (err e) = err (mesh e)

abbrev carrier_of : DeliveryProvenance → Result BusError AuthenticatedPeer
carrier_of (direct_from carrier) = ok carrier
carrier_of unbound = err unbound_delivery

abbrev check_recipient : Recipient → Fingerprint → Result BusError (Unit {0})
check_recipient (direct agent_fp) local =
    fail_if (not (agent_fp == local)) (wrong_recipient agent_fp local)
check_recipient _ local = ok tt

unfoldable pub admit :
    Crates
    → SignedEnvelope
    → DeliveryProvenance
    → Fingerprint
    → Fingerprint
    → Result BusError RequestContext
admit x env provenance local_user_fp local_agent_fp = do
  verified (verify_envelope x env)
  carrier ← carrier_of provenance
  fail_if (not (carrier.agent_fp == (sender_agent_fp x env)))
      (carrier_agent_mismatch carrier.agent_fp (sender_agent_fp x env))
  fail_if (not (carrier.user_fp == (sender_user_fp x env)))
      (carrier_user_mismatch carrier.user_fp (sender_user_fp x env))
  fail_if (not ((sender_user_fp x env) == local_user_fp))
      (foreign_peer (sender_user_fp x env) local_user_fp)
  check_recipient env.recipient local_agent_fp
  ok (record { caller_user_fp = (sender_user_fp x env); caller_agent_fp = (sender_agent_fp x env) })

-- The inbox after a call, its result, and what was handed out.
abbrev pub Outcome : Type 0
Outcome = Inbox × Result BusError (Option OutgoingReply) × Option Effect

abbrev handler_reply :
    RequestContext
    → CorrelationId
    → Result BusError Payload
    → Result BusError (Option OutgoingReply)
handler_reply ctx id (err e) = err e
handler_reply ctx id (ok body) =
    ok (some (record { peer_fp = ctx.caller_agent_fp; correlation = id; body = body }))

abbrev call_handler :
    Inbox → RequestContext → String → CorrelationId → Payload → Option RequestHandler → Outcome
call_handler box ctx wire id body none = (box, ok none, none)
call_handler box ctx wire id body (some handler) =
    (box, handler_reply ctx id (handler ctx body), some (handled wire ctx body))

unfoldable pub dispatch_request :
    Inbox → RequestContext → String → CorrelationId → Payload → Outcome
dispatch_request box ctx wire id body =
    call_handler box ctx wire id body (Maps.get box.handlers wire)

abbrev replied_to : Payload → Option ℕ → Option Effect
replied_to body none = none
replied_to body (some token) = some (replied token body)

-- The last `match`: what an admitted message means.
unfoldable pub dispatch : Crates → Inbox → RequestContext → Result String BusMessage → Outcome
unfolding dispatch_request
dispatch x box ctx (err e) = (box, err (json e), none)
dispatch x box ctx (ok (request wire id body)) = dispatch_request box ctx wire id body
dispatch x box ctx (ok (reply id body)) =
    let (waiters, delivery, token) = deliver x.live box.waiters id ctx.caller_agent_fp in
    (record box { waiters = waiters }, ok none, replied_to body token)
dispatch x box ctx (ok (publish wire body)) =
    (box, ok none, if contains box.subscriptions wire then some (published wire body) else none)

abbrev is_mismatch : ReplyPeerCheck → Bool
is_mismatch (mismatch e a) = true
is_mismatch _ = false

-- A reply to a known waiter, from another peer than the one asked.
unfoldable pub foreign_reply : Inbox → Fingerprint → Result String BusMessage → Bool
foreign_reply box peer (ok (reply id body)) = is_mismatch (check_peer box.waiters id peer)
foreign_reply box peer _ = false

abbrev pub advanced :
    Crates
    → Inbox
    → RequestContext
    → Result String BusMessage
    → SequenceTracker × Result (ℕ × ℕ) (Unit {0})
    → Outcome
advanced x box ctx message (tracker, err (wanted, actual)) =
    (record box { sequence = tracker }, err (bad_sequence ctx.caller_agent_fp wanted actual), none)
advanced x box ctx message (tracker, ok t) =
    dispatch x (record box { sequence = tracker }) ctx message

-- From the nonce check on.
unfoldable pub replay_checked :
    Crates → Inbox → RequestContext → SignedEnvelope → Result String BusMessage → Outcome
replay_checked x box ctx env message =
    let (nonces, fresh) = check_and_insert box.nonce_cache env.nonce in
    if not fresh
    then (record box { nonce_cache = nonces }, err replay, none)
    else advanced x (record box { nonce_cache = nonces }) ctx message
        (check_and_advance box.sequence ctx.caller_agent_fp env.sequence)

abbrev pub accepted :
    Crates
    → Inbox
    → SignedEnvelope
    → Result String BusMessage
    → Result BusError RequestContext
    → Outcome
accepted x box env message (err e) = (box, err e, none)
accepted x box env message (ok ctx) =
    if foreign_reply box ctx.caller_agent_fp message
    then (box, ok none, none)
    else replay_checked x box ctx env message

unfoldable pub on_envelope :
    Crates → Inbox → SignedEnvelope → DeliveryProvenance → Fingerprint → Fingerprint → Outcome
on_envelope x box env provenance local_user_fp local_agent_fp =
    accepted x box env (x.from_slice env.payload)
      (admit x env provenance local_user_fp local_agent_fp)
