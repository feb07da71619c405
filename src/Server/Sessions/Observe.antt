-- ===== src/Server/Sessions/Observe.antt =====
-- sessions.rs: `observe`, what an admitted event changes; and the link of a session's first event.
use agent_mesh.Common.{
  ℕ, String, true, false, not, Option, none, some, [], ◌∷◌, nat_eq, string_eq, opt_eq, contains,
  insert, is_some, if◌then◌else◌, Result, ok, err, ◌>>=◌, fail_if, ok_or,
}
use agent_mesh.Common.Maps
use agent_mesh.Common.Maps.{Map}
use agent_mesh.Protocol.Certs.{CertChain, agent_pubkey}
use agent_mesh.Flock.Event.{ContentId, RawContentId, Event, Body, HandoffApproval, MerkleNode}
use agent_mesh.Flock.Board.{Board, head_of}
use agent_mesh.Server.Errors.{Why, Crates, encoding, must_follow_handoff, no_handoff_to_follow}
use agent_mesh.Server.Sessions.{Sessions, Session, Invite, Status, session_of}
use agent_mesh.Server.Sessions.Resolve.{cert_cid}

-- `if let Some(v) = map.get_mut(k)`.
abbrev pub modify_at {ℓ} : {V : Type ℓ} → (V → V) → Map String V → String → Option V → Map String V
modify_at f m k none = m
modify_at f m k (some v) = Maps.insert m k (f v)

abbrev pub modify {ℓ} : {V : Type ℓ} → Map String V → String → (V → V) → Map String V
modify m k f = modify_at f m k (Maps.get m k)

abbrev observe_invite : Sessions → ContentId → String → RawContentId → Sessions
observe_invite s id member verifier = record s {
  verifiers = Maps.insert s.verifiers verifier id;
  invites = Maps.insert s.invites id (record { member = member; consumed = false });
}

abbrev consume_at : Map ContentId Invite → ContentId → Option Invite → Map ContentId Invite
consume_at m id none = m
consume_at m id (some i) = Maps.insert m id (record i { consumed = true })

abbrev pub consume : Map ContentId Invite → Option ContentId → Map ContentId Invite
consume m none = m
consume m (some id) = consume_at m id (Maps.get m id)

abbrev pub enrolled : String → CertChain → ContentId → ContentId → ℕ → Status → Session
enrolled member c cid id epoch status = record {
  member = member;
  pubkey = agent_pubkey c;
  start = id;
  status = status;
  certs = cid ∷ [];
  epoch = epoch;
  activated_by = none;
}

-- The member's first session becomes the holder, and any later one is pending.
abbrev pub enroll : Sessions → String → String → Session → Session → Sessions
enroll s member session first later =
    if contains s.seen member
    then record s { sessions = Maps.insert s.sessions session later }
    else record s {
      seen = insert member s.seen;
      holders = Maps.insert s.holders member session;
      sessions = Maps.insert s.sessions session first;
    }

abbrev pub observe_start :
    Crates → Sessions → ContentId → Event → ℕ → String → String → CertChain → Result Why Sessions
observe_start x s id ev epoch member session c = do
  cid ← cert_cid x c
  let known = record s {
    invites = consume s.invites (Maps.get ev.refs "invite");
    chains = Maps.insert s.chains cid c;
  }
  ok (
      enroll known member session (enrolled member c cid id epoch Status.active)
        (enrolled member c cid id epoch Status.pending))

abbrev pub end_session : Session → Session
end_session s = record s { status = Status.ended }

abbrev observe_end : Sessions → String → Sessions
observe_end s session = record s { sessions = modify s.sessions session end_session }

-- The replacement becomes active and holds its member.
abbrev pub activate : Sessions → ContentId → String → Option Session → Sessions
activate s id to none = s
activate s id to (some t) = record s {
  sessions =
      Maps.insert s.sessions to (record t { status = Status.active; activated_by = some id });
  holders = Maps.insert s.holders t.member to;
}

abbrev pub observe_handoff :
    Crates
    → Sessions
    → ContentId
    → String
    → String
    → MerkleNode HandoffApproval
    → Result Why Sessions
observe_handoff x s id from to approval = do
  ap_id ← ok_or (x.approval_id approval) encoding
  let over = record s {
    approvals = insert ap_id s.approvals;
    sessions = modify s.sessions from end_session;
  }
  ok (activate over id to (session_of over to))

abbrev observe_device : Crates → Sessions → CertChain → Result Why Sessions
observe_device x s c = do cid ← cert_cid x c; ok (record s { chains = Maps.insert s.chains cid c })

abbrev pub renew : Crates → Sessions → String → ℕ → CertChain → Option Session → Result Why Sessions
renew x s session epoch c none = ok s
renew x s session epoch c (some found) = do
  cid ← cert_cid x c
  ok (record s {
    chains = Maps.insert s.chains cid c;
    sessions =
        Maps.insert s.sessions session
          (record found { certs = insert cid found.certs; epoch = epoch });
  })

abbrev pub observe_body : Crates → Sessions → ContentId → Event → ℕ → Body → Result Why Sessions
observe_body x s id ev epoch (Body.invite member verifier) =
    ok (observe_invite s id member verifier)
observe_body x s id ev epoch (Body.session_start member session c) =
    observe_start x s id ev epoch member session c
observe_body x s id ev epoch (Body.session_end session reason) = ok (observe_end s session)
observe_body x s id ev epoch (Body.handoff from to resume context approval sig) =
    observe_handoff x s id from to approval
observe_body x s id ev epoch (Body.device_cert c) = observe_device x s c
observe_body x s id ev epoch (Body.renewal session e c) =
    renew x s session e c (session_of s session)
observe_body x s id ev epoch _ = ok s

unfoldable pub observe : Crates → Sessions → ContentId → Event → ℕ → Result Why Sessions
observe x s id ev epoch = observe_body x s id ev epoch ev.body

abbrev activation : Option Session → Option ContentId
activation none = none
activation (some s) = s.activated_by

abbrev or_activation : Sessions → String → Option ContentId → Option ContentId
or_activation s session (some head) = some head
or_activation s session none = activation (session_of s session)

-- What the session's next event must have as `prev`.
unfoldable pub chain_head : Sessions → Board → String → Option ContentId
chain_head s board session = or_activation s session (head_of board session)

abbrev check_link : Option ContentId → Option ContentId → Result Why (Unit {0})
check_link (some h) prev = fail_if (not (opt_eq prev (some h))) must_follow_handoff
check_link none (some p) = err no_handoff_to_follow
check_link none none = ok tt

abbrev link_of : Board → Event → Option Session → Result Why (Unit {0})
link_of board ev none = ok tt
link_of board ev (some s) =
    if is_some (head_of board ev.author) then ok tt else check_link s.activated_by ev.prev

unfoldable pub first_link : Sessions → Board → Event → Result Why (Unit {0})
first_link s board ev = link_of board ev (session_of s ev.author)
