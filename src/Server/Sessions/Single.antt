-- ===== src/Server/Sessions/Single.antt =====
-- sessions.rs: the active sessions of a member, through `check` and `observe`.
pub mod Table
use agent_mesh.Common.{
  ℕ, String, ◌≡◌, refl, true, none, some, arith, nat_eq, string_eq, eq_iff, contains, insert,
  contains-insert, Result, ok, Option-cases, inl, inr,
}
use agent_mesh.Common.Maps
use agent_mesh.Common.Maps.{Map}
use agent_mesh.Protocol.Certs.{CertChain}
use agent_mesh.Flock.Event.{ContentId, Event, Body, HandoffApproval, MerkleNode}
use agent_mesh.Flock.Board.{Board}
use agent_mesh.Server.Errors.{Why, Crates}
use agent_mesh.Server.Chain.{Chain}
use agent_mesh.Server.Sessions
use agent_mesh.Server.Sessions.{Sessions, Session, Status, session_of}
use agent_mesh.Server.Sessions.Check.{check, check_body}
use agent_mesh.Server.Sessions.Approved.{Approved, check_handoff-Approved, check_start-fresh}
use agent_mesh.Server.Sessions.Single.Table.{
  IsSingle, like, enroll-IsSingle, end-IsSingle, renewed-IsSingle, over-IsSingle,
}
use agent_mesh.Server.Sessions.Observe.{
  observe, observe_handoff, observe_start, observe_body, enroll, enrolled, end_session, modify,
  renew,
}

same_IsSingle :
    {s s' : Sessions} → Path (Result Why Sessions) (ok s) (ok s') → IsSingle s → IsSingle s'
same_IsSingle same inv = like (ground arith) (ground arith) (ground arith) inv

handoff-IsSingle :
    (x : Crates) (s : Sessions) (id : ContentId) (from to : String)
    (approval : MerkleNode HandoffApproval) (s' : Sessions)
    → Approved s from to
    → observe_handoff x s id from to approval ≡ ok s'
    → IsSingle s
    → IsSingle s'
handoff-IsSingle x s id from to approval s' ap done inv =
    elim (Option-cases (x.approval_id approval)) [
      | inl bad ↦ absurd (ground arith)
      | inr (ap_id, named) ↦
          like
            (ground (
              arith,
              ap.from_there,
              ap.to_there,
              Maps.get-insert s.sessions from (end_session ap.f) to,
              eq_iff from to,
            ))
            (ground (
              arith,
              ap.from_there,
              ap.to_there,
              Maps.get-insert s.sessions from (end_session ap.f) to,
              eq_iff from to,
            ))
            (ground (
              arith,
              ap.from_there,
              ap.to_there,
              Maps.get-insert s.sessions from (end_session ap.f) to,
              eq_iff from to,
            ))
            (over-IsSingle s from to ap.f ap.t
              (record ap.t { status = Status.active; activated_by = some id }) inv ap.from_there
              ap.to_there ap.one_member ap.holder refl)
    ]

start-IsSingle :
    (x : Crates) (s : Sessions) (id : ContentId) (ev : Event) (epoch : ℕ) (member session : String)
    (c : CertChain) (s' : Sessions)
    → session_of s session ≡ none
    → observe_start x s id ev epoch member session c ≡ ok s'
    → IsSingle s
    → IsSingle s'
start-IsSingle x s id ev epoch member session c s' fresh done inv =
    elim (Option-cases (x.cert_id c)) [
      | inl bad ↦ absurd (ground arith)
      | inr (cid, named) ↦ like (ground arith) (ground arith) (ground arith) (
          enroll-IsSingle s member session (enrolled member c cid id epoch Status.active)
            (enrolled member c cid id epoch Status.pending) inv fresh refl refl refl)
    ]

renew-IsSingle :
    (x : Crates) (s : Sessions) (session : String) (epoch : ℕ) (c : CertChain) (s' : Sessions)
    → renew x s session epoch c (session_of s session) ≡ ok s'
    → IsSingle s
    → IsSingle s'
renew-IsSingle x s session epoch c s' done inv = elim (Option-cases (session_of s session)) [
  | inl gone ↦ like (ground arith) (ground arith) (ground arith) inv
  | inr (old, there) ↦ elim (Option-cases (x.cert_id c)) [
    | inl bad ↦ absurd (ground arith)
    | inr (cid, named) ↦ like (ground arith) (ground arith) (ground arith) (
        renewed-IsSingle s session old (record old { certs = insert cid old.certs; epoch = epoch })
          inv there refl refl)
  ]
]

body-IsSingle :
    (x : Crates) (s s' : Sessions) (board : Board) (id : ContentId) (ev : Event) (epoch : ℕ)
    (chain : Chain) (body : Body)
    → check_body x s board ev epoch chain body ≡ ok tt
    → observe_body x s id ev epoch body ≡ ok s'
    → IsSingle s
    → IsSingle s'
body-IsSingle x s s' board id ev epoch chain (Body.roster ms f) fine done inv =
    same_IsSingle done inv
body-IsSingle x s s' board id ev epoch chain (Body.brief a b) fine done inv = same_IsSingle done inv
body-IsSingle x s s' board id ev epoch chain (Body.review a b c) fine done inv =
    same_IsSingle done inv
body-IsSingle x s s' board id ev epoch chain Body.ack fine done inv = same_IsSingle done inv
body-IsSingle x s s' board id ev epoch chain (Body.result o) fine done inv = same_IsSingle done inv
body-IsSingle x s s' board id ev epoch chain (Body.verdict a b) fine done inv =
    same_IsSingle done inv
body-IsSingle x s s' board id ev epoch chain (Body.job a b) fine done inv = same_IsSingle done inv
body-IsSingle x s s' board id ev epoch chain (Body.job_end a b) fine done inv =
    same_IsSingle done inv
body-IsSingle x s s' board id ev epoch chain (Body.ask a b) fine done inv = same_IsSingle done inv
body-IsSingle x s s' board id ev epoch chain (Body.answer a) fine done inv = same_IsSingle done inv
body-IsSingle x s s' board id ev epoch chain (Body.relayed_answer a) fine done inv =
    same_IsSingle done inv
body-IsSingle x s s' board id ev epoch chain (Body.status a) fine done inv = same_IsSingle done inv
body-IsSingle x s s' board id ev epoch chain (Body.nudged a) fine done inv = same_IsSingle done inv
body-IsSingle x s s' board id ev epoch chain (Body.nudge_misfire a b c) fine done inv =
    same_IsSingle done inv
body-IsSingle x s s' board id ev epoch chain (Body.pane a b) fine done inv = same_IsSingle done inv
body-IsSingle x s s' board id ev epoch chain (Body.epoch e) fine done inv = same_IsSingle done inv
body-IsSingle x s s' board id ev epoch chain (Body.invite m v) fine done inv =
    like (ground arith) (ground arith) (ground arith) inv
body-IsSingle x s s' board id ev epoch chain (Body.device_cert c) fine done inv =
    elim (Option-cases (x.cert_id c)) [
      | inl bad ↦ absurd (ground arith)
      | inr (cid, named) ↦ like (ground arith) (ground arith) (ground arith) inv
    ]
body-IsSingle x s s' board id ev epoch chain (Body.session_start member session c) fine done inv =
    start-IsSingle x s id ev epoch member session c s'
      (check_start-fresh x s ev epoch chain.server_pub member session c fine) done inv
body-IsSingle x s s' board id ev epoch chain (Body.session_end session reason) fine done inv =
    like (ground arith) (ground arith) (ground arith) (end-IsSingle s session inv)
body-IsSingle x s s' board id ev epoch chain (Body.handoff from to resume context approval sig) fine
      done inv =
    handoff-IsSingle x s id from to approval s'
      (check_handoff-Approved x s board ev epoch chain from to resume context approval sig fine)
      done inv
body-IsSingle x s s' board id ev epoch chain (Body.renewal session e c) fine done inv =
    renew-IsSingle x s session e c s' done inv

-- Observing an event that passed its check keeps one active session to each member: if the table has
-- that invariant, the event passes `check` at some board, epoch and chain, and `observe` succeeds on
-- it, then the new table has the invariant.
pub observe-IsSingle :
    (x : Crates) (s s' : Sessions) (board : Board) (id : ContentId) (ev : Event) (epoch : ℕ)
    (chain : Chain)
    → IsSingle s
    → check x s board ev epoch chain ≡ ok tt
    → observe x s id ev epoch ≡ ok s'
    → IsSingle s'
unfolding check observe
observe-IsSingle x s s' board id ev epoch chain inv fine done =
    body-IsSingle x s s' board id ev epoch chain ev.body fine done inv

pub default-IsSingle : IsSingle Sessions.default
unfolding Maps.get
default-IsSingle = record {
  held = λ key a. λ at live. ground arith;
  known = λ key a. λ at. ground arith;
}

-- Two active sessions of one member are the same session, in a table with the invariant.
active_unique :
    (s : Sessions) (k j : String) (a b : Session)
    → IsSingle s
    → session_of s k ≡ some a
    → session_of s j ≡ some b
    → a.status ≡ Status.active
    → b.status ≡ Status.active
    → a.member ≡ b.member
    → k ≡ j
active_unique s k j a b inv at there one two same = ground (arith, inv.held k a, inv.held j b)
