-- ===== src/Server/Sessions/Approved.antt =====
-- sessions.rs: what the check of a hand-off, of a start and of a renewal ensures.
use agent_mesh.Common.{
  ℕ, String, ◌≡◌, Option, none, some, arith, nat_eq, string_eq, eq_iff, opt_eq_iff, ok,
  Result-cases, Option-cases, inl, inr,
}
use agent_mesh.Common.Maps
use agent_mesh.Common.Maps.{Map}
use agent_mesh.Protocol.Certs.{CertChain, Pubkey}
use agent_mesh.Protocol.Assertion.{Assertion}
use agent_mesh.Flock.Event.{ContentId, Event, FileRef, HandoffApproval, MerkleNode}
use agent_mesh.Flock.Board.{Board}
use agent_mesh.Server.Errors.{Crates}
use agent_mesh.Server.Chain.{Chain}
use agent_mesh.Server.Sessions.{Sessions, Session, session_of}
use agent_mesh.Server.Sessions.Check.{check_handoff, check_start, known_invite}

-- What the check of a hand-off ensures.
pub record Approved (s : Sessions) (from to : String) : Type 0 where
  pub f : Session
  pub t : Session
  pub from_there : session_of s from ≡ some f
  pub to_there : session_of s to ≡ some t
  pub one_member : t.member ≡ f.member
  pub holder : Maps.get s.holders f.member ≡ some from

pub check_handoff-Approved :
    (x : Crates) (s : Sessions) (board : Board) (ev : Event) (epoch : ℕ) (chain : Chain)
    (from to : String) (resume : ContentId) (context : Option FileRef)
    (approval : MerkleNode HandoffApproval) (sig : Assertion)
    → check_handoff x s board ev epoch chain from to resume context approval sig ≡ ok tt
    → Approved s from to
check_handoff-Approved x s board ev epoch chain from to resume context approval sig h =
    elim (Option-cases (x.approval_id approval)) [
      | inl bad ↦ absurd (ground arith)
      | inr (ap_id, named) ↦ elim (Option-cases (session_of s from)) [
        | inl bad ↦ absurd (ground arith)
        | inr (f, from_there) ↦ elim (Option-cases (session_of s to)) [
          | inl bad ↦ absurd (ground arith)
          | inr (t, to_there) ↦ record {
            f = f;
            t = t;
            from_there = from_there;
            to_there = to_there;
            one_member = ground (
              arith,
              eq_iff f.member approval.payload.member,
              eq_iff t.member approval.payload.member,
            );
            holder = ground (
              arith,
              eq_iff f.member approval.payload.member,
              opt_eq_iff (Maps.get s.holders approval.payload.member) (some from),
            );
          }
        ]
      ]
    ]

pub check_start-fresh :
    (x : Crates) (s : Sessions) (ev : Event) (epoch : ℕ) (server : Pubkey) (member session : String)
    (c : CertChain)
    → check_start x s ev epoch server member session c ≡ ok tt
    → session_of s session ≡ none
check_start-fresh x s ev epoch server member session c h =
    elim (Result-cases (known_invite s (Maps.get ev.refs "invite"))) [
      | inl (known, found) ↦ elim (Option-cases (session_of s session)) [
        | inl fresh ↦ fresh
        | inr (a, there) ↦ absurd (ground arith)
      ]
      | inr (e, bad) ↦ absurd (ground arith)
    ]
