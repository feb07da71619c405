-- ===== src/Server/Sessions/Check.antt =====
-- sessions.rs: `check`, what an event about sessions must satisfy, by its body.
use agent_mesh.Common.{
  ℕ, String, Bool, true, false, not, ◌&&◌, ◌||◌, Option, none, some, List, [], ◌∷◌, ◌==◌, leb,
  str_eq, string_eq, nat_eq, opt_eq, any, find, contains, set_eq, is_none, is_some, if◌then◌else◌,
  Result, ok, err, ◌>>=◌, ◌>>◌, fail_if, ok_or,
}
use agent_mesh.Common.Maps
use agent_mesh.Common.Maps.{Map}
use agent_mesh.Protocol.Caveats
use agent_mesh.Protocol.Caveats.{Caveats}
use agent_mesh.Protocol.Caveats.Scope.{Scope}
use agent_mesh.Protocol.Caveats.CountBound.{CountBound, at_most, unlimited}
use agent_mesh.Protocol.Certs.{
  CertChain, Issuer, user, agent, agent_pubkey, issuer, metadata, Pubkey, verify_at,
}
use agent_mesh.Protocol.Assertion.{Assertion, is_direct}
use agent_mesh.Flock.Event.{
  ContentId, RawContentId, Event, Body, FileRef, HandoffApproval, MerkleNode,
}
use agent_mesh.Flock.Board.{Board, head_of}
use agent_mesh.Server.Errors.{
  Why, Crates, encoding, cert_for_another_key, cert_not_by_server, cert_not_bounded,
  wrong_references, not_on_roster, verifier_known, unknown_invite, invite_consumed,
  invite_for_another, already_enrolled, no_live_session, epoch_mismatch, renewal_epoch,
  already_certified, not_a_device, server_is_device, device_known, approval_for_another_flock,
  handoff_differs, no_context, approval_consumed, unknown_session, not_the_members, not_the_holder,
  not_pending, wrong_resume,
}
use agent_mesh.Server.Sessions.{Sessions, Session, Invite, is_ended, is_pending, session_of}
use agent_mesh.Server.Sessions.Resolve.{lift, cert_cid, author_hex}
use agent_mesh.Server.Sessions.Approver.{has_name, approver_ok}
use agent_mesh.Server.Chain.{Chain}

-- `bounded`, and `session_caveats`.
abbrev pub bounded : ℕ → Caveats
bounded epoch = record Caveats.top { valid_for_generation = Scope.only (epoch ∷ []) }

-- `==` of caveats, axis by axis.
abbrev names_eq : Scope String → Scope String → Bool
names_eq Scope.all Scope.all = true
names_eq (Scope.only a) (Scope.only b) = set_eq a b
names_eq _ _ = false

abbrev numbers_eq : Scope ℕ → Scope ℕ → Bool
numbers_eq Scope.all Scope.all = true
numbers_eq (Scope.only a) (Scope.only b) = set_eq a b
numbers_eq _ _ = false

abbrev count_eq : CountBound → CountBound → Bool
count_eq unlimited unlimited = true
count_eq (at_most m) (at_most n) = m == n
count_eq _ _ = false

unfoldable pub caveats_eq : Caveats → Caveats → Bool
caveats_eq a b =
    names_eq a.fs_read b.fs_read
    && (names_eq a.fs_write b.fs_write
        && (names_eq a.exec b.exec
            && (names_eq a.net b.net
                && (count_eq a.max_calls b.max_calls
                    && numbers_eq a.valid_for_generation b.valid_for_generation))))

abbrev issued_by : Issuer → Pubkey → Bool
issued_by (agent by parent) server = by == server
issued_by (user u) server = false

unfoldable pub cert_ok : Crates → CertChain → String → ℕ → Pubkey → Result Why (Unit {0})
cert_ok x c session epoch server = do
  fail_if (not (str_eq (author_hex x c) session)) cert_for_another_key
  lift (verify_at x.keys c epoch)
  fail_if (not (issued_by (issuer c) server)) cert_not_by_server
  fail_if (not (caveats_eq (metadata c).caveats (bounded epoch))) cert_not_bounded

-- The references are exactly these, in key order.
abbrev pub refs_eq : List (String × ContentId) → List (String × ContentId) → Bool
refs_eq [] [] = true
refs_eq ((r, a) ∷ m) ((s, b) ∷ n) = (str_eq r s && a == b) && refs_eq m n
refs_eq _ _ = false

abbrev pub refs_are : Event → List (String × ContentId) → Result Why (Unit {0})
refs_are ev want = fail_if (not (refs_eq ev.refs want)) wrong_references

abbrev pub live_one : Option Session → Result Why Session
live_one none = err no_live_session
live_one (some s) = if is_ended s.status then err no_live_session else ok s

abbrev pub live_session : Sessions → String → Result Why Session
live_session s session = live_one (session_of s session)

abbrev check_invite : Sessions → Board → Event → String → RawContentId → Result Why (Unit {0})
check_invite s board ev member verifier = do
  fail_if (not (any (has_name member) board.members)) not_on_roster
  refs_are ev []
  fail_if (is_some (Maps.get s.verifiers verifier)) verifier_known

abbrev pub known_invite : Sessions → Option ContentId → Result Why (ContentId × Invite)
known_invite s none = err unknown_invite
known_invite s (some id) = do i ← ok_or (Maps.get s.invites id) unknown_invite; ok (id, i)

abbrev pub check_start :
    Crates → Sessions → Event → ℕ → Pubkey → String → String → CertChain → Result Why (Unit {0})
check_start x s ev epoch server member session c = do
  known ← known_invite s (Maps.get ev.refs "invite")
  refs_are ev (("invite", known.0) ∷ [])
  fail_if known.1.consumed invite_consumed
  fail_if (not (str_eq known.1.member member)) invite_for_another
  fail_if (is_some (session_of s session)) already_enrolled
  cert_ok x c session epoch server

abbrev check_renewal :
    Crates → Sessions → Event → ℕ → Pubkey → String → ℕ → CertChain → Result Why (Unit {0})
check_renewal x s ev epoch server session e c = do
  found ← live_session s session
  refs_are ev (("session", found.start) ∷ [])
  fail_if (not (e == epoch)) renewal_epoch
  fail_if (leb epoch found.epoch) already_certified
  cert_ok x c session epoch server

abbrev check_device : Crates → Sessions → Event → ℕ → Chain → CertChain → Result Why (Unit {0})
check_device x s ev epoch chain c = do
  refs_are ev []
  fail_if (not (is_direct (issuer c) chain.user)) not_a_device
  fail_if (agent_pubkey c == chain.server_pub) server_is_device
  lift (verify_at x.keys c epoch)
  cid ← cert_cid x c
  fail_if (is_some (Maps.get s.chains cid)) device_known

abbrev file_eq : FileRef → FileRef → Bool
file_eq a b = str_eq a.root b.root && (str_eq a.path b.path && a.id == b.id)

abbrev context_eq : Option FileRef → Option FileRef → Bool
context_eq none none = true
context_eq (some a) (some b) = file_eq a b
context_eq _ _ = false

abbrev pub id_or : Option ContentId → ContentId → ContentId
id_or none other = other
id_or (some id) other = id

abbrev parents_empty : List ContentId → Bool
parents_empty [] = true
parents_empty (p ∷ ps) = false

abbrev pub check_handoff :
    Crates
    → Sessions
    → Board
    → Event
    → ℕ
    → Chain
    → String
    → String
    → ContentId
    → Option FileRef
    → MerkleNode HandoffApproval
    → Assertion
    → Result Why (Unit {0})
check_handoff x s board ev epoch chain from to resume context approval sig = do
  ap_id ← ok_or (x.approval_id approval) encoding
  let a = approval.payload
  fail_if (not (parents_empty approval.parents) || not (a.flock == board.flock))
      approval_for_another_flock
  fail_if
      (not (
        str_eq a.from from
        && (str_eq a.to to && (a.resume == resume && context_eq a.context context))))
      handoff_differs
  fail_if (is_none a.context) no_context
  fail_if (contains s.approvals ap_id) approval_consumed
  f ← ok_or (session_of s from) unknown_session
  t ← ok_or (session_of s to) unknown_session
  fail_if (not (str_eq f.member a.member) || not (str_eq t.member a.member)) not_the_members
  fail_if (not (opt_eq (Maps.get s.holders a.member) (some from))) not_the_holder
  fail_if (not (is_pending t.status)) not_pending
  fail_if (not (resume == id_or (head_of board from) f.start)) wrong_resume
  refs_are ev (("from", f.start) ∷ ("resume", resume) ∷ ("to", t.start) ∷ [])
  member ← ok_or (find (has_name a.member) board.members) not_on_roster
  approver_ok x s board member ap_id sig chain epoch

abbrev check_end : Sessions → Event → String → Result Why (Unit {0})
check_end s ev session = do
  found ← live_session s session
  refs_are ev (("session", found.start) ∷ [])

abbrev check_epoch : Event → ℕ → ℕ → Result Why (Unit {0})
check_epoch ev epoch e = do refs_are ev []; fail_if (not (e == epoch)) epoch_mismatch

abbrev pub check_body : Crates → Sessions → Board → Event → ℕ → Chain → Body → Result Why (Unit {0})
check_body x s board ev epoch chain (Body.invite member verifier) =
    check_invite s board ev member verifier
check_body x s board ev epoch chain (Body.session_start member session c) =
    check_start x s ev epoch chain.server_pub member session c
check_body x s board ev epoch chain (Body.session_end session reason) = check_end s ev session
check_body x s board ev epoch chain (Body.epoch e) = check_epoch ev epoch e
check_body x s board ev epoch chain (Body.renewal session e c) =
    check_renewal x s ev epoch chain.server_pub session e c
check_body x s board ev epoch chain (Body.device_cert c) = check_device x s ev epoch chain c
check_body x s board ev epoch chain (Body.handoff from to resume context approval sig) =
    check_handoff x s board ev epoch chain from to resume context approval sig
check_body x s board ev epoch chain _ = ok tt

unfoldable pub check : Crates → Sessions → Board → Event → ℕ → Chain → Result Why (Unit {0})
check x s board ev epoch chain = check_body x s board ev epoch chain ev.body
