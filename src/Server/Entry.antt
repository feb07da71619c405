-- ===== src/Server/Entry.antt =====
-- agent-mesh-flock-server/src/entry.rs: invite, enroll, renew, end a session, hand off, and the
-- server's own rosters. What is drawn at random, a token or a nonce, is an argument.
pub mod Challenges
pub mod Renewals
use agent_mesh.Common.{
  ℕ, ◌+◌, String, Bool, true, false, not, ◌&&◌, Option, none, some, List, [], ◌∷◌, ◌++◌, ◌==◌,
  nat_eq, string_eq, str_eq, leb, ltb, filter, map, is_some, if◌then◌else◌, Result, ok, err, ◌>>=◌,
  ◌>>◌, fail_if, ok_or,
}
use agent_mesh.Common.Maps
use agent_mesh.Common.Maps.{Map}
use agent_mesh.Protocol.Certs.{
  AgentKey, AgentMetadata, CertChain, MeshError, PossessionChallenge, Pubkey, Signature,
  agent_fingerprint, delegate_external, metadata, possession_challenge,
}
use agent_mesh.Protocol.Assertion.{Assertion}
use agent_mesh.Flock.Kind.{Kind}
use agent_mesh.Flock.Event.{
  ContentId, RawContentId, Body, EndReason, HandoffApproval, Member, MerkleNode,
}
use agent_mesh.Server.Errors.{
  ServerError, Why, encoding_failed, session, certificate, unknown_invite, invite_consumed,
  invite_for_another, already_enrolled, already_certified, no_live_session, unknown_session,
  no_challenge, enroll_challenge, renew_challenge, epoch_moved, session_gone, not_recorded,
}
use agent_mesh.Server.Sessions
use agent_mesh.Server.Sessions.{InviteInfo, SessionInfo, Status, is_ended, is_pending}
use agent_mesh.Server.Sessions.Check
use agent_mesh.Server.State.{Spec, cert_cid, drops_member}
use agent_mesh.Server.Transact.{Server, Host, Held, Purpose, transact}

pub record Invited : Type 0 where
  pub token : String
  pub event : ContentId

pub record Enrolled : Type 0 where
  pub session : String
  pub cert : CertChain
  pub pending : Bool

-- `==` of challenges.
abbrev pub challenge_eq : PossessionChallenge → PossessionChallenge → Bool
challenge_eq a b =
    a.issuer_pubkey == b.issuer_pubkey
    && (a.subject_pubkey == b.subject_pubkey && a.nonce == b.nonce)

abbrev first_id : List ContentId → ContentId
first_id [] = 0
first_id (id ∷ ids) = id

abbrev pub spec : Kind → Map String ContentId → Body → Spec
spec kind refs body = record { kind = kind; refs = refs; body = body }

-- Do the rest only if this succeeds.
abbrev after_ok {ℓ κ} :
    {A : Type ℓ} {B : Type κ}
    → Server × Result ServerError A
    → (Server → A → Server × Result ServerError B)
    → Server × Result ServerError B
after_ok (srv, ok a) rest = rest srv a
after_ok (srv, err e) rest = (srv, err e)

abbrev on_ok {ℓ κ} :
    {A : Type ℓ} {B : Type κ}
    → Server
    → Result ServerError A
    → (A → Server × Result ServerError B)
    → Server × Result ServerError B
on_ok srv (ok a) rest = rest a
on_ok srv (err e) rest = (srv, err e)

abbrev live_info : Option SessionInfo → Option SessionInfo
live_info none = none
live_info (some i) = if is_ended i.status then none else some i

-- `Server::live`.
abbrev pub live : Server → String → Option SessionInfo
live srv id = live_info (Sessions.get srv.st.sessions id)

abbrev taken : Server → PossessionChallenge → Option Held → Server × Result ServerError Purpose
taken srv challenge none = (srv, err (session no_challenge))
taken srv challenge (some held) =
    if challenge_eq held.challenge challenge
    then (srv, ok held.purpose)
    else (srv, err (session no_challenge))

-- `Server::take`: the entry of that nonce goes, whatever the answer.
unfoldable pub take_challenge : Server → PossessionChallenge → Server × Result ServerError Purpose
take_challenge srv challenge =
    taken (record srv { challenges = Maps.remove srv.challenges challenge.nonce }) challenge
      (Maps.get srv.challenges challenge.nonce)

-- The token's digest is `RawContentId::from_content` of its bytes.
module _ (h : Host) (token_digest : String → RawContentId) where
  -- `Server::issue`.
  unfoldable pub issue : Server → ℕ → Pubkey → Purpose → Server × PossessionChallenge
  issue srv nonce pubkey purpose =
      let challenge = possession_challenge h.crates.keys srv.key pubkey nonce in
      (
        record srv {
          challenges =
              Maps.insert srv.challenges challenge.nonce
                (record { challenge = challenge; purpose = purpose });
        },
        challenge,
      )

  abbrev session_meta : Server → String → AgentMetadata
  session_meta srv member = record {
    role = member;
    host = (metadata srv.key.chain).host;
    capabilities = [];
    issued_at = (metadata srv.key.chain).issued_at;
    expires_at = none;
    caveats = Check.bounded srv.st.chain.epoch;
  }

  abbrev minted : Result MeshError CertChain → Result ServerError CertChain
  minted (ok c) = ok c
  minted (err e) = err (session (certificate e))

  -- `Server::certify`.
  unfoldable pub certify :
      Server → PossessionChallenge → Signature → String → Result ServerError CertChain
  certify srv challenge proof member =
      minted (delegate_external h.crates.keys srv.key challenge proof (session_meta srv member))

  unfoldable pub invite : Server → String → String → Server × Result ServerError Invited
  invite srv token member =
      after_ok (transact h srv (spec Kind.invite [] (Body.invite member (token_digest token)) ∷ []))
        (λ s ids. (s, ok (record { token = token; event = first_id ids })))

  abbrev may_enroll : Server → String → String → Pubkey → Result ServerError InviteInfo
  may_enroll srv token member pubkey = do
    found ← ok_or (Sessions.invite srv.st.sessions (token_digest token)) (session unknown_invite)
    fail_if found.consumed (session invite_consumed)
    fail_if (not (str_eq found.member member)) (session invite_for_another)
    fail_if
        (is_some
          (Sessions.get srv.st.sessions (h.crates.externs.hex (h.crates.keys.fingerprint pubkey))))
        (session already_enrolled)
    ok found

  unfoldable pub enroll_begin :
      Server → ℕ → String → String → Pubkey → Server × Result ServerError PossessionChallenge
  enroll_begin srv nonce token member pubkey =
      on_ok srv (may_enroll srv token member pubkey)
        (λ found. let done = issue srv nonce pubkey (Purpose.enroll found) in (done.0, ok done.1))

  abbrev is_waiting : Option SessionInfo → Bool
  is_waiting none = false
  is_waiting (some i) = is_pending i.status

  abbrev enroll_certified : Server → InviteInfo → CertChain → Server × Result ServerError Enrolled
  enroll_certified srv found c =
      let id = h.crates.externs.hex (agent_fingerprint h.crates.keys c) in
      after_ok
        (transact h srv (
          spec Kind.session_start (("invite", found.event) ∷ [])
            (Body.session_start found.member id c)
          ∷ []))
        (λ s ids. (
          s,
          ok (record {
            session = id;
            cert = c;
            pending = is_waiting (Sessions.get s.st.sessions id);
          }),
        ))

  abbrev enroll_taken :
      PossessionChallenge → Signature → Server → Purpose → Server × Result ServerError Enrolled
  enroll_taken challenge proof srv (Purpose.renew id epoch) = (srv, err (session enroll_challenge))
  enroll_taken challenge proof srv (Purpose.enroll found) =
      on_ok srv (certify srv challenge proof found.member) (enroll_certified srv found)

  unfoldable pub enroll_finish :
      Server → PossessionChallenge → Signature → Server × Result ServerError Enrolled
  enroll_finish srv challenge proof =
      after_ok (take_challenge srv challenge) (enroll_taken challenge proof)

  abbrev pub epoch_spec : Server → Spec
  epoch_spec srv = spec Kind.epoch [] (Body.epoch (srv.st.chain.epoch + 1))

  unfoldable pub end_session : Server → String → EndReason → Server × Result ServerError (Unit {0})
  end_session srv id reason = on_ok srv (ok_or (live srv id) (session no_live_session)) (λ i.
      after_ok
        (transact h srv (
          spec Kind.session_end (("session", i.start) ∷ []) (Body.session_end id reason)
          ∷ epoch_spec srv
          ∷ []))
        (λ s ids. (s, ok tt)))

  abbrev may_renew : Server → CertChain → Result ServerError (String × SessionInfo)
  may_renew srv last = do
    let id = h.crates.externs.hex (agent_fingerprint h.crates.keys last)
    i ← ok_or (live srv id) (session no_live_session)
    cid ← cert_cid h.crates last
    fail_if (not (Sessions.issued srv.st.sessions id cid)) (session not_recorded)
    fail_if (leb srv.st.chain.epoch i.epoch) (session already_certified)
    ok (id, i)

  unfoldable pub renew_begin :
      Server → ℕ → CertChain → Server × Result ServerError PossessionChallenge
  renew_begin srv nonce last = on_ok srv (may_renew srv last) (λ e.
      let done = issue srv nonce e.1.pubkey (Purpose.renew e.0 srv.st.chain.epoch) in
      (done.0, ok done.1))

  abbrev renewed :
      Server → String → ℕ → SessionInfo → CertChain → Server × Result ServerError CertChain
  renewed srv id epoch i c =
      after_ok
        (transact h srv
          (spec Kind.renewal (("session", i.start) ∷ []) (Body.renewal id epoch c) ∷ []))
        (λ s ids. (s, ok c))

  abbrev renew_live :
      PossessionChallenge
      → Signature
      → Server
      → String
      → ℕ
      → SessionInfo
      → Server × Result ServerError CertChain
  renew_live challenge proof srv id epoch i =
      on_ok srv (certify srv challenge proof i.member) (renewed srv id epoch i)

  abbrev renew_taken :
      PossessionChallenge → Signature → Server → Purpose → Server × Result ServerError CertChain
  renew_taken challenge proof srv (Purpose.enroll found) = (srv, err (session renew_challenge))
  renew_taken challenge proof srv (Purpose.renew id epoch) =
      if not (epoch == srv.st.chain.epoch)
      then (srv, err (session epoch_moved))
      else on_ok srv (ok_or (live srv id) (session session_gone))
          (renew_live challenge proof srv id epoch)

  unfoldable pub renew_finish :
      Server → PossessionChallenge → Signature → Server × Result ServerError CertChain
  renew_finish srv challenge proof =
      after_ok (take_challenge srv challenge) (renew_taken challenge proof)

  unfoldable pub register_device : Server → CertChain → Server × Result ServerError ContentId
  register_device srv c =
      after_ok (transact h srv (spec Kind.device_cert [] (Body.device_cert c) ∷ []))
        (λ s ids. (s, ok (first_id ids)))

  abbrev roster_spec : Server → List Member → List String → Spec
  roster_spec srv members roots =
      spec Kind.roster (("replaces", srv.st.board.roster_id) ∷ []) (Body.roster members roots)

  abbrev bump_if : Server → Bool → List Spec
  bump_if srv true = epoch_spec srv ∷ []
  bump_if srv false = []

  unfoldable pub replace_roster : Server → List Member → Server × Result ServerError ContentId
  replace_roster srv members =
      after_ok
        (transact h srv (
          roster_spec srv members srv.st.board.roots
          ∷ bump_if srv (drops_member srv.st.board.members members)))
        (λ s ids. (s, ok (first_id ids)))

  unfoldable pub set_roots : Server → List String → Server × Result ServerError ContentId
  set_roots srv roots =
      after_ok (transact h srv (roster_spec srv srv.st.board.members roots ∷ []))
        (λ s ids. (s, ok (first_id ids)))

  abbrev both :
      Option SessionInfo → Option SessionInfo → Result ServerError (SessionInfo × SessionInfo)
  both (some f) (some t) = ok (f, t)
  both _ _ = err (session unknown_session)

  unfoldable pub handoff :
      Server → MerkleNode HandoffApproval → Assertion → Server × Result ServerError ContentId
  handoff srv approval sig =
      let a = approval.payload in
      on_ok srv (both (Sessions.get srv.st.sessions a.from) (Sessions.get srv.st.sessions a.to))
        (λ e.
          after_ok
            (transact h srv (
              spec Kind.handoff
                (("from", e.0.start) ∷ ("resume", a.resume) ∷ ("to", e.1.start) ∷ [])
                (Body.handoff a.from a.to a.resume a.context approval sig)
              ∷ epoch_spec srv
              ∷ []))
            (λ s ids. (s, ok (first_id ids))))
