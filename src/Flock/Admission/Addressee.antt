-- ===== src/Flock/Admission/Addressee.antt =====
-- Who may acknowledge or close a brief, a review or a job.
use agent_mesh.Common.{
  String, ◌≡◌, refl, Bool, true, Option, none, some, List, [], ◌∷◌, arith, ok, opt_eq_iff,
  string_eq, nat_eq, Option-cases, inl, inr, contains, ◌∙◌, sym,
}
use agent_mesh.Common.Maps
use agent_mesh.Flock.Kind.{Kind, kind_eq}
use agent_mesh.Flock.Event.{ContentId, Role, Event, MerkleNode, Signer, SignerClass, fits}
use agent_mesh.Flock.Board.{Board, Entry, Externs, get}
use agent_mesh.Flock.Admission.Signers.{signer_member, role_of}
use agent_mesh.Flock.Admission.Refs.{check_refs, briefs_reviews}
use agent_mesh.Flock.Admission.Table.{Signing, apply_table, addressee_of}
use agent_mesh.Flock.Admission.{verdict_on}
use agent_mesh.Flock.Admission.Checks.{closes-Checked}
use agent_mesh.Flock.Admission.Authority.{is_admitted, admitted_closes}

-- The reference by which a kind acts on work that belongs to a member, and the kinds of that work.
abbrev pub work_role : Kind → Option String
work_role Kind.ack = some "of"
work_role Kind.result = some "brief"
work_role Kind.verdict = some "review"
work_role Kind.job_end = some "job"
work_role _ = none

abbrev pub work_kinds : Kind → List Kind
work_kinds Kind.result = Kind.brief ∷ []
work_kinds Kind.verdict = Kind.review ∷ []
work_kinds Kind.job_end = Kind.job ∷ []
work_kinds _ = briefs_reviews

-- The member that the work belongs to: who started a job, and whom a brief or a review addresses.
abbrev pub owner : Kind → Entry → Option String
owner Kind.job_end e = e.member
owner _ e = addressee_of e.event.body

work_target :
    (board : Board) (ev : Event) (target : Option ContentId) (role : String)
    → work_role ev.kind ≡ some role
    → check_refs board ev ≡ ok target
    → target ≡ Maps.get ev.refs role
unfolding check_refs
work_target board ev target role w h = ground arith

session_signing :
    (board : Board) (k : Kind) (signer : Signer) (m : Signing) (member : String) (pending : Bool)
    → signer.class ≡ SignerClass.session member pending
    → signer_member board k signer ≡ ok m
    → (role : Role) × (m ≡ some (member, role))
unfolding signer_member
session_signing board k signer m member pending e s = elim (Option-cases (role_of board member)) [
  | inl missing ↦ absurd (ground arith)
  | inr (role, found) ↦ (role, ground arith)
]

owned_row :
    (board : Board) (ev : Event) (member : String) (r : Role) (target t : Option ContentId)
    (role : String)
    → work_role ev.kind ≡ some role
    → fits ev.body ev.kind ≡ true
    → apply_table board ev (some (member, r)) target ≡ ok t
    → (cid : ContentId) × (e : Entry) × (target ≡ some cid)
      × (get board cid ≡ some e)
      × (owner ev.kind e ≡ some member)
unfolding apply_table
owned_row board ev member r none t role w f h = absurd (ground arith)
owned_row board ev member r (some cid) t role w f h = elim (Option-cases (get board cid)) [
  | inl missing ↦ absurd (ground arith)
  | inr (e, at) ↦ (
    cid,
    e,
    refl,
    at,
    ground (
      arith,
      opt_eq_iff (addressee_of e.event.body) (some member),
      opt_eq_iff e.member (some member),
    ),
  )
]

work_kind :
    (board : Board) (ev : Event) (cid : ContentId) (e : Entry) (role : String)
    → work_role ev.kind ≡ some role
    → get board cid ≡ some e
    → check_refs board ev ≡ ok (some cid)
    → contains (work_kinds ev.kind) e.event.kind ≡ true
unfolding check_refs
work_kind board ev cid e role w at h = ground arith

-- Sessions acknowledge and close the work of their own member only: a session's admitted ack, result
-- or verdict refers to an admitted brief or review addressed to that member, and its admitted
-- job-end to a job that the member started.
pub admitted-owner :
    (x : Externs) (board : Board) (node : MerkleNode Event) (signer : Signer) (member : String)
    (pending : Bool) (role : String)
    → signer.class ≡ SignerClass.session member pending
    → work_role node.payload.kind ≡ some role
    → is_admitted (verdict_on x board node signer) ≡ true
    → (cid : ContentId) × (e : Entry) × (Maps.get node.payload.refs role ≡ some cid)
      × (get board cid ≡ some e)
      × (contains (work_kinds node.payload.kind) e.event.kind ≡ true)
      × (owner node.payload.kind e ≡ some member)
admitted-owner x board node signer member pending role k w h =
    let (t, cl) = admitted_closes x board node signer h in
    let c = closes-Checked x board node signer t cl in
    let (r, signing) =
      session_signing board node.payload.kind signer c.member member pending k c.signed in
    let (cid, e, target, at, own) =
      owned_row board node.payload member r c.target t role w c.fitting (rw (← signing) c.tabled) in
    (
      cid,
      e,
      sym (work_target board node.payload c.target role w c.referred) ∙ target,
      at,
      work_kind board node.payload cid e role w at (rw (← target) c.referred),
      own,
    )
