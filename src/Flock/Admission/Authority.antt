-- ===== src/Flock/Admission/Authority.antt =====
-- Who may get what admitted: the rows of the admission table, as facts about every admitted event.
use agent_mesh.Common.{
  String, ◌≡◌, refl, Bool, true, false, Option, none, some, arith, ok, opt_eq, opt_eq_iff,
  string_eq, nat_eq, Option-cases, Bool-cases, inl, inr, ◌⊎◌,
}
use agent_mesh.Flock.Kind.{Kind, Kind-eq_iff}
use agent_mesh.Flock.Event.{ContentId, Role, Event, MerkleNode, Signer, SignerClass}
use agent_mesh.Flock.Board.{
  Board, Entry, Externs, Verdict, admit, conflict, duplicate, refuse, get, head_of,
}
use agent_mesh.Flock.Roster.{listed_device}
use agent_mesh.Flock.Admission.Signers.{
  signer_member, server_signs, session_signs, role_of, is_adapter, writer_chain,
}
use agent_mesh.Flock.Admission.Table.{Signing}
use agent_mesh.Flock.Admission.{closes, verdict_on, decide}
use agent_mesh.Flock.Admission.Checks.{closes-Checked}

-- Admitted, plainly or as a conflict.
abbrev pub is_admitted : Verdict → Bool
is_admitted admit = true
is_admitted (conflict k) = true
is_admitted (duplicate n) = false
is_admitted (refuse r) = false

pub admitted_closes :
    (x : Externs) (board : Board) (node : MerkleNode Event) (signer : Signer)
    → is_admitted (verdict_on x board node signer) ≡ true
    → (t : Option ContentId) × (closes x board node signer ≡ ok t)
unfolding verdict_on decide
admitted_closes x board node signer h = ground arith

-- What each class of signer needs, for an event of this kind.
abbrev pub MaySign : Board → Event → Signer → SignerClass → Type 0
MaySign board ev signer SignerClass.server = server_signs ev.kind ≡ true
MaySign board ev signer SignerClass.operator =
    (ev.kind ≡ Kind.answer) × (listed_device board signer.fingerprint ≡ true) × (ev.prev ≡ none)
MaySign board ev signer (SignerClass.session member pending) =
    (pending ≡ false)
    × (role : Role) × (role_of board member ≡ some role)
    × (session_signs ev.kind role ≡ true)
    × (ev.kind ≡ Kind.ack → is_adapter role ≡ false)

operator_prev :
    (board : Board) (ev : Event)
    → writer_chain board ev SignerClass.operator ≡ ok tt
    → ev.prev ≡ none
unfolding writer_chain
operator_prev board ev h = ground arith

class_MaySign :
    (board : Board) (ev : Event) (signer : Signer) (m : Signing) (c : SignerClass)
    → signer.class ≡ c
    → signer_member board ev.kind signer ≡ ok m
    → writer_chain board ev c ≡ ok tt
    → MaySign board ev signer c
unfolding signer_member
class_MaySign board ev signer m SignerClass.server e s w = ground arith
class_MaySign board ev signer m SignerClass.operator e s w =
    (ground arith, ground arith, operator_prev board ev w)
class_MaySign board ev signer m (SignerClass.session member pending) e s w =
    elim (Option-cases (role_of board member)) [
      | inl missing ↦ absurd (ground arith)
      | inr (role, found) ↦ (ground arith, role, found, ground arith, λ k. ground arith)
    ]

-- Every admitted event was signed by a class that may sign its kind: the server its own kinds; an
-- operator only answers, unchained, from a device that the roster lists now; a session only if it
-- is not pending, its member is on the roster with a role that signs the kind, and never an ack for
-- an adapter.
pub admitted-MaySign :
    (x : Externs) (board : Board) (node : MerkleNode Event) (signer : Signer)
    → is_admitted (verdict_on x board node signer) ≡ true
    → MaySign board node.payload signer signer.class
admitted-MaySign x board node signer h =
    let (t, e) = admitted_closes x board node signer h in
    let c = closes-Checked x board node signer t e in
    class_MaySign board node.payload signer c.member signer.class refl c.signed c.chained

-- Where the event of a session writer may stand: on the head of its chain, or, as its first event,
-- on a hand-off.
abbrev pub Chains : Board → Event → Type 0
Chains board ev =
    (ev.prev ≡ head_of board ev.author)
    ⊎ ((head_of board ev.author ≡ none)
        × (p : ContentId) × (e : Entry) × (ev.prev ≡ some p)
        × (get board p ≡ some e)
        × (e.event.kind ≡ Kind.handoff))

first_link :
    (board : Board) (ev : Event) (p : ContentId)
    → ev.prev ≡ some p
    → opt_eq ev.prev (head_of board ev.author) ≡ false
    → (member : String) (pending : Bool)
    → writer_chain board ev (SignerClass.session member pending) ≡ ok tt
    → Chains board ev
unfolding writer_chain
first_link board ev p prev off member pending w = elim (Option-cases (get board p)) [
  | inl missing ↦ absurd (ground arith)
  | inr (e, found) ↦
      inr
        (ground arith, p, e, prev, found, (Kind-eq_iff e.event.kind Kind.handoff).0 (ground arith))
]

session_Chains :
    (board : Board) (ev : Event) (member : String) (pending : Bool)
    → writer_chain board ev (SignerClass.session member pending) ≡ ok tt
    → Chains board ev
unfolding writer_chain
session_Chains board ev member pending w =
    elim (Bool-cases (opt_eq ev.prev (head_of board ev.author))) [
      | inl on ↦ inl ((opt_eq_iff ev.prev (head_of board ev.author)).0 on)
      | inr off ↦ elim (Option-cases ev.prev) [
        | inl p ↦ inl (ground arith)
        | inr (p, prev) ↦ first_link board ev p prev off member pending w
      ]
    ]

-- No writer fork is admitted: a session's admitted event stands on the author's head as it is now,
-- or is the author's first and stands on an admitted hand-off.
pub admitted-Chains :
    (x : Externs) (board : Board) (node : MerkleNode Event) (signer : Signer) (member : String)
    (pending : Bool)
    → signer.class ≡ SignerClass.session member pending
    → is_admitted (verdict_on x board node signer) ≡ true
    → Chains board node.payload
admitted-Chains x board node signer member pending k h =
    let (t, e) = admitted_closes x board node signer h in
    let c = closes-Checked x board node signer t e in
    session_Chains board node.payload member pending (rw (← k) c.chained)
