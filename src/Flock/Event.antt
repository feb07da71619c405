-- ===== src/Flock/Event.antt =====
-- agent-mesh-flock/src/event.rs and signer.rs: the schema of events, and who signed one.
--
-- A `ContentId`, a `RawContentId` and a `Fingerprint` are the numbers that their bytes spell. A
-- `BTreeMap` is an association list in key order.
use agent_mesh.Common.{ℕ, String, Bool, Option, none, some, List, [], ◌∷◌, map, ◌==◌, ◌++◌}
use agent_mesh.Common.Maps.{Map}
use agent_mesh.Protocol.Certs.{CertChain}
use agent_mesh.Protocol.Assertion.{Assertion}
use agent_mesh.Flock.Kind.{Kind, rank}

abbrev pub ContentId : Type 0
ContentId = ℕ

abbrev pub RawContentId : Type 0
RawContentId = ℕ

abbrev pub Fingerprint : Type 0
Fingerprint = ℕ

pub data Role : Type 0 where
  shepherd reviewer helper adapter operator : Role

pub record Member : Type 0 where
  pub name : String
  pub role : Role
  pub devices : List Fingerprint
  pub delegate : Bool

pub data Outcome : Type 0 where
  completed failed : Outcome

pub data EndReason : Type 0 where
  closed lost : EndReason

pub record FileRef : Type 0 where
  pub root : String
  pub path : String
  pub id : RawContentId

-- A node of crate content_addressable: a payload and the set of its parents.
pub record MerkleNode {ℓ} (A : Type ℓ) : Type ℓ where
  pub payload : A
  pub parents : List ContentId

pub record HandoffApproval : Type 0 where
  pub flock : ContentId
  pub member : String
  pub from : String
  pub to : String
  pub resume : ContentId
  pub context : Option FileRef

-- `negsuc n` is -(n + 1).
pub data ℤ : Type 0 where
  pos negsuc : ℕ → ℤ

pub data Body : Type 0 where
  roster : List Member → List String → Body
  brief : String → String → Body
  review : String → String → String → Body
  ack : Body
  result : Outcome → Body
  verdict : String → Bool → Body
  job : String → String → Body
  job_end : Option ℤ → Option ℤ → Body
  ask : Option String → String → Body
  answer : String → Body
  relayed_answer : String → Body
  status : String → Body
  nudged : String → Body
  nudge_misfire : String → String → String → Body
  pane : String → String → Body
  invite : String → RawContentId → Body
  session_start : String → String → CertChain → Body
  session_end : String → EndReason → Body
  handoff :
      String → String → ContentId → Option FileRef → MerkleNode HandoffApproval → Assertion → Body
  epoch : ℕ → Body
  renewal : String → ℕ → CertChain → Body
  device_cert : CertChain → Body

-- The kind that a body belongs to: each variant of `Body::fits` pairs a body with the kind of its
-- name.
abbrev pub body_kind : Body → Kind
body_kind (Body.roster _ _) = Kind.roster
body_kind (Body.brief _ _) = Kind.brief
body_kind (Body.review _ _ _) = Kind.review
body_kind Body.ack = Kind.ack
body_kind (Body.result _) = Kind.result
body_kind (Body.verdict _ _) = Kind.verdict
body_kind (Body.job _ _) = Kind.job
body_kind (Body.job_end _ _) = Kind.job_end
body_kind (Body.ask _ _) = Kind.ask
body_kind (Body.answer _) = Kind.answer
body_kind (Body.relayed_answer _) = Kind.relayed_answer
body_kind (Body.status _) = Kind.status
body_kind (Body.nudged _) = Kind.nudged
body_kind (Body.nudge_misfire _ _ _) = Kind.nudge_misfire
body_kind (Body.pane _ _) = Kind.pane
body_kind (Body.invite _ _) = Kind.invite
body_kind (Body.session_start _ _ _) = Kind.session_start
body_kind (Body.session_end _ _) = Kind.session_end
body_kind (Body.handoff _ _ _ _ _ _) = Kind.handoff
body_kind (Body.epoch _) = Kind.epoch
body_kind (Body.renewal _ _ _) = Kind.renewal
body_kind (Body.device_cert _) = Kind.device_cert

abbrev pub fits : Body → Kind → Bool
fits body kind = rank (body_kind body) == rank kind

pub record Genesis : Type 0 where
  pub kind : String
  pub name : String
  pub server_cert : CertChain
  pub roster : List Member
  pub salt : String

pub record Event : Type 0 where
  pub flock : ContentId
  pub kind : Kind
  pub author : String
  pub prev : Option ContentId
  pub refs : Map String ContentId
  pub files : List FileRef
  pub at : ℕ
  pub body : Body

abbrev pub opt_list : Option ContentId → List ContentId
opt_list none = []
opt_list (some id) = id ∷ []

-- `prev` and every value of `refs`.
abbrev pub expected_parents : Event → List ContentId
expected_parents ev = opt_list ev.prev ++ map (λ r. r.1) ev.refs

abbrev pub node : Event → MerkleNode Event
node ev = record { payload = ev; parents = expected_parents ev }

-- signer.rs
pub data SignerClass : Type 0 where
  server : SignerClass
  session : String → Bool → SignerClass
  operator : SignerClass

pub record Signer : Type 0 where
  pub fingerprint : Fingerprint
  pub class : SignerClass
