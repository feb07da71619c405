-- ===== src/Flock/Board.antt =====
-- agent-mesh-flock/src/board.rs: the state of a board and its getters; and, from admission.rs, the
-- types of a decision.
use agent_mesh.Common.{ℕ, String, Option, List, nat_eq, string_eq}
use agent_mesh.Common.Maps
use agent_mesh.Common.Maps.{Map}
use agent_mesh.Flock.Event.{ContentId, Fingerprint, Member, Event, Genesis, MerkleNode}

-- Why an event is refused; where a variant names a reference, by its role.
pub data Refusal : Type 0 where
  unencodable wrong_flock author_mismatch bad_parents body_kind_mismatch pending_session
        unknown_member not_allowed bad_prev writer_fork :
      Refusal
  missing_ref unexpected_ref unknown_ref wrong_ref_kind : String → Refusal
  cross_lane not_addressee adapter_cannot_ack head_mismatch stale_roster too_large devices_locked
        devices_on_non_operator not_a_listed_device delegate_locked multiple_delegates
        duplicate_member roots_locked bad_root undeclared_root bad_claim bad_exit :
      Refusal

pub data ConflictKind : Type 0 where
  second_closer : ContentId → ConflictKind

pub data Verdict : Type 0 where
  admit : Verdict
  conflict : ConflictKind → Verdict
  duplicate : ℕ → Verdict
  refuse : Refusal → Verdict

pub record Entry : Type 0 where
  pub id : ContentId
  pub index : ℕ
  pub event : Event
  pub member : Option String
  pub conflict : Option ConflictKind

pub record Board : Type 0 where
  pub flock : ContentId
  pub roster_id : ContentId
  pub members : List Member
  pub roots : List String
  pub entries : Map ContentId Entry
  pub order : List ContentId
  pub heads : Map String ContentId
  pub closers : Map ContentId ContentId

-- What other crates compute: a node's content id, which fails if the node cannot be encoded, and
-- the hex text of a fingerprint.
pub record Externs : Type 0 where
  pub content_id : MerkleNode Event → Option ContentId
  pub genesis_id : MerkleNode Genesis → Option ContentId
  pub hex : Fingerprint → String

abbrev pub get : Board → ContentId → Option Entry
get board id = Maps.get board.entries id

abbrev pub head_of : Board → String → Option ContentId
head_of board author = Maps.get board.heads author

abbrev pub closer_of : Board → ContentId → Option ContentId
closer_of board target = Maps.get board.closers target
