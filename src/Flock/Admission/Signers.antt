-- ===== src/Flock/Admission/Signers.antt =====
-- admission.rs: who may sign a kind, and the chain of a writer.
use agent_mesh.Common.{
  String, Bool, true, false, ◌&&◌, Option, none, some, ◌==◌, str_eq, string_eq, nat_eq, opt_eq,
  find, is_none, if◌then◌else◌, Result, ok, err, ◌>>=◌, ◌>>◌, fail_if, ok_or,
}
use agent_mesh.Flock.Kind.{Kind, kind_eq, is_server_kind, rank}
use agent_mesh.Flock.Event.{ContentId, Role, Event, Signer, SignerClass}
use agent_mesh.Flock.Board.{
  Board, Entry, Refusal, get, head_of, pending_session, unknown_member, not_allowed, bad_prev,
  writer_fork, adapter_cannot_ack, not_a_listed_device,
}
use agent_mesh.Flock.Roster.{listed_device}

-- The kinds that the server signs.
abbrev pub server_signs : Kind → Bool
server_signs Kind.roster = true
server_signs kind = is_server_kind kind

abbrev pub is_shepherd : Role → Bool
is_shepherd Role.shepherd = true
is_shepherd _ = false

abbrev pub is_adapter : Role → Bool
is_adapter Role.adapter = true
is_adapter _ = false

-- The kinds that a session of a member with this role may sign.
unfoldable pub session_signs : Kind → Role → Bool
session_signs Kind.roster role = is_shepherd role
session_signs Kind.brief role = is_shepherd role
session_signs Kind.review role = is_shepherd role
session_signs Kind.ack role = true
session_signs Kind.result role = true
session_signs Kind.verdict role = true
session_signs Kind.job role = true
session_signs Kind.job_end role = true
session_signs Kind.ask role = true
session_signs Kind.answer role = false
session_signs Kind.relayed_answer role = true
session_signs Kind.status role = is_adapter role
session_signs Kind.nudged role = is_adapter role
session_signs Kind.nudge_misfire role = is_adapter role
session_signs Kind.pane role = true
session_signs Kind.epoch role = false
session_signs Kind.renewal role = false
session_signs Kind.session_start role = false
session_signs Kind.device_cert role = false
session_signs Kind.session_end role = false
session_signs Kind.handoff role = false
session_signs Kind.invite role = false

abbrev is_ack : Kind → Bool
is_ack kind = rank kind == rank Kind.ack

abbrev operator_row : Board → Kind → Signer → Result Refusal (Option (String × Role))
operator_row board Kind.answer signer =
    if listed_device board signer.fingerprint then ok none else err not_a_listed_device
operator_row board _ signer = err not_allowed

-- The role of the roster's first member of that name.
unfoldable pub role_of : Board → String → Option Role
role_of board member = elim (find (λ m. str_eq m.name member) board.members) [
  | none ↦ none
  | some m ↦ some m.role
]

abbrev session_row : Board → Kind → String → Bool → Result Refusal (Option (String × Role))
session_row board kind member pending = do
  fail_if pending pending_session
  role ← ok_or (role_of board member) unknown_member
  fail_if (is_ack kind && is_adapter role) adapter_cannot_ack
  if session_signs kind role then ok (some (member, role)) else err not_allowed

abbrev class_row : Board → Kind → Signer → SignerClass → Result Refusal (Option (String × Role))
class_row board kind signer SignerClass.server =
    if server_signs kind then ok none else err not_allowed
class_row board kind signer SignerClass.operator = operator_row board kind signer
class_row board kind signer (SignerClass.session member pending) =
    session_row board kind member pending

unfoldable pub signer_member : Board → Kind → Signer → Result Refusal (Option (String × Role))
signer_member board kind signer = class_row board kind signer signer.class

abbrev is_handoff : Kind → Bool
is_handoff kind = rank kind == rank Kind.handoff

-- The arms below `ev.prev == head`: the head, `prev`, and the entry that `prev` names.
abbrev fork_row :
    Event → Option ContentId → Option ContentId → Option Entry → Result Refusal (Unit {0})
fork_row ev none none e = ok tt
fork_row ev none (some p) (some e) = if is_handoff e.event.kind then ok tt else err bad_prev
fork_row ev none (some p) none = err bad_prev
fork_row ev (some h) none e = err writer_fork
fork_row ev (some h) (some p) (some e) =
    if str_eq e.event.author ev.author then err writer_fork else err bad_prev
fork_row ev (some h) (some p) none = err bad_prev

abbrev pub get_prev : Board → Option ContentId → Option Entry
get_prev board none = none
get_prev board (some p) = get board p

abbrev session_chain : Board → Event → Result Refusal (Unit {0})
session_chain board ev =
    if opt_eq ev.prev (head_of board ev.author)
    then ok tt
    else fork_row ev (head_of board ev.author) ev.prev (get_prev board ev.prev)

unfoldable pub writer_chain : Board → Event → SignerClass → Result Refusal (Unit {0})
writer_chain board ev SignerClass.server = ok tt
writer_chain board ev SignerClass.operator = if is_none ev.prev then ok tt else err bad_prev
writer_chain board ev (SignerClass.session member pending) = session_chain board ev
