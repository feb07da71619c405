-- ===== src/Flock/Admission.antt =====
-- agent-mesh-flock/src/admission.rs: the admission table, (board, event, signer) to a verdict. The checks
-- run here in the order of `decide`, and each is in a module below.
pub mod Signers
pub mod Refs
pub mod Table
pub mod Checks
pub mod Authority
pub mod Addressee
use Signers.{signer_member, writer_chain}
use Refs.{check_refs}
use Table.{apply_table}
use agent_mesh.Common.{
  ℕ, String, ◌≡◌, Bool, true, false, not, Option, none, some, List, str_eq, string_eq, nat_eq, any,
  contains, set_eq, ◌==◌, Result, ok, err, ◌>>=◌, ◌>>◌, fail_if, ok_or,
}
use agent_mesh.Flock.Event.{
  ContentId, FileRef, Event, MerkleNode, Signer, Body, fits, expected_parents,
}
use agent_mesh.Flock.Board.{
  Board, Entry, Externs, Refusal, Verdict, second_closer, admit, conflict, duplicate, refuse, get,
  closer_of, unencodable, wrong_flock, author_mismatch, bad_parents, body_kind_mismatch,
  undeclared_root,
}
use agent_mesh.Flock.Roster.{check_devices, check_roots}

-- The two checks of a roster body.
abbrev pub check_roster : Board → Body → Signer → Result Refusal (Unit {0})
check_roster board (Body.roster members roots) signer = do
  check_devices board members signer
  check_roots board roots signer
check_roster board _ signer = ok tt

unfoldable pub undeclared : Board → List FileRef → Bool
undeclared board files = any (λ f. not (contains board.roots f.root)) files

-- The verdict on the event that closes `closes`, if it closes one.
abbrev pub first_closer : Option ContentId → Verdict
first_closer (some first) = conflict (second_closer first)
first_closer none = admit

abbrev pub conclude : Board → Option ContentId → Verdict
conclude board none = admit
conclude board (some target) = first_closer (closer_of board target)

-- The checks of an event that is not in the log yet; the event that it closes.
unfoldable pub closes :
    Externs → Board → MerkleNode Event → Signer → Result Refusal (Option ContentId)
closes x board node signer = do
  fail_if (not (node.payload.flock == board.flock)) wrong_flock
  fail_if (not (str_eq node.payload.author (x.hex signer.fingerprint))) author_mismatch
  fail_if (not (set_eq node.parents (expected_parents node.payload))) bad_parents
  fail_if (not (fits node.payload.body node.payload.kind)) body_kind_mismatch
  member ← signer_member board node.payload.kind signer
  check_roster board node.payload.body signer
  fail_if (undeclared board node.payload.files) undeclared_root
  writer_chain board node.payload signer.class
  target ← check_refs board node.payload
  apply_table board node.payload member target

abbrev pub check_new : Externs → Board → MerkleNode Event → Signer → Result Refusal Verdict
check_new x board node signer = do target ← closes x board node signer; ok (conclude board target)

abbrev pub decide_id :
    Externs → Board → MerkleNode Event → Signer → Option Entry → Result Refusal Verdict
decide_id x board node signer (some done) = ok (duplicate done.index)
decide_id x board node signer none = check_new x board node signer

unfoldable pub decide : Externs → Board → MerkleNode Event → Signer → Result Refusal Verdict
decide x board node signer = do
  id ← ok_or (x.content_id node) unencodable
  decide_id x board node signer (get board id)

abbrev pub to_verdict : Result Refusal Verdict → Verdict
to_verdict (ok v) = v
to_verdict (err r) = refuse r

-- `admit`.
unfoldable pub verdict_on : Externs → Board → MerkleNode Event → Signer → Verdict
verdict_on x board node signer = to_verdict (decide x board node signer)
