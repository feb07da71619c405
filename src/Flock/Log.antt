-- ===== src/Flock/Log.antt =====
-- agent-mesh-flock/src/board.rs: recording an admitted event, and the fold of a log.
pub mod Applied
pub mod Closing
pub mod Growth
pub mod Induction
pub mod Invariant
pub mod Rosters
use agent_mesh.Common.{
  ℕ, ◌+◌, String, ◌≡◌, Bool, true, false, Option, none, some, List, [], ◌∷◌, ◌++◌, length, nat_eq,
  string_eq, Result, ok, err, ◌>>=◌, ok_or, is_none,
}
use agent_mesh.Common.Maps
use agent_mesh.Common.Maps.{Map}
use agent_mesh.Flock.Kind.{Kind}
use agent_mesh.Flock.Event.{
  ContentId, Member, Event, Genesis, MerkleNode, Body, Signer, SignerClass,
}
use agent_mesh.Flock.Board.{
  Board, Entry, Externs, Refusal, Verdict, ConflictKind, admit, conflict, duplicate, refuse,
  unencodable,
}
use agent_mesh.Flock.Admission.{verdict_on}

pub record LogEntry : Type 0 where
  pub node : MerkleNode Event
  pub signer : Signer

pub record FoldError : Type 0 where
  pub position : ℕ
  pub refusal : Refusal

-- The reference by which an event of this kind closes another.
abbrev pub closing_role : Kind → Option String
closing_role Kind.result = some "brief"
closing_role Kind.verdict = some "review"
closing_role Kind.job_end = some "job"
closing_role Kind.answer = some "ask"
closing_role _ = none

abbrev pub named_ref : Map String ContentId → Option String → Option ContentId
named_ref refs none = none
named_ref refs (some role) = Maps.get refs role

unfoldable pub closed_by : Event → Option ContentId
closed_by ev = named_ref ev.refs (closing_role ev.kind)

abbrev pub signing_member : SignerClass → Option String
signing_member (SignerClass.session member pending) = some member
signing_member _ = none

abbrev pub add_closer :
    Map ContentId ContentId
    → ContentId
    → Option ContentId
    → Option ConflictKind
    → Map ContentId ContentId
add_closer closers id (some target) none = Maps.insert closers target id
add_closer closers id _ _ = closers

unfoldable pub closers_after :
    Map ContentId ContentId → ContentId → Event → Option ConflictKind → Map ContentId ContentId
closers_after closers id ev c = add_closer closers id (closed_by ev) c

-- The roster after an event: its id, members and roots.
abbrev pub Rosters : Type 0
Rosters = ContentId × List Member × List String

abbrev pub roster_of : Rosters → ContentId → Kind → Body → Option ConflictKind → Rosters
roster_of now id Kind.roster (Body.roster members roots) none = (id, members, roots)
roster_of now id _ _ _ = now

unfoldable pub roster_after : Board → ContentId → Event → Option ConflictKind → Rosters
roster_after board id ev c =
    roster_of (board.roster_id, board.members, board.roots) id ev.kind ev.body c

-- The part of `apply` behind the verdict and the id.
unfoldable pub enter : Board → ContentId → LogEntry → Option ConflictKind → Board
enter board id e c =
    let (roster_id, members, roots) = roster_after board id e.node.payload c in
    record board {
      roster_id = roster_id;
      members = members;
      roots = roots;
      entries = Maps.insert board.entries id (record {
        id = id;
        index = length board.order + 1;
        event = e.node.payload;
        member = signing_member e.signer.class;
        conflict = c;
      });
      order = board.order ++ id ∷ [];
      heads = Maps.insert board.heads e.node.payload.author id;
      closers = closers_after board.closers id e.node.payload c;
    }

abbrev enter_id :
    Board → LogEntry → Verdict → Option ConflictKind → Option ContentId → Board × Verdict
enter_id board e verdict c none = (board, refuse unencodable)
enter_id board e verdict c (some id) = (enter board id e c, verdict)

abbrev apply_verdict : Board → LogEntry → Option ContentId → Verdict → Board × Verdict
apply_verdict board e id admit = enter_id board e admit none id
apply_verdict board e id (conflict kind) = enter_id board e (conflict kind) (some kind) id
apply_verdict board e id (duplicate n) = (board, duplicate n)
apply_verdict board e id (refuse r) = (board, refuse r)

unfoldable pub apply : Externs → Board → LogEntry → Board × Verdict
apply x board e = apply_verdict board e (x.content_id e.node) (verdict_on x board e.node e.signer)

unfoldable pub start : ContentId → MerkleNode Genesis → Board
start flock genesis = record {
  flock = flock;
  roster_id = flock;
  members = genesis.payload.roster;
  roots = [];
  entries = [];
  order = [];
  heads = [];
  closers = [];
}

-- `Board::new`.
unfoldable pub new : Externs → MerkleNode Genesis → Option Board
new x genesis = elim (x.genesis_id genesis) [
  | none ↦ none
  | some flock ↦ some (start flock genesis)
]

abbrev pub refusal_of : Verdict → Option Refusal
refusal_of (refuse r) = some r
refusal_of _ = none

unfoldable pub fold_from : Externs → ℕ → Board → List LogEntry → Result FoldError Board
fold_from x position board [] = ok board
fold_from x position board (e ∷ log) = elim (refusal_of (apply x board e).1) [
  | some refusal ↦ err (record { position = position; refusal = refusal })
  | none ↦ fold_from x (position + 1) (apply x board e).0 log
]

unfoldable pub fold : Externs → MerkleNode Genesis → List LogEntry → Result FoldError Board
fold x genesis log = do
  board ← ok_or (new x genesis) (record { position = 0; refusal = unencodable })
  fold_from x 0 board log
