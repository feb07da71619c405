-- ===== src/Flock/Examples.antt =====
-- A small flock: a shepherd, a helper and an operator with one device; and a log with a brief, its
-- ack, its result and a second result.
mod Witnesses
use agent_mesh.Common.{
  ℕ, ◌+◌, String, ◌≡◌, refl, Bool, true, false, Option, none, some, List, [], ◌∷◌, ◌==◌,
  if◌then◌else◌, Result, ok, err, arith, any, all, find, filter, contains, is_subset, set_eq,
  distinct,
}
use agent_mesh.Common.Maps
use agent_mesh.Protocol.Certs.Examples.{worker}
use agent_mesh.Flock.Kind.{Kind}
use agent_mesh.Flock.Event.{
  ContentId, Fingerprint, Role, Outcome, Member, Event, Genesis, MerkleNode, Body, Signer,
  SignerClass, node,
}
use agent_mesh.Flock.Board.{Board, Entry, Externs, Verdict, Refusal, get, closer_of}
use agent_mesh.Flock.Roster.{
  roster_well_formed, devices_fit, delegate_of, check_devices, check_roots, roots_well_formed,
}
use agent_mesh.Flock.Admission.Signers.{session_signs, role_of, signer_member, writer_chain}
use agent_mesh.Flock.Admission.Refs.{check_specs, check_refs}
use agent_mesh.Flock.Admission.Table.{apply_table}
use agent_mesh.Flock.Admission.{undeclared, closes, decide, verdict_on}
use agent_mesh.Flock.Log.{
  LogEntry, FoldError, apply, enter, closed_by, closers_after, roster_after, start, new, fold_from,
  fold,
}

-- An id for a node by its claimed time, and a text for a fingerprint.
abbrev pub time_id : MerkleNode Event → Option ContentId
time_id n = some (n.payload.at + 10)

abbrev pub fingerprint_text : Fingerprint → String
fingerprint_text f = if f == 7 then "07" else if f == 8 then "08" else "09"

abbrev pub externs : Externs
externs = record { content_id = time_id; genesis_id = λ g. some 1; hex = fingerprint_text }

abbrev pub genesis : MerkleNode Genesis
genesis = record {
  payload = record {
    kind = "genesis";
    name = "flock";
    server_cert = worker.chain;
    roster =
        record { name = "shep"; role = Role.shepherd; devices = []; delegate = false }
        ∷ record { name = "help"; role = Role.helper; devices = []; delegate = false }
        ∷ record { name = "op"; role = Role.operator; devices = 9 ∷ []; delegate = true }
        ∷ [];
    salt = "";
  };
  parents = [];
}

abbrev pub shepherd_signer : Signer
shepherd_signer = record { fingerprint = 7; class = SignerClass.session "shep" false }

abbrev pub helper_signer : Signer
helper_signer = record { fingerprint = 8; class = SignerClass.session "help" false }

abbrev pub event : Kind → String → Option ContentId → Maps.Map String ContentId → ℕ → Body → Event
event kind author prev refs at body = record {
  flock = 1;
  kind = kind;
  author = author;
  prev = prev;
  refs = refs;
  files = [];
  at = at;
  body = body;
}

abbrev pub brief : LogEntry
brief = record {
  node = node (event Kind.brief "07" none [] 1 (Body.brief "help" "lane"));
  signer = shepherd_signer;
}

abbrev pub ack : LogEntry
ack = record {
  node = node (event Kind.ack "08" none (("of", 11) ∷ []) 2 Body.ack);
  signer = helper_signer;
}

abbrev pub result : LogEntry
result = record {
  node =
      node
        (event Kind.result "08" (some 12) (("brief", 11) ∷ []) 3 (Body.result Outcome.completed));
  signer = helper_signer;
}

abbrev pub second_result : LogEntry
second_result = record {
  node =
      node (event Kind.result "08" (some 13) (("brief", 11) ∷ []) 4 (Body.result Outcome.failed));
  signer = helper_signer;
}

abbrev pub log : List LogEntry
log = brief ∷ ack ∷ result ∷ second_result ∷ []

-- The board after the log; its line opens all that a run computes with.
pub final : Board
unfolding verdict_on decide closes signer_member session_signs role_of undeclared writer_chain
    check_refs check_specs apply_table apply enter closed_by closers_after roster_after start new
    fold_from fold any all find filter contains is_subset set_eq distinct Maps.get Maps.insert
final = board_of (fold externs genesis log)
  where
    board_of : Result FoldError Board → Board
    board_of (ok b) = b
    board_of (err e) = start 1 genesis

runs : fold externs genesis log ≡ ok final
unfolding final
runs = refl

-- The first result closes the brief; the second is a conflict and closes nothing.
first_closes : closer_of final 11 ≡ some 13
unfolding final
first_closes = refl

second_conflicts : (apply externs final second_result).1 ≡ Verdict.duplicate 4
unfolding final
second_conflicts = refl

-- The board behind the brief alone.
pub briefed : Board
unfolding final
briefed = (apply externs (start 1 genesis) brief).0

brief_held :
    get briefed 11
    ≡ some (record {
      id = 11;
      index = 1;
      event = brief.node.payload;
      member = some "shep";
      conflict = none;
    })
unfolding briefed
brief_held = refl

-- The board behind the brief and its ack, and behind the first result too.
pub acked : Board
unfolding briefed
acked = (apply externs briefed ack).0

pub closed_board : Board
unfolding acked
closed_board = (apply externs acked result).0
