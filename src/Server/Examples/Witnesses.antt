-- ===== src/Server/Examples/Witnesses.antt =====
-- The server's theorems at the frame of `Server.Examples`, and at a session table.
use agent_mesh.Common.{
  ℕ, ◌≡◌, refl, sym, str_eq, Bool-cases, inl, inr, true, false, none, some, List, [], ◌∷◌, arith,
  string_eq, nat_eq, contains, set_eq, is_subset, any, all, find, filter, distinct, eq_iff, ok,
}
use agent_mesh.Common.Bytes.{take, drop, be_bytes}
use agent_mesh.Common.Maps
use agent_mesh.Protocol.Certs.{agent_pubkey, issue_with, check_generation, verify_inner}
use agent_mesh.Protocol.Certs.Examples.{keys-Honest, worker, worker-Holds}
use agent_mesh.Protocol.Assertion
use agent_mesh.Protocol.Assertion.{root_agent}
use agent_mesh.Flock.Kind.{Kind}
use agent_mesh.Flock.Event.{Event, Body, EndReason}
use agent_mesh.Flock.Board.{Refusal}
use agent_mesh.Flock.Examples.{event}
use agent_mesh.Server.Errors.{RefusalRecord}
use agent_mesh.Server.Chain.{Sealed}
use agent_mesh.Server.Frame.{encode, check}
use agent_mesh.Server.Log
use agent_mesh.Server.Log.{Log, LogError, Parsed, parse}
use agent_mesh.Server.Log.Parsing.{Written}
use agent_mesh.Server.Refusal
use agent_mesh.Server.Refusal.{sign-verify_refusal}
use agent_mesh.Server.Sessions
use agent_mesh.Server.Sessions.{Sessions, Session, Status, session_of}
use agent_mesh.Server.Sessions.Check
use agent_mesh.Server.Sessions.Observe.{observe}
use agent_mesh.Server.Sessions.Single.{observe-IsSingle}
use agent_mesh.Server.Sessions.Single.Table.{IsSingle}
use agent_mesh.Flock.Admission.Signers.{signer_member, writer_chain}
use agent_mesh.Flock.Admission.Refs.{check_specs, check_refs}
use agent_mesh.Flock.Admission.Table.{apply_table}
use agent_mesh.Flock.Admission.{undeclared, closes, decide, verdict_on}
use agent_mesh.Flock.Log as FlockLog
use agent_mesh.Server.Chain
use agent_mesh.Server.Sessions.Resolve.{resolve}
use agent_mesh.Server.Sessions.Observe.{first_link}
use agent_mesh.Server.State
use agent_mesh.Server.State.{replay, commit, prepare, seal, vet, cited_cert}
use agent_mesh.Server.State.{Spec}
use agent_mesh.Server.State.Rebuild.{server_event}
use agent_mesh.Server.Transact.{frame_fits, append, staged, transact}
use agent_mesh.Server.Transact.Staged.{shaped, transact-IsServing}
use agent_mesh.Server.State.Replay.{prepare-replay}
use agent_mesh.Server.State.Rebuild.{rebuild, rebuild_frames}
use agent_mesh.Server.Transact.{Server, Host}
use agent_mesh.Server.Transact.Recovery.{IsSound, IsServing}
use agent_mesh.Server.Follow
use agent_mesh.Server.Follow.{Follower, head_after, apply-Commits}
use agent_mesh.Server.State.{check_frame_shape}
use agent_mesh.Server.State.Rebuild.{drops_unbumped}
use agent_mesh.Server.State.Committed.{Commits}
use agent_mesh.Server.Admit.{Receipt, admit}
use agent_mesh.Server.Admit.Recovery.{Acknowledged, admit-IsServing}
use agent_mesh.Server.Examples.{
  crates, crates-IsFaithful, first_state, first-IsHosted, bump_node, bump_sig, bump_sealed, bumped,
  bump_prepared, genesis_state-first, fresh,
}
use agent_mesh.Server.Examples.Codec.{frames, frames-IsFaithful}

prepare-replay_example : replay crates first_state bump_sealed ≡ commit crates first_state bumped
prepare-replay_example =
    prepare-replay crates first_state worker bump_node bump_sig bumped crates-IsFaithful
      first-IsHosted bump_prepared

-- The helper's session, and its end.
abbrev helping : Session
helping = record {
  member = "help";
  pubkey = 8;
  start = 4;
  status = Status.active;
  certs = 6 ∷ [];
  epoch = 0;
  activated_by = none;
}

abbrev table : Sessions
table = record Sessions.default {
  sessions = ("08", helping) ∷ [];
  seen = "help" ∷ [];
  holders = ("help", "08") ∷ [];
}

abbrev ended : Sessions
ended = record table { sessions = ("08", record helping { status = Status.ended }) ∷ [] }

table-IsSingle : IsSingle table
unfolding Maps.get contains
table-IsSingle = record {
  held = λ key a. λ at live. elim (Bool-cases (str_eq "08" key)) [
    | inl same ↦
        let is : helping ≡ a = ground arith in rw (sym is) (ground (arith, eq_iff "08" key))
    | inr other ↦ absurd (ground arith)
  ];
  known = λ key a. λ at. elim (Bool-cases (str_eq "08" key)) [
    | inl same ↦ let is : helping ≡ a = ground arith in rw (sym is) refl
    | inr other ↦ absurd (ground arith)
  ];
}

abbrev goodbye : Event
goodbye =
    event Kind.session_end "07" none (("session", 4) ∷ []) 5 (Body.session_end "08" EndReason.lost)

goodbye_checked : Check.check crates table first_state.board goodbye 0 first_state.chain ≡ ok tt
unfolding Check.check Maps.get
goodbye_checked = refl

goodbye_observed : observe crates table 15 goodbye 0 ≡ ok ended
unfolding observe Maps.get Maps.insert
goodbye_observed = refl

observe-IsSingle_example : IsSingle ended
observe-IsSingle_example =
    observe-IsSingle crates table ended first_state.board 15 goodbye 0 first_state.chain
      table-IsSingle goodbye_checked goodbye_observed

-- The first refusal.
abbrev denied : RefusalRecord
denied = record { event = 12; author = "08"; reason = Refusal.not_allowed; admitted = 0 }

abbrev entry : Refusal.RefusalEntry
entry = record {
  node = record { payload = denied; parents = 1 ∷ [] };
  sig = record { author = worker.chain; sig = 7 };
}

denied_signed : Refusal.sign crates worker 1 denied ≡ ok entry
unfolding Refusal.sign Assertion.sign issue_with
denied_signed = refl

worker_root : root_agent worker.chain ≡ 7
unfolding root_agent issue_with
worker_root = refl

sign-verify_refusal_example :
    (id : ℕ) × (crates.refusal_id entry.node ≡ some id)
    × (Refusal.verify crates entry 1 (agent_pubkey worker.chain) 3 0 0 ≡ ok id)
unfolding issue_with
sign-verify_refusal_example =
    sign-verify_refusal crates worker 1 denied entry 3 0 0 keys-Honest worker-Holds worker_root
      (omega arith) (omega arith) denied_signed

abbrev host : Host
host = record {
  crates = crates;
  frames = frames;
  entries = record { to_cbor = λ e. none; from_cbor = λ b. none; hash = λ m. [] };
  resp_frame = λ f. some [];
}

host-IsSound : IsSound host
host-IsSound = record { crates = crates-IsFaithful; frames = frames-IsFaithful }

fresh-IsServing : IsServing host fresh []
unfolding rebuild rebuild_frames
fresh-IsServing = record {
  hosted = first-IsHosted;
  clean = record { held = Written.nothing; ends = refl; whole = refl };
  rebuilt = rw genesis_state-first refl;
}

abbrev receipt : Receipt
receipt = record { index = 1; duplicate = false; conflict = none }

abbrev after : Server
after = (admit host fresh bump_node bump_sig).0

bump_admitted : admit host fresh bump_node bump_sig ≡ (after, ok receipt)
unfolding admit prepare seal vet cited_cert resolve Check.check first_link Chain.epoch_for
    Assertion.verify Assertion.sign root_agent verify_inner check_generation verdict_on decide
    closes undeclared check_specs check_refs writer_chain signer_member apply_table Maps.get set_eq
    contains is_subset all any find filter distinct issue_with frame_fits append Log.append encode
    check be_bytes take drop commit State.apply observe Chain.advance FlockLog.apply
bump_admitted = refl

admit-IsServing_example : Acknowledged host fresh [] bump_node 11 after receipt
admit-IsServing_example =
    admit-IsServing host host-IsSound fresh [] fresh-IsServing bump_node bump_sig 11 after receipt
      refl bump_admitted

-- The same bump as a transaction of the server's own.
abbrev bump_spec : Spec
bump_spec = record { kind = Kind.epoch; refs = []; body = Body.epoch 1 }

abbrev transacted : Server
transacted = (transact host fresh (bump_spec ∷ [])).0

bump_transacted : transact host fresh (bump_spec ∷ []) ≡ (transacted, ok (11 ∷ []))
unfolding transact staged server_event prepare seal vet cited_cert resolve Check.check first_link
    Chain.epoch_for Assertion.verify Assertion.sign root_agent verify_inner check_generation
    verdict_on decide closes undeclared check_specs check_refs writer_chain signer_member
    apply_table Maps.get set_eq contains is_subset all any find filter distinct issue_with
    frame_fits append Log.append encode check be_bytes take drop commit State.apply observe
    Chain.advance FlockLog.apply
bump_transacted = refl

bump_shaped : shaped (bump_spec ∷ []) ≡ true
unfolding shaped
bump_shaped = refl

transact-IsServing_example : (frame : List Sealed) × IsServing host transacted ((0, frame) ∷ [])
transact-IsServing_example =
    transact-IsServing host fresh transacted [] bump_spec [] (11 ∷ []) host-IsSound fresh-IsServing
      bump_shaped bump_transacted

-- A follower at genesis.
abbrev follower : Follower
follower = record { st = first_state; head = none }

abbrev moved : State.State
moved = transacted.st

bump-Commits : Commits crates worker first_state (bump_sealed ∷ []) moved
unfolding transact staged server_event prepare seal vet cited_cert resolve Check.check first_link
    Chain.epoch_for Assertion.verify Assertion.sign root_agent verify_inner check_generation
    verdict_on decide closes undeclared check_specs check_refs writer_chain signer_member
    apply_table Maps.get set_eq contains is_subset all any find filter distinct issue_with
    frame_fits append Log.append encode check be_bytes take drop commit State.apply observe
    Chain.advance FlockLog.apply drops_unbumped
bump-Commits = Commits.then bump_node bump_sig bumped bump_prepared refl refl Commits.nothing

bump_shape : check_frame_shape (bump_sealed ∷ []) ≡ ok tt
unfolding check_frame_shape
bump_shape = refl

apply-Commits_example :
    Follow.apply crates follower (bump_sealed ∷ [])
    ≡ ok (record { st = moved; head = some (head_after bump_sealed) })
apply-Commits_example =
    apply-Commits crates worker follower moved bump_sealed [] crates-IsFaithful first-IsHosted
      bump-Commits bump_shape
