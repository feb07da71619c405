-- ===== src/Server/Examples.antt =====
-- A server of the flock of `Flock.Examples`, whose key is the worker's, and its first frame, an epoch
-- bump.
pub mod Codec
mod Witnesses
mod Readers
mod Logs
use agent_mesh.Common.{
  ℕ, ◌+◌, String, ◌≡◌, refl, Bool, true, false, not, ◌&&◌, Option, none, some, List, [], ◌∷◌, ◌==◌,
  ==_iff, str_eq, eq_iff, list_eq, string_eq, is_none, arith, set_eq, contains, is_subset, all, any,
  find, filter, distinct, if◌then◌else◌, Result, ok, err,
}
use agent_mesh.Common.Maps
use agent_mesh.Protocol.Caveats
use agent_mesh.Protocol.Caveats.{Caveats}
use agent_mesh.Protocol.Caveats.Scope
use agent_mesh.Protocol.Caveats.Scope.{Scope}
use agent_mesh.Protocol.Caveats.CountBound.{CountBound, unlimited, at_most}
use agent_mesh.Protocol.Certs.{CertChain, Issuer, cert, user, agent, AgentMetadata, AgentKey}
use agent_mesh.Protocol.Certs.Delegated.{Holds, issue_with-Holds}
use agent_mesh.Protocol.Certs.Examples.{keys, keys-Honest, worker, unbounded}
use agent_mesh.Protocol.Assertion
use agent_mesh.Protocol.Assertion.{Assertion}
use agent_mesh.Flock.Kind.{Kind, rank}
use agent_mesh.Flock.Event.{ContentId, Event, Body, MerkleNode, node}
use agent_mesh.Flock.Examples.{externs, genesis, event}
use agent_mesh.Flock.Log
use agent_mesh.Flock.Event.{SignerClass}
use agent_mesh.Server.Errors.{Crates, ServerError}
use agent_mesh.Server.Chain
use agent_mesh.Server.Chain.{Sealed}
use agent_mesh.Server.Sessions
use agent_mesh.Server.Sessions.Filed.{default-IsFiled}
use agent_mesh.Protocol.Certs.{check_generation, issue_with}
use agent_mesh.Protocol.Assertion.{root_agent}
use agent_mesh.Flock.Admission.Signers.{signer_member, writer_chain}
use agent_mesh.Flock.Admission.Refs.{check_specs, check_refs}
use agent_mesh.Flock.Admission.Table.{apply_table}
use agent_mesh.Flock.Admission.{undeclared, closes, decide, verdict_on}
use agent_mesh.Protocol.Certs.{verify_inner}
use agent_mesh.Server.Sessions.Resolve.{resolve}
use agent_mesh.Server.Sessions.Check.{check}
use agent_mesh.Server.Sessions.Observe.{first_link}
use agent_mesh.Server.Transact.{Server}
use agent_mesh.Server.State.{State, Prepared, prepare, seal, vet, cited_cert}
use agent_mesh.Server.State.Replay.{IsFaithful, IsHosted}
use agent_mesh.Server.State.Rebuild.{genesis_state}

abbrev is_all {ℓ} : {A : Type ℓ} → Scope A → Bool
is_all Scope.all = true
is_all (Scope.only xs) = false

abbrev is_unlimited : CountBound → Bool
is_unlimited unlimited = true
is_unlimited (at_most n) = false

abbrev is_top : Caveats → Bool
is_top c =
    is_all c.fs_read
    && (is_all c.fs_write
        && (is_all c.exec
            && (is_all c.net && (is_unlimited c.max_calls && is_all c.valid_for_generation))))

abbrev is_unbounded : AgentMetadata → Bool
is_unbounded m =
    str_eq m.role "phone"
    && (str_eq m.host ""
        && (list_eq m.capabilities []
            && (str_eq m.issued_at "" && (is_none m.expires_at && is_top m.caveats))))

-- The certificate is the worker's.
abbrev pub is_worker : CertChain → Bool
is_worker (cert k meta (user u) sig) = k == 7 && (u == 1 && (sig == 1 && is_unbounded meta))
is_worker (cert k meta (agent by parent) sig) = false

is_top_sound : (c : Caveats) → is_top c ≡ true → c ≡ Caveats.top
is_top_sound c h = ground arith

is_unbounded_sound : (m : AgentMetadata) → is_unbounded m ≡ true → m ≡ unbounded
is_unbounded_sound m h =
    ground (
      arith,
      is_top_sound m.caveats,
      eq_iff m.role "phone",
      eq_iff m.host "",
      eq_iff m.issued_at "",
    )

is_worker_sound : (c : CertChain) → is_worker c ≡ true → c ≡ cert 7 unbounded (user 1) 1
is_worker_sound (cert k meta (user u) sig) h = ground (arith, is_unbounded_sound meta)
is_worker_sound (cert k meta (agent by parent) sig) h = absurd (ground arith)

-- An id for the worker's certificate only.
abbrev pub crates : Crates
crates = record {
  externs = externs;
  keys = keys;
  to_bytes = λ i. i ∷ [];
  approval_id = λ a. some 2;
  record_id = λ r. some (r.payload.index + 100);
  refusal_id = λ r. some (r.payload.admitted + 200);
  cert_id = λ c. if is_worker c then some 5 else none;
}

pub crates-IsFaithful : IsFaithful crates
crates-IsFaithful = record {
  honest = keys-Honest;
  distinct = λ a b id. λ h k. ground (arith, is_worker_sound a, is_worker_sound b);
}

-- The state at genesis.
abbrev pub first_state : State
first_state = record {
  board = record {
    flock = 1;
    roster_id = 1;
    members = genesis.payload.roster;
    roots = [];
    entries = [];
    order = [];
    heads = [];
    closers = [];
  };
  chain = record {
    prev = 1;
    next_index = 1;
    epoch = 0;
    server_pub = 7;
    server_cert = worker.chain;
    user = 1;
  };
  sessions = Sessions.default;
}

pub genesis_state-first : genesis_state crates genesis ≡ ok first_state
unfolding genesis_state Log.new Log.start Chain.new issue_with
genesis_state-first = refl

worker_any : (generation : ℕ) → Holds keys worker (some generation)
unfolding check_generation
worker_any generation = issue_with-Holds keys 1 7 unbounded (some generation) keys-Honest refl

pub first-IsHosted : IsHosted crates first_state worker
unfolding root_agent issue_with
first-IsHosted = record {
  own = refl;
  rooted = refl;
  holds = worker_any;
  filed = default-IsFiled crates;
}

-- The server's own bump to epoch 1.
abbrev pub bump_node : MerkleNode Event
bump_node = node (event Kind.epoch "07" none [] 1 (Body.epoch 1))

abbrev pub bump_sig : Assertion
bump_sig = record { author = worker.chain; sig = 7 }

abbrev pub bump_sealed : Sealed
bump_sealed = record {
  event = bump_node;
  event_sig = 7;
  record_node = record {
    payload = record { index = 1; epoch = 1; event = 11; cert = 5 };
    parents = 1 ∷ [];
  };
  record_sig = 7;
}

abbrev pub bumped : Prepared
bumped = record {
  sealed = bump_sealed;
  signer = record { fingerprint = 7; class = SignerClass.server };
  conflict = none;
  id = 11;
  record_id = 101;
}

pub bump_prepared : prepare crates first_state worker bump_node bump_sig ≡ ok bumped
unfolding prepare seal vet cited_cert resolve check first_link Chain.epoch_for Assertion.verify
    Assertion.sign root_agent verify_inner check_generation verdict_on decide closes undeclared
    check_specs check_refs writer_chain signer_member apply_table Maps.get set_eq contains is_subset
    all any find filter distinct issue_with
bump_prepared = refl

-- The server before its first frame.
abbrev pub fresh : Server
fresh = record {
  key = worker;
  genesis = genesis;
  st = first_state;
  log = record { file = []; end = 0; cut = none; plan = none; syncs = 0 };
  refusal_log = record { file = []; end = 0; cut = none; plan = none; syncs = 0 };
  refusals = [];
  refusal_prev = 1;
  challenges = [];
  poisoned = false;
  journal = [];
}
