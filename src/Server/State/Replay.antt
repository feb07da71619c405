-- ===== src/Server/State/Replay.antt =====
-- state.rs: replay of what `prepare` sealed.
use agent_mesh.Common.{
  ℕ, ◌≡◌, refl, ap, some, [], ◌∷◌, ==_iff, ==_refl, arith, nat_eq, set_eq_refl, ok, Result-cases,
  Option-cases, inl, inr,
}
use agent_mesh.Protocol.Certs.{CertChain, AgentKey, Signature}
use agent_mesh.Protocol.Certs.Delegated.{Honest, Holds}
use agent_mesh.Protocol.Assertion
use agent_mesh.Protocol.Assertion.{Assertion, root_agent, sign-verify}
use agent_mesh.Flock.Event.{ContentId, Event, MerkleNode, Signer}
use agent_mesh.Server.Errors.{AdmissionRecord, Crates}
use agent_mesh.Server.Chain.{advance, epoch_for, verify_record}
use agent_mesh.Server.Sessions.{cert_of}
use agent_mesh.Server.Sessions.Filed.{IsFiled, observe-IsFiled}
use agent_mesh.Server.Sessions.Observe.{observe}
use agent_mesh.Server.State.{State, Prepared, vet, cited_cert, seal, prepare, apply, commit, replay}

-- What the crates promise: signatures verify, and two certificates do not share an id.
pub record IsFaithful (x : Crates) : Type 0 where
  pub honest : Honest x.keys
  pub distinct :
      (a b : CertChain) (id : ContentId) → x.cert_id a ≡ some id → x.cert_id b ≡ some id → a ≡ b

-- A state whose chain is the one of this server key, which is its own root and verifies in every
-- generation.
pub record IsHosted (x : Crates) (st : State) (key : AgentKey) : Type 0 where
  pub own : key.chain ≡ st.chain.server_cert
  pub rooted : root_agent st.chain.server_cert ≡ st.chain.server_pub
  pub holds : (generation : ℕ) → Holds x.keys key (some generation)
  pub filed : IsFiled x st.sessions

-- The record that admits this event next.
abbrev admission : State → MerkleNode Event → ContentId → ContentId → MerkleNode AdmissionRecord
admission st node id cid = record {
  payload = record {
    index = st.chain.next_index;
    epoch = epoch_for st.chain node.payload.kind;
    event = id;
    cert = cid;
  };
  parents = st.chain.prev ∷ [];
}

-- What `prepare` found on the way.
record Found (x : Crates) (st : State) (key : AgentKey) (node : MerkleNode Event) (sig : Assertion)
    (p : Prepared) : Type 0 where
  author : CertChain
  cid : ContentId
  named : x.externs.content_id node ≡ some p.id
  vetted : vet x st node p.id sig (epoch_for st.chain node.payload.kind) ≡ ok (p.signer, p.conflict)
  cited : x.cert_id sig.author ≡ some cid
  held : cited_cert x st cid ≡ ok author
  event : p.sealed.event ≡ node
  event_sig : p.sealed.event_sig ≡ sig.sig
  record_node : p.sealed.record_node ≡ admission st node p.id cid
  filed_as : x.record_id p.sealed.record_node ≡ some p.record_id
  record_sig : p.sealed.record_sig ≡ (Assertion.sign x.keys x.to_bytes key p.record_id).sig

prepare-Found :
    (x : Crates) (st : State) (key : AgentKey) (node : MerkleNode Event) (sig : Assertion)
    (p : Prepared)
    → prepare x st key node sig ≡ ok p
    → Found x st key node sig p
unfolding prepare seal
prepare-Found x st key node sig p h = elim (Option-cases (x.externs.content_id node)) [
  | inl bad ↦ absurd (ground arith)
  | inr (id, named) ↦
      elim (Result-cases (vet x st node id sig (epoch_for st.chain node.payload.kind))) [
        | inr (e, bad) ↦ absurd (ground arith)
        | inl (who, vetted) ↦ elim (Option-cases (x.cert_id sig.author)) [
          | inl bad ↦ absurd (ground arith)
          | inr (cid, cited) ↦ elim (Result-cases (cited_cert x st cid)) [
            | inr (e, bad) ↦ absurd (ground arith)
            | inl (author, held) ↦ elim (Option-cases (x.record_id (admission st node id cid))) [
              | inl bad ↦ absurd (ground arith)
              | inr (record_id, filed_as) ↦
                  let is : p ≡ record {
                    sealed = record {
                      event = node;
                      event_sig = sig.sig;
                      record_node = admission st node id cid;
                      record_sig = (Assertion.sign x.keys x.to_bytes key record_id).sig;
                    };
                    signer = who.0;
                    conflict = who.1;
                    id = id;
                    record_id = record_id;
                  } =
                    ground arith in
                  rw is (record {
                    author = author;
                    cid = cid;
                    named = named;
                    vetted = vetted;
                    cited = cited;
                    held = held;
                    event = refl;
                    event_sig = refl;
                    record_node = refl;
                    filed_as = filed_as;
                    record_sig = refl;
                  })
            ]
          ]
        ]
      ]
]

-- The entry that `prepare` seals is of the event that it was given.
pub prepare-event :
    (x : Crates) (st : State) (key : AgentKey) (node : MerkleNode Event) (sig : Assertion)
    (p : Prepared)
    → prepare x st key node sig ≡ ok p
    → p.sealed.event ≡ node
prepare-event x st key node sig p h = let f = prepare-Found x st key node sig p h in f.event

pub prepare-record :
    (x : Crates) (st : State) (key : AgentKey) (node : MerkleNode Event) (sig : Assertion)
    (p : Prepared)
    → prepare x st key node sig ≡ ok p
    → (p.sealed.record_node.parents ≡ st.chain.prev ∷ [])
      × (p.sealed.record_node.payload.index ≡ st.chain.next_index)
prepare-record x st key node sig p h =
    let f = prepare-Found x st key node sig p h in
    (ap (λ r. r.parents) f.record_node, ap (λ r. r.payload.index) f.record_node)

-- The certificate that a record cites is the one that the event was signed under.
cited_cert-author :
    (x : Crates) (st : State) (id : ContentId) (c author : CertChain)
    → IsFaithful x
    → IsFiled x st.sessions
    → x.cert_id c ≡ some id
    → cited_cert x st id ≡ ok author
    → author ≡ c
unfolding cited_cert
cited_cert-author x st id c author good filed named held =
    elim (Option-cases (x.cert_id st.chain.server_cert)) [
      | inl bad ↦ absurd (ground arith)
      | inr (own, is) ↦ elim (Option-cases (cert_of st.sessions id)) [
        | inl gone ↦ ground (arith, ==_iff id own, good.distinct st.chain.server_cert c id)
        | inr (a, there) ↦ ground (
          arith,
          ==_iff id own,
          good.distinct st.chain.server_cert c id,
          good.distinct a c id,
          filed.files id a,
        )
      ]
    ]

-- The server's own signature verifies under the chain's certificate and key.
sign-Hosted :
    (x : Crates) (st : State) (key : AgentKey) (id : ContentId) (sig : Signature) (generation : ℕ)
    → IsFaithful x
    → IsHosted x st key
    → sig ≡ (Assertion.sign x.keys x.to_bytes key id).sig
    → Assertion.verify x.keys x.to_bytes
        (record { author = st.chain.server_cert; sig = sig })
        id
        st.chain.server_pub
        generation
      ≡ ok tt
unfolding Assertion.sign
sign-Hosted x st key id sig generation good host is =
    let signed =
      sign-verify x.keys x.to_bytes key id generation good.honest (host.holds generation) in
    ground (arith, host.own, host.rooted, signed)

-- A frame entry that `prepare` sealed is the next record of its chain.
Found-verify_record :
    (x : Crates) (st : State) (key : AgentKey) (node : MerkleNode Event) (sig : Assertion)
    (p : Prepared)
    → IsFaithful x
    → IsHosted x st key
    → Found x st key node sig p
    → verify_record x st.chain p.sealed ≡ ok (p.id, p.record_id)
unfolding verify_record
Found-verify_record x st key node sig p good host f =
    let signed =
      sign-Hosted x st key p.record_id p.sealed.record_sig p.sealed.record_node.payload.epoch good
        host f.record_sig in
    let parents = set_eq_refl (st.chain.prev ∷ []) in
    ground (
      arith,
      signed,
      parents,
      f.record_node,
      f.event,
      f.filed_as,
      f.named,
      ==_refl st.chain.next_index,
      ==_refl p.id,
      ==_refl (epoch_for st.chain node.payload.kind),
    )

-- Replaying the frame entry that `prepare` sealed changes what committing it changed: from a state
-- that this server's key hosts, with crates that keep their promises, whatever `prepare` accepts,
-- `replay` of the sealed entry and `commit` of the preparation give the same result.
pub prepare-replay :
    (x : Crates) (st : State) (key : AgentKey) (node : MerkleNode Event) (sig : Assertion)
    (p : Prepared)
    → IsFaithful x
    → IsHosted x st key
    → prepare x st key node sig ≡ ok p
    → replay x st p.sealed ≡ commit x st p
unfolding replay commit
prepare-replay x st key node sig p good host h =
    let f = prepare-Found x st key node sig p h in
    let ids = Found-verify_record x st key node sig p good host f in
    let author = cited_cert-author x st f.cid sig.author f.author good host.filed f.cited f.held in
    ground (arith, ids, author, f.record_node, f.event, f.event_sig, f.held, f.vetted)

-- Committing keeps the state hosted.
pub apply-IsHosted :
    (x : Crates) (st next : State) (key : AgentKey) (node : MerkleNode Event) (who : Signer)
    (id record_id : ContentId) (rec : AdmissionRecord)
    → IsHosted x st key
    → apply x st node who id record_id rec ≡ ok next
    → IsHosted x next key
unfolding apply advance
apply-IsHosted x st next key node who id record_id rec host h =
    elim (Result-cases (observe x st.sessions id node.payload rec.epoch)) [
      | inr (e, bad) ↦ absurd (ground arith)
      | inl (sessions, seen) ↦ record {
        own = ground (arith, host.own);
        rooted = ground (arith, host.rooted);
        holds = host.holds;
        filed = ground (
          arith,
          observe-IsFiled x st.sessions sessions id node.payload rec.epoch host.filed seen,
        );
      }
    ]
