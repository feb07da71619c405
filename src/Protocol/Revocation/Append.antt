-- ===== src/Protocol/Revocation/Append.antt =====
-- revocation.rs: a log that its user starts and appends to.
use agent_mesh.Common.{
  Result-cases, ℕ, ◌+◌, ◌≡◌, refl, sym, subst, true, Option, none, List, [], ◌∷◌, ◌++◌, nat_eq, ok,
  arith, ==_iff, ==_refl, inl, inr,
}
use agent_mesh.Protocol.Revocation.{
  RevocationEntry, genesis, revoke, generation, Node, SignedEntry, RevocationState, RevocationLog,
  Crypto, ContentId, UserPublic, UserKey, verify_step, verify_rest, verify, first_state, append,
  start, sign_node, check_link, check_entry, message, advance,
}
use agent_mesh.Protocol.Revocation.Steps.{Linked, Started, moved, verify_rest-next, verify-Started}
use agent_mesh.Protocol.Revocation.Runs.{verify_rest-Keeps}

-- The crates' promises: a signature verifies under the signer's public key, and two keys with one
-- fingerprint are one key.
pub record Honest (x : Crypto) : Type 0 where
  pub verifies : (k : UserKey) (m : List ℕ) → x.verify (x.public k) m (x.sign k m) ≡ true
  pub one_key : (a b : UserPublic) → x.fingerprint a ≡ x.fingerprint b → a ≡ b

Linked-check_link :
    (x : Crypto) (user : UserPublic) (e : SignedEntry) (prev : Option ContentId) (id : ContentId)
    → Linked x user e prev id
    → check_link x user e prev ≡ ok id
unfolding check_link
Linked-check_link x user e prev id l = ground (arith, l.joined, l.named, l.signed)

-- A log with the same first entry.
verify_again :
    (x : Crypto) (e : SignedEntry) (es ds : List SignedEntry) (s t : RevocationState)
    (a : Started x e es s)
    → verify_rest x a.user (first_state x a.user a.head) ds ≡ ok t
    → verify x (e ∷ ds) ≡ ok t
unfolding verify
verify_again x e es ds s t a h =
    ground (arith, a.payload, Linked-check_link x a.user e none a.head a.link)

verify_rest-concat :
    (x : Crypto) (u : UserPublic) (r : RevocationState) (es : List SignedEntry) (n : SignedEntry)
    (s t : RevocationState)
    → verify_rest x u r es ≡ ok s
    → verify_step x u s n ≡ ok t
    → verify_rest x u r (es ++ n ∷ []) ≡ ok t
unfolding verify_rest
verify_rest-concat x u r [] n s t h k = ground arith
verify_rest-concat x u r (e ∷ es) n s t h k =
    let (m, step, rest) = verify_rest-next x u r e es s h in
    ground (arith, step, verify_rest-concat x u m es n s t rest k)

advance_new :
    (x : Crypto) (s : RevocationState) (id : ContentId) (e : RevocationEntry)
    → check_entry x s e ≡ ok tt
    → advance x (record s { head = id; len = s.len + 1 }) e ≡ ok (moved s id e)
unfolding advance
advance_new x s id (genesis user) h = absurd (ground arith)
advance_new x s id (revoke agent) h = refl
advance_new x s id (generation n) h = ground arith

-- The node and the signed entry that `append` pushes.
abbrev pub next_node : RevocationState → RevocationEntry → Node
next_node s entry = record { payload = entry; parents = s.head ∷ [] }

abbrev pub next_entry :
    (x : Crypto) → UserKey → RevocationState → RevocationEntry → ContentId → SignedEntry
next_entry x user s entry id = record { node = next_node s entry; sig = x.sign user (message x id) }

-- What a successful append did.
pub record Appended (x : Crypto) (log : RevocationLog) (user : UserKey) (entry : RevocationEntry)
    (after : RevocationLog) : Type 0 where
  pub state : RevocationState
  pub id : ContentId
  pub verified : verify x log ≡ ok state
  pub owner : x.fingerprint (x.public user) ≡ state.user
  pub allowed : check_entry x state entry ≡ ok tt
  pub named : x.node_id (next_node state entry) ≡ ok id
  pub pushed : after ≡ log ++ next_entry x user state entry id ∷ []

pub append-Appended :
    (x : Crypto) (log : RevocationLog) (user : UserKey) (entry : RevocationEntry)
    (after : RevocationLog)
    → append x log user entry ≡ ok after
    → Appended x log user entry after
unfolding append sign_node
append-Appended x log user entry after h = elim (Result-cases (verify x log)) [
  | inl (s, verified) ↦ elim (Result-cases (check_entry x s entry)) [
    | inl (tt, allowed) ↦ elim (Result-cases (x.node_id (next_node s entry))) [
      | inl (id, named) ↦ record {
        state = s;
        id = id;
        verified = verified;
        owner = ground (arith, ==_iff (x.fingerprint (x.public user)) s.user);
        allowed = allowed;
        named = named;
        pushed = ground arith;
      }
      | inr (m, failed) ↦ absurd (ground arith)
    ]
    | inr (m, failed) ↦ absurd (ground arith)
  ]
  | inr (m, failed) ↦ absurd (ground arith)
]

-- The new entry is good for its user's log.
Appended-verify_step :
    (x : Crypto) (u : UserPublic) (user : UserKey) (s : RevocationState) (id : ContentId)
    (entry : RevocationEntry)
    → Honest x
    → x.public user ≡ u
    → check_entry x s entry ≡ ok tt
    → x.node_id (next_node s entry) ≡ ok id
    → verify_step x u s (next_entry x user s entry id) ≡ ok (moved s id entry)
unfolding verify_step check_link
Appended-verify_step x u user s id entry hon key allowed named = ground (
  arith,
  advance_new x s id entry allowed,
  named,
  ==_refl s.head,
  hon.verifies user (message x id),
  key,
)

-- A log that its user appends to verifies, at the state that the entry leaves: where signatures
-- verify and fingerprints tell keys apart, every append that succeeds leaves a log that `verify`
-- accepts, with the appended entry's id for its head.
pub append-verify :
    (x : Crypto) (log : RevocationLog) (user : UserKey) (entry : RevocationEntry)
    (after : RevocationLog)
    → Honest x
    → append x log user entry ≡ ok after
    → (s : RevocationState) × (id : ContentId) × (verify x log ≡ ok s)
      × (x.node_id (next_node s entry) ≡ ok id)
      × (verify x after ≡ ok (moved s id entry))
unfolding verify
append-verify x [] user entry after hon h =
    absurd (ground (arith, (append-Appended x [] user entry after h).verified))
append-verify x (e ∷ es) user entry after hon h =
    let p = append-Appended x (e ∷ es) user entry after h in
    let a = verify-Started x e es p.state p.verified in
    let from = first_state x a.user a.head in
    let keeps = verify_rest-Keeps x a.user from es p.state a.rest in
    let key : x.public user ≡ a.user =
      hon.one_key (x.public user) a.user (ground (arith, p.owner, keeps.user)) in
    let step = Appended-verify_step x a.user user p.state p.id entry hon key p.allowed p.named in
    let next = moved p.state p.id entry in
    let rest = verify_rest-concat x a.user from es _ p.state next a.rest step in
    (
      p.state,
      p.id,
      p.verified,
      p.named,
      subst (λ l. verify x l ≡ ok next) (sym p.pushed) (verify_again x e es _ p.state next a rest),
    )

-- A user's fresh log verifies, at generation 0 with nothing revoked.
pub start-verify :
    (x : Crypto) (user : UserKey) (log : RevocationLog)
    → Honest x
    → start x user ≡ ok log
    → (id : ContentId) × (verify x log ≡ ok (first_state x (x.public user) id))
unfolding start sign_node verify check_link verify_rest
start-verify x user log hon h =
    elim (Result-cases (x.node_id (record { payload = genesis (x.public user); parents = [] }))) [
      | inl (id, named) ↦ (id, ground (arith, named, hon.verifies user (message x id)))
      | inr (m, failed) ↦ absurd (ground arith)
    ]
