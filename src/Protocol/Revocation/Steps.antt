-- ===== src/Protocol/Revocation/Steps.antt =====
-- revocation.rs: what a verified entry says of the state before and after it.
use agent_mesh.Common.{
  Result-cases, ◌+◌, ◌≡◌, refl, Bool, true, false, Option, none, some, List, ◌∷◌, ltb, insert,
  nat_eq, ok, arith, inl, inr,
}
use agent_mesh.Protocol.Revocation.{
  RevocationEntry, genesis, revoke, generation, SignedEntry, RevocationState, Crypto, ContentId,
  UserPublic, check_link, advance, verify_step, verify_rest, verify, links, message, first_user,
  first_state,
}

-- The good link: the parents, the id and the signature.
pub record Linked (x : Crypto) (user : UserPublic) (e : SignedEntry) (prev : Option ContentId)
    (id : ContentId) : Type 0 where
  pub joined : links x e.node.parents prev ≡ true
  pub named : x.node_id e.node ≡ ok id
  pub signed : x.verify user (message x id) e.sig ≡ true

pub check_link-Linked :
    (x : Crypto) (user : UserPublic) (e : SignedEntry) (prev : Option ContentId) (id : ContentId)
    → check_link x user e prev ≡ ok id
    → Linked x user e prev id
unfolding check_link
check_link-Linked x user e prev id h = elim (Result-cases (x.node_id e.node)) [
  | inl (i, named) ↦ record {
    joined = ground (arith);
    named = ground (arith);
    signed = ground (arith);
  }
  | inr (m, failed) ↦ absurd (ground arith)
]

-- The state that an entry leaves.
abbrev pub moved : RevocationState → ContentId → RevocationEntry → RevocationState
moved s id (genesis user) = s
moved s id (revoke agent) = record s {
  head = id;
  len = s.len + 1;
  revoked = insert agent s.revoked;
}
moved s id (generation current) = record s { head = id; len = s.len + 1; generation = current }

-- What `advance` demands of an entry.
abbrev pub is_allowed : RevocationState → RevocationEntry → Bool
is_allowed s (genesis user) = false
is_allowed s (revoke agent) = true
is_allowed s (generation current) = ltb s.generation current

pub advance-moved :
    (x : Crypto) (s t : RevocationState) (id : ContentId) (e : RevocationEntry)
    → advance x (record s { head = id; len = s.len + 1 }) e ≡ ok t
    → (is_allowed s e ≡ true) × (t ≡ moved s id e)
unfolding advance
advance-moved x s t id (genesis user) h = absurd (ground arith)
advance-moved x s t id (revoke agent) h = (refl, ground arith)
advance-moved x s t id (generation current) h = (ground arith, ground arith)

-- What a verified entry says.
pub record Stepped (x : Crypto) (user : UserPublic) (s : RevocationState) (e : SignedEntry)
    (t : RevocationState) : Type 0 where
  pub id : ContentId
  pub link : Linked x user e (some s.head) id
  pub fit : is_allowed s e.node.payload ≡ true
  pub next : t ≡ moved s id e.node.payload

pub verify_step-Stepped :
    (x : Crypto) (user : UserPublic) (s : RevocationState) (e : SignedEntry) (t : RevocationState)
    → verify_step x user s e ≡ ok t
    → Stepped x user s e t
unfolding verify_step
verify_step-Stepped x user s e t h = elim (Result-cases (check_link x user e (some s.head))) [
  | inl (id, linked) ↦
      let moves = advance-moved x s t id e.node.payload (ground arith) in
      record {
        id = id;
        link = check_link-Linked x user e (some s.head) id linked;
        fit = moves.0;
        next = moves.1;
      }
  | inr (m, failed) ↦ absurd (ground arith)
]

-- A verified step leads to the rest.
pub verify_rest-next :
    (x : Crypto) (user : UserPublic) (s : RevocationState) (e : SignedEntry) (es : List SignedEntry)
    (t : RevocationState)
    → verify_rest x user s (e ∷ es) ≡ ok t
    → (m : RevocationState) × (verify_step x user s e ≡ ok m) × (verify_rest x user m es ≡ ok t)
unfolding verify_rest
verify_rest-next x user s e es t h = elim (Result-cases (verify_step x user s e)) [
  | inl (m, step) ↦ (m, step, ground arith)
  | inr (r, failed) ↦ absurd (ground arith)
]

-- A verified log starts with a genesis of its user.
pub record Started (x : Crypto) (e : SignedEntry) (es : List SignedEntry) (t : RevocationState)
    : Type 0 where
  pub user : UserPublic
  pub payload : e.node.payload ≡ genesis user
  pub head : ContentId
  pub link : Linked x user e none head
  pub rest : verify_rest x user (first_state x user head) es ≡ ok t

first_user-genesis :
    (x : Crypto) (p : RevocationEntry) (u : UserPublic) → first_user x p ≡ ok u → p ≡ genesis u
first_user-genesis x (genesis v) u h = ground arith
first_user-genesis x (revoke a) u h = absurd (ground arith)
first_user-genesis x (generation n) u h = absurd (ground arith)

pub verify-Started :
    (x : Crypto) (e : SignedEntry) (es : List SignedEntry) (t : RevocationState)
    → verify x (e ∷ es) ≡ ok t
    → Started x e es t
unfolding verify
verify-Started x e es t h = elim (Result-cases (first_user x e.node.payload)) [
  | inl (user, named) ↦ elim (Result-cases (check_link x user e none)) [
    | inl (head, linked) ↦ record {
      user = user;
      payload = first_user-genesis x e.node.payload user named;
      head = head;
      link = check_link-Linked x user e none head linked;
      rest = ground arith;
    }
    | inr (m, failed) ↦ absurd (ground arith)
  ]
  | inr (m, failed) ↦ absurd (ground arith)
]
