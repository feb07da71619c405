-- ===== src/Protocol/Revocation/Examples.antt =====
-- Concrete revocation logs, with ids for the nodes that they hold.
use agent_mesh.Common.{
  ℕ, ◌+◌, ◌*◌, String, ◌≡◌, refl, List, [], ◌∷◌, ◌==◌, Result, ok, err, if◌then◌else◌, arith,
  ==_iff, ==_refl, ◌⊎◌, inl, inr, contains, insert, nat_eq, any, none, true, ◌≢◌,
}
use agent_mesh.Protocol.Caveats
use agent_mesh.Protocol.Certs.{CertChain, Keys, AgentMetadata, cert, user, agent}
use agent_mesh.Protocol.Certs.Links.{links}
use agent_mesh.Protocol.Revocation.Guarded.{names_revoked, verify_with, revoked_for_good}
use agent_mesh.Protocol.Revocation.{
  RevocationEntry, genesis, revoke, generation, RevocationState, RevocationLog, Crypto, ContentId,
  seen, verify, extends, append, start, first_state, verify_rest, verify_step, check_link, advance,
  sign_node, entry_at,
}
use agent_mesh.Protocol.Revocation.Steps.{moved}
use agent_mesh.Protocol.Revocation.Runs.{CollisionFree, Keeps}
use agent_mesh.Protocol.Revocation.Rollback.{extends-Keeps}
use agent_mesh.Protocol.Revocation.Append.{Honest, append-verify, start-verify, next_node}
use agent_mesh.Protocol.Revocation.Contents.{Tells, verify-Tells}

-- Ids for genesis nodes, and for revocations on the genesis of user 7.
abbrev id_of : RevocationEntry → List ContentId → Result String ContentId
id_of (genesis u) [] = ok (3 * u)
id_of (revoke a) (p ∷ []) = if p == 21 then ok (3 * a + 1) else err "other"
id_of _ _ = err "other"

Shape : RevocationEntry → List ContentId → ContentId → Type 0
Shape e ps i =
    ((u : ℕ) × (e ≡ genesis u) × (ps ≡ []) × (i ≡ 3 * u))
    ⊎ ((a : ℕ) × (e ≡ revoke a) × (ps ≡ 21 ∷ []) × (i ≡ 3 * a + 1))

id_of-Shape :
    (e : RevocationEntry) (ps : List ContentId) (i : ContentId) → id_of e ps ≡ ok i → Shape e ps i
unfolding Shape
id_of-Shape (genesis u) [] i h = inl (u, refl, refl, ground arith)
id_of-Shape (genesis u) (p ∷ ps) i h = absurd (ground arith)
id_of-Shape (revoke a) [] i h = absurd (ground arith)
id_of-Shape (revoke a) (p ∷ []) i h =
    inr (a, refl, ground (arith, ==_iff p 21), ground (arith, ==_iff p 21))
id_of-Shape (revoke a) (p ∷ q ∷ r) i h = absurd (ground arith)
id_of-Shape (generation n) [] i h = absurd (ground arith)
id_of-Shape (generation n) (p ∷ ps) i h = absurd (ground arith)

abbrev crypto : Crypto
crypto = record {
  node_id = λ n. id_of n.payload n.parents;
  to_bytes = λ i. i ∷ [];
  fingerprint = λ u. u;
  public = λ k. k;
  sign = λ k m. k;
  verify = λ u m s. u == s;
}

crypto-CollisionFree : CollisionFree crypto
unfolding Shape
crypto-CollisionFree a b i h k = elim (id_of-Shape a.payload a.parents i h) [
  | inl (u, eu, pu, iu) ↦ elim (id_of-Shape b.payload b.parents i k) [
    | inl (v, ev, pv, iv) ↦ ground arith
    | inr (c, ec, pc, ic) ↦ absurd (omega arith)
  ]
  | inr (d, ed, pd, id) ↦ elim (id_of-Shape b.payload b.parents i k) [
    | inl (v, ev, pv, iv) ↦ absurd (omega arith)
    | inr (c, ec, pc, ic) ↦ ground arith
  ]
]

crypto-Honest : Honest crypto
crypto-Honest = record { verifies = λ k m. ==_refl k; one_key = λ a b h. h }

abbrev fresh : RevocationLog
fresh = record { node = record { payload = genesis 7; parents = [] }; sig = 7 } ∷ []

abbrev grown : RevocationLog
grown =
    record { node = record { payload = genesis 7; parents = [] }; sig = 7 }
    ∷ record { node = record { payload = revoke 5; parents = 21 ∷ [] }; sig = 7 }
    ∷ []

start-fresh : start crypto 7 ≡ ok fresh
unfolding start sign_node
start-fresh = refl

append-grown : append crypto fresh 7 (revoke 5) ≡ ok grown
unfolding append sign_node verify verify_rest check_link
append-grown = refl

abbrev fresh_state : RevocationState
fresh_state = first_state crypto 7 21

fresh_verifies : verify crypto fresh ≡ ok fresh_state
unfolding verify verify_rest check_link
fresh_verifies = refl

abbrev grown_state : RevocationState
grown_state = record { user = 7; head = 16; len = 2; generation = 0; revoked = 5 ∷ [] }

grown_verifies : verify crypto grown ≡ ok grown_state
unfolding verify verify_rest verify_step check_link advance contains insert
grown_verifies = refl

grown-extends : extends crypto grown (seen fresh_state) ≡ ok tt
unfolding extends verify verify_rest verify_step check_link advance contains insert entry_at
grown-extends = refl

extends-Keeps_example : (t : RevocationState) × (verify crypto grown ≡ ok t) × Keeps fresh_state t
extends-Keeps_example =
    extends-Keeps crypto fresh grown fresh_state crypto-CollisionFree fresh_verifies grown-extends

append-verify_example :
    (s : RevocationState) × (id : ContentId) × (verify crypto fresh ≡ ok s)
    × (crypto.node_id (next_node s (revoke 5)) ≡ ok id)
    × (verify crypto grown ≡ ok (moved s id (revoke 5)))
append-verify_example = append-verify crypto fresh 7 (revoke 5) grown crypto-Honest append-grown

start-verify_example :
    (id : ContentId) × (verify crypto fresh ≡ ok (first_state crypto (crypto.public 7) id))
start-verify_example = start-verify crypto 7 fresh crypto-Honest start-fresh

verify-Tells_example : Tells grown grown_state
verify-Tells_example = verify-Tells crypto grown grown_state grown_verifies

-- Keys that sign with their own number.
abbrev numbered : Keys
numbered = record {
  fingerprint = λ k. k;
  decodes = λ k. true;
  verify = λ k m s. k == s;
  verify_strict = λ k m s. k == s;
  verifying_key = λ s. s;
  sign = λ s m. s;
  key_bytes = λ k. k ∷ [];
  metadata_json = λ m. [];
}

abbrev plain : AgentMetadata
plain = record {
  role = "";
  host = "";
  capabilities = [];
  issued_at = "";
  expires_at = none;
  caveats = Caveats.top;
}

-- A certificate that the revoked agent 5 issued for key 9.
abbrev below : CertChain
below = cert 9 plain (agent 5 (cert 5 plain (user 7) 7)) 5

below_named : names_revoked numbered grown_state.revoked below ≡ true
unfolding names_revoked links any contains
below_named = refl

grown_kept : extends crypto grown (seen grown_state) ≡ ok tt
unfolding extends verify verify_rest verify_step check_link advance contains insert entry_at
grown_kept = refl

revoked_for_good_example : verify_with numbered below grown_state ≢ ok tt
revoked_for_good_example =
    revoked_for_good crypto numbered below grown grown grown_state grown_state crypto-CollisionFree
      grown_verifies below_named grown_kept grown_verifies
