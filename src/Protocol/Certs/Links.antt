-- ===== src/Protocol/Certs/Links.antt =====
-- agent_key.rs: what a verified chain vouches for, link by link.
use agent_mesh.Common.{
  ℕ, ◌≡◌, refl, Bool, true, false, ◌&&◌, Option, none, some, List, [], ◌∷◌, arith, ◌==◌, nat_eq,
  contains, ok, Result-cases, inl, inr,
}
use agent_mesh.Protocol.Caveats
use agent_mesh.Protocol.Caveats.{Caveats}
use agent_mesh.Protocol.Caveats.Laws
use agent_mesh.Protocol.Caveats.Scope.{Scope}
use agent_mesh.Protocol.Certs.{
  CertChain, cert, user, agent, agent_pubkey, metadata, Keys, AgentMetadata, check_generation,
  sign_payload, verify_inner,
}

-- A chain's links: the certificate, its issuer's, and so on to the one that the user signed.
unfoldable pub links : CertChain → List CertChain
links (cert pubkey meta (user u) sig) = cert pubkey meta (user u) sig ∷ []
links (cert pubkey meta (agent by parent) sig) =
    cert pubkey meta (agent by parent) sig ∷ links parent

-- A generation lies in a scope; with no generation known, only the unbounded scope passes.
abbrev pub in_scope : Scope ℕ → Option ℕ → Bool
in_scope Scope.all current = true
in_scope (Scope.only gens) none = false
in_scope (Scope.only gens) (some g) = contains gens g

-- The issuer that a link names signed its key and metadata.
abbrev pub is_signed : Keys → CertChain → Bool
is_signed k (cert pubkey meta (user u) sig) = k.verify u (sign_payload k pubkey meta) sig
is_signed k (cert pubkey meta (agent by parent) sig) =
    by == agent_pubkey parent && k.verify_strict by (sign_payload k pubkey meta) sig

-- What each link has, below which the leaf's authority lies.
pub record Vouched (k : Keys) (current : Option ℕ) (leaf : CertChain) (link : CertChain)
    : Type 0 where
  pub signed : is_signed k link ≡ true
  pub generation : in_scope (metadata link).caveats.valid_for_generation current ≡ true
  pub bounds : Caveats.leq (metadata leaf).caveats (metadata link).caveats ≡ true

abbrev pub AllVouched : Keys → Option ℕ → CertChain → List CertChain → Type 0
AllVouched k current leaf [] = Unit {0}
AllVouched k current leaf (l ∷ ls) = Vouched k current leaf l × AllVouched k current leaf ls

check_generation-in_scope :
    (s : Scope ℕ) (current : Option ℕ)
    → check_generation s current ≡ ok tt
    → in_scope s current ≡ true
unfolding check_generation
check_generation-in_scope Scope.all current h = refl
check_generation-in_scope (Scope.only gens) none h = absurd (ground arith)
check_generation-in_scope (Scope.only gens) (some g) h = ground arith

-- A leaf below another inherits what that one's links bound.
AllVouched-below :
    (k : Keys) (current : Option ℕ) (low high : CertChain) (ls : List CertChain)
    → Caveats.leq (metadata low).caveats (metadata high).caveats ≡ true
    → AllVouched k current high ls
    → AllVouched k current low ls
AllVouched-below k current low high [] h v = tt
AllVouched-below k current low high (l ∷ ls) h (v, vs) = (
  record {
    signed = v.signed;
    generation = v.generation;
    bounds =
        Laws.leq_trans (metadata low).caveats (metadata high).caveats (metadata l).caveats h
          v.bounds;
  },
  AllVouched-below k current low high ls h vs,
)

-- The parts of a successful check of a delegated link.
record Delegation (k : Keys) (current : Option ℕ) (pubkey by : ℕ) (meta : AgentMetadata)
    (parent : CertChain) (sig : ℕ) : Type 0 where
  generation : check_generation meta.caveats.valid_for_generation current ≡ ok tt
  named : (by == agent_pubkey parent) ≡ true
  above : verify_inner k parent current ≡ ok tt
  signed : k.verify_strict by (sign_payload k pubkey meta) sig ≡ true
  below : Caveats.leq meta.caveats (metadata parent).caveats ≡ true

verify_inner-Delegation :
    (k : Keys) (current : Option ℕ) (pubkey by : ℕ) (meta : AgentMetadata) (parent : CertChain)
    (sig : ℕ)
    → verify_inner k (cert pubkey meta (agent by parent) sig) current ≡ ok tt
    → Delegation k current pubkey by meta parent sig
unfolding verify_inner
verify_inner-Delegation k current pubkey by meta parent sig h =
    elim (Result-cases (check_generation meta.caveats.valid_for_generation current)) [
      | inr (e, bad) ↦ absurd (ground arith)
      | inl (tt, gen) ↦ elim (Result-cases (verify_inner k parent current)) [
        | inr (e, bad) ↦ absurd (ground arith)
        | inl (tt, up) ↦ record {
          generation = gen;
          named = ground arith;
          above = up;
          signed = ground arith;
          below = ground arith;
        }
      ]
    ]

verify_inner-root :
    (k : Keys) (current : Option ℕ) (pubkey u : ℕ) (meta : AgentMetadata) (sig : ℕ)
    → verify_inner k (cert pubkey meta (user u) sig) current ≡ ok tt
    → (check_generation meta.caveats.valid_for_generation current ≡ ok tt)
      × (k.verify u (sign_payload k pubkey meta) sig ≡ true)
unfolding verify_inner
verify_inner-root k current pubkey u meta sig h =
    elim (Result-cases (check_generation meta.caveats.valid_for_generation current)) [
      | inr (e, bad) ↦ absurd (ground arith)
      | inl (tt, gen) ↦ (gen, ground arith)
    ]

-- A chain that verifies, with a current generation or without, is vouched for at every link up to
-- the one that the user signed: each link is signed by the issuer that it names, its generation scope
-- holds the current generation (or is unbounded where none is known), and the leaf's caveats lie
-- below the link's.
pub verify_inner-AllVouched :
    (k : Keys) (c : CertChain) (current : Option ℕ)
    → verify_inner k c current ≡ ok tt
    → AllVouched k current c (links c)
unfolding links
verify_inner-AllVouched k (cert pubkey meta (user u) sig) current h =
    let (gen, signed) = verify_inner-root k current pubkey u meta sig h in
    (
      record {
        signed = signed;
        generation = check_generation-in_scope meta.caveats.valid_for_generation current gen;
        bounds = Laws.leq_refl meta.caveats;
      },
      tt,
    )
verify_inner-AllVouched k (cert pubkey meta (agent by parent) sig) current h =
    let d = verify_inner-Delegation k current pubkey by meta parent sig h in
    let leaf = cert pubkey meta (agent by parent) sig in
    (
      record {
        signed = ground (arith, d.named, d.signed);
        generation =
            check_generation-in_scope meta.caveats.valid_for_generation current d.generation;
        bounds = Laws.leq_refl meta.caveats;
      },
      AllVouched-below k current leaf parent (links parent) d.below
          (verify_inner-AllVouched k parent current d.above),
    )
