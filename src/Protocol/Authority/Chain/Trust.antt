-- ===== src/Protocol/Authority/Chain/Trust.antt =====
-- What a trusted chain is, described as a derivation, and what it means for authority.
use agent_mesh.Common.{ℕ, ◌+◌, ◌≡◌, refl, true, false, none, some, List, [], ◌∷◌, arith, ok}
use agent_mesh.Protocol.Caveats.{leq}
use agent_mesh.Protocol.Caveats.Laws.{leq_trans}
use agent_mesh.Protocol.Authority.{
  ContentId, ResolvedGrant, Ids, Derivation, root, attenuation, elevation,
}
use agent_mesh.Protocol.Authority.Edge.{
  AttestationVerifier, deny_all_elevations, Justified, check_derivation_sound,
  check_derivation_complete,
}
use agent_mesh.Protocol.Authority.Chain.{trusted, is_root, last, walk, anchor, verify_chain}

-- A chain from leaf to root. No grant but the last is a root; the edge from each to the next is
-- `Justified`: the parent's recomputed id is the one that the child names, and the child's caveats are
-- below the parent's (attenuation) or the verifier accepts the attestation (elevation). The last
-- grant is a root whose recomputed id is the configured one.
pub data IsTrusted (ids : Ids) (v : AttestationVerifier) (trusted_root : ContentId)
    : ResolvedGrant → List ResolvedGrant → Type 0 where
  anchored :
      (g : ResolvedGrant)
      → g.grant.derivation ≡ root
      → ids.grant_id g.grant ≡ ok trusted_root
      → IsTrusted ids v trusted_root g []
  derived :
      (child parent : ResolvedGrant) (rest : List ResolvedGrant)
      → is_root child.grant.derivation ≡ false
      → Justified ids v child (some parent) child.grant.derivation
      → IsTrusted ids v trusted_root parent rest
      → IsTrusted ids v trusted_root child (parent ∷ rest)

is_root_lem : (d : Derivation) → is_root d ≡ true → d ≡ root
is_root_lem root h = refl
is_root_lem (attenuation p) h = ground arith
is_root_lem (elevation p a) h = ground arith

module _ (ids : Ids) (v : AttestationVerifier) (t : ContentId) where
  anchor_sound : (g : ResolvedGrant) → anchor ids v t g ≡ trusted → IsTrusted ids v t g []
  unfolding anchor
  anchor_sound g h = anchored g (is_root_lem g.grant.derivation (ground arith)) (ground arith)

  walk_sound :
      (n : ℕ) (g : ResolvedGrant) (rest : List ResolvedGrant)
      → walk ids v n g rest ≡ none
      → anchor ids v t (last g rest) ≡ trusted
      → IsTrusted ids v t g rest
  unfolding walk last
  walk_sound n g [] w a = anchor_sound g a
  walk_sound n g (p ∷ rest) w a =
      derived g p rest (ground arith) (check_derivation_sound ids v g (some p) (ground arith))
        (walk_sound (n + 1) p rest (ground arith) a)

  walk_complete :
      (n : ℕ) (g : ResolvedGrant) (rest : List ResolvedGrant)
      → IsTrusted ids v t g rest
      → (walk ids v n g rest ≡ none) × (anchor ids v t (last g rest) ≡ trusted)
  unfolding walk last anchor
  walk_complete n g [] (anchored _ d i) = (refl, ground arith)
  walk_complete n g (p ∷ rest) (derived _ _ _ d j k) =
      ground (arith, check_derivation_complete ids v g (some p) j, walk_complete (n + 1) p rest k)

  -- If `verify_chain` trusts a chain, then every grant of it but the last names its parent by the
  -- parent's recomputed id and, by attenuation, has caveats below the parent's or, by elevation, an
  -- attestation that the verifier accepts; and the last grant is a root whose recomputed id is the
  -- configured one.
  pub verify_chain_sound :
      (g : ResolvedGrant) (rest : List ResolvedGrant)
      → verify_chain ids v t (g ∷ rest) ≡ trusted
      → IsTrusted ids v t g rest
  unfolding verify_chain
  verify_chain_sound g rest h = walk_sound 0 g rest (ground arith) (ground arith)

  -- Every such chain is trusted.
  pub verify_chain_complete :
      (g : ResolvedGrant) (rest : List ResolvedGrant)
      → IsTrusted ids v t g rest
      → verify_chain ids v t (g ∷ rest) ≡ trusted
  unfolding verify_chain
  verify_chain_complete g rest k = ground (arith, walk_complete 0 g rest k)

-- The caveats lie below those of every grant of the list.
abbrev pub BelowAll : ResolvedGrant → List ResolvedGrant → Type 0
BelowAll g [] = Unit {0}
BelowAll g (p ∷ rest) = (leq g.authority.caveats p.authority.caveats ≡ true) × BelowAll g rest

BelowAll-mono :
    (g p : ResolvedGrant) (rest : List ResolvedGrant)
    → leq g.authority.caveats p.authority.caveats ≡ true
    → BelowAll p rest
    → BelowAll g rest
BelowAll-mono g p [] h b = tt
BelowAll-mono g p (q ∷ rest) h b = (
  leq_trans g.authority.caveats p.authority.caveats q.authority.caveats h b.0,
  BelowAll-mono g p rest h b.1,
)

edge_leq :
    (ids : Ids) (child parent : ResolvedGrant) (d : Derivation)
    → is_root d ≡ false
    → Justified ids deny_all_elevations child (some parent) d
    → leq child.authority.caveats parent.authority.caveats ≡ true
edge_leq ids child parent root h j = ground arith
edge_leq ids child parent (attenuation p) h (q, e, i, l) = ground arith
edge_leq ids child parent (elevation p a) h (q, e, i, l) = ground arith

trusted_below :
    (ids : Ids) (t : ContentId) (g : ResolvedGrant) (rest : List ResolvedGrant)
    → IsTrusted ids deny_all_elevations t g rest
    → BelowAll g rest
trusted_below ids t g [] k = tt
trusted_below ids t g (p ∷ rest) (derived _ _ _ d j k) =
    let l = edge_leq ids g p g.grant.derivation d j in
    (l, BelowAll-mono g p rest l (trusted_below ids t p rest k))

-- With the default verifier, which refuses every elevation, the leaf of a trusted chain has no more
-- authority than any grant above it.
pub verify_chain-BelowAll :
    (ids : Ids) (t : ContentId) (g : ResolvedGrant) (rest : List ResolvedGrant)
    → verify_chain ids deny_all_elevations t (g ∷ rest) ≡ trusted
    → BelowAll g rest
verify_chain-BelowAll ids t g rest h =
    trusted_below ids t g rest (verify_chain_sound ids deny_all_elevations t g rest h)
