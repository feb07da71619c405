-- ===== src/Protocol/Authority/Chain.antt =====
-- authority.rs: `verify_chain`, a chain of grants from a leaf to the configured root.
pub mod Trust
use agent_mesh.Common.{
  ℕ, zero, ◌+◌, String, ◌≡◌, ◌≢◌, refl, Bool, true, false, not, Option, none, some, List, [], ◌∷◌,
  ◌↔◌, arith, ◌==◌, Result, ok, err, if◌then◌else◌,
}
use agent_mesh.Protocol.Authority.{
  ContentId, Grant, ResolvedGrant, Ids, Derivation, root, attenuation, elevation,
}
use agent_mesh.Protocol.Authority.Edge.{
  AttestationVerifier, DerivationReject, DerivationDecision, valid, reject, check_derivation,
}

pub data ChainReject : Type 0 where
  empty : ChainReject
  edge : ℕ → DerivationReject → ChainReject
  root_not_terminal : ℕ → ChainReject
  non_root_terminus : ChainReject
  untrusted_root : ContentId → ContentId → ChainReject
  cid_unavailable : ChainReject

pub data ChainDecision : Type 0 where
  trusted : ChainDecision
  reject_chain : ChainReject → ChainDecision

abbrev pub is_root : Derivation → Bool
is_root root = true
is_root _ = false

-- `chain.last()` of a chain that is not empty.
unfoldable pub last : ResolvedGrant → List ResolvedGrant → ResolvedGrant
last g [] = g
last g (parent ∷ rest) = last parent rest

module _ (ids : Ids) (verifier : AttestationVerifier) where
  -- The loop over the edges: the first that fails, if any.
  unfoldable pub walk : ℕ → ResolvedGrant → List ResolvedGrant → Option ChainReject
  walk index child [] = none
  walk index child (parent ∷ rest) =
      if is_root child.grant.derivation
      then some (root_not_terminal index)
      else elim (check_derivation ids verifier child (some parent)) [
        | valid ↦ walk (index + 1) parent rest
        | reject reason ↦ some (edge index reason)
      ]

  abbrev anchor_id : ContentId → Result String ContentId → ChainDecision
  anchor_id trusted_root (err e) = reject_chain cid_unavailable
  anchor_id trusted_root (ok root_id) =
      if not (root_id == trusted_root)
      then reject_chain (untrusted_root root_id trusted_root)
      else trusted

  unfoldable pub anchor : ContentId → ResolvedGrant → ChainDecision
  anchor trusted_root terminus =
      if not (is_root terminus.grant.derivation)
      then reject_chain non_root_terminus
      else anchor_id trusted_root (ids.grant_id terminus.grant)

  unfoldable pub verify_chain : ContentId → List ResolvedGrant → ChainDecision
  verify_chain trusted_root [] = reject_chain empty
  verify_chain trusted_root (g ∷ rest) = elim (walk 0 g rest) [
    | some reason ↦ reject_chain reason
    | none ↦ anchor trusted_root (last g rest)
  ]
