-- ===== src/Protocol/Authority/Edge.antt =====
-- authority.rs: `check_derivation`, one edge from a child grant to its parent.
use agent_mesh.Common.{
  String, ◌≡◌, refl, Bool, true, false, not, Option, none, some, arith, ◌==◌, Result, ok, err,
  if◌then◌else◌,
}
use agent_mesh.Protocol.Caveats.{leq}
use agent_mesh.Protocol.Authority.{
  ContentId, Grant, ResolvedGrant, Ids, Derivation, root, attenuation, elevation,
}

-- The trait `AttestationVerifier`: the signature check is not part of the program.
abbrev pub AttestationVerifier : Type 0
AttestationVerifier = ContentId → Grant → ContentId → Bool

abbrev pub deny_all_elevations : AttestationVerifier
deny_all_elevations parent child attestation = false

pub data DerivationReject : Type 0 where
  attenuation_widens parent_mismatch elevation_unauthorized missing_parent cid_unavailable :
      DerivationReject

pub data DerivationDecision : Type 0 where
  valid : DerivationDecision
  reject : DerivationReject → DerivationDecision

abbrev match_id :
    ResolvedGrant → ContentId → Result String ContentId → Result DerivationReject ResolvedGrant
match_id parent declared (err e) = err cid_unavailable
match_id parent declared (ok parent_id) =
    if not (parent_id == declared) then err parent_mismatch else ok parent

-- The closure `matched_parent`.
unfoldable pub matched_parent :
    Ids → Option ResolvedGrant → ContentId → Result DerivationReject ResolvedGrant
matched_parent ids none declared = err missing_parent
matched_parent ids (some parent) declared = match_id parent declared (ids.grant_id parent.grant)

abbrev check_attenuation :
    ResolvedGrant → Result DerivationReject ResolvedGrant → DerivationDecision
check_attenuation child (err r) = reject r
check_attenuation child (ok parent) =
    if leq child.authority.caveats parent.authority.caveats
    then valid
    else reject attenuation_widens

abbrev verify_attested :
    AttestationVerifier → ResolvedGrant → ContentId → Result String ContentId → DerivationDecision
verify_attested verifier child attestation (err e) = reject cid_unavailable
verify_attested verifier child attestation (ok parent_id) =
    if verifier parent_id child.grant attestation then valid else reject elevation_unauthorized

abbrev check_elevation :
    Ids
    → AttestationVerifier
    → ResolvedGrant
    → ContentId
    → Result DerivationReject ResolvedGrant
    → DerivationDecision
check_elevation ids verifier child attestation (err r) = reject r
check_elevation ids verifier child attestation (ok parent) =
    verify_attested verifier child attestation (ids.grant_id parent.grant)

abbrev check_kind :
    Ids
    → AttestationVerifier
    → ResolvedGrant
    → Option ResolvedGrant
    → Derivation
    → DerivationDecision
check_kind ids verifier child parent root = valid
check_kind ids verifier child parent (attenuation declared) =
    check_attenuation child (matched_parent ids parent declared)
check_kind ids verifier child parent (elevation declared attestation) =
    check_elevation ids verifier child attestation (matched_parent ids parent declared)

unfoldable pub check_derivation :
    Ids → AttestationVerifier → ResolvedGrant → Option ResolvedGrant → DerivationDecision
check_derivation ids verifier child parent =
    check_kind ids verifier child parent child.grant.derivation

-- What a valid edge rests on, by the derivation that the child states.
abbrev pub Justified :
    Ids → AttestationVerifier → ResolvedGrant → Option ResolvedGrant → Derivation → Type 0
Justified ids verifier child parent root = Unit
Justified ids verifier child parent (attenuation declared) =
    (p : ResolvedGrant) × (parent ≡ some p)
    × (ids.grant_id p.grant ≡ ok declared)
    × (leq child.authority.caveats p.authority.caveats ≡ true)
Justified ids verifier child parent (elevation declared attestation) =
    (p : ResolvedGrant) × (parent ≡ some p)
    × (ids.grant_id p.grant ≡ ok declared)
    × (verifier declared child.grant attestation ≡ true)

Justified-kind :
    (ids : Ids) (v : AttestationVerifier) (child : ResolvedGrant) (parent : Option ResolvedGrant)
    (d : Derivation)
    → check_kind ids v child parent d ≡ valid
    → Justified ids v child parent d
unfolding matched_parent
Justified-kind ids v child parent root h = tt
Justified-kind ids v child none (attenuation declared) h = ground arith
Justified-kind ids v child (some p) (attenuation declared) h = (p, refl, ground arith, ground arith)
Justified-kind ids v child none (elevation declared a) h = ground arith
Justified-kind ids v child (some p) (elevation declared a) h = (p, refl, ground arith, ground arith)

-- An edge is valid only if it is justified: a root edge always is; an attenuation edge has a
-- parent whose recomputed id is the one that the child names, and whose caveats bound the child's;
-- an elevation edge has such a parent and an attestation that the verifier accepts.
pub check_derivation_sound :
    (ids : Ids) (v : AttestationVerifier) (child : ResolvedGrant) (parent : Option ResolvedGrant)
    → check_derivation ids v child parent ≡ valid
    → Justified ids v child parent child.grant.derivation
unfolding check_derivation
check_derivation_sound ids v child parent h =
    Justified-kind ids v child parent child.grant.derivation h

complete_kind :
    (ids : Ids) (v : AttestationVerifier) (child : ResolvedGrant) (parent : Option ResolvedGrant)
    (d : Derivation)
    → Justified ids v child parent d
    → check_kind ids v child parent d ≡ valid
unfolding matched_parent
complete_kind ids v child parent root j = refl
complete_kind ids v child parent (attenuation declared) (p, e, i, l) = ground arith
complete_kind ids v child parent (elevation declared a) (p, e, i, l) = ground arith

-- Every justified edge is valid.
pub check_derivation_complete :
    (ids : Ids) (v : AttestationVerifier) (child : ResolvedGrant) (parent : Option ResolvedGrant)
    → Justified ids v child parent child.grant.derivation
    → check_derivation ids v child parent ≡ valid
unfolding check_derivation
check_derivation_complete ids v child parent j =
    complete_kind ids v child parent child.grant.derivation j
