-- ===== src/Protocol/Authority/Examples.antt =====
-- Concrete grants, chains and fences.
use agent_mesh.Common.{
  ℕ, String, ◌+◌, ◌≡◌, refl, arith, true, [], ◌∷◌, Result, ok, err, some, contains, ◌||◌,
}
use agent_mesh.Protocol.Caveats
use agent_mesh.Protocol.Caveats.{Caveats}
use agent_mesh.Protocol.Caveats.Scope
use agent_mesh.Protocol.Caveats.CountBound
use agent_mesh.Protocol.Authority.{
  ContentId, Authority, Grant, ResolvedGrant, Ids, root, attenuation,
}
use agent_mesh.Protocol.Authority.Edge.{
  deny_all_elevations, check_derivation, valid, matched_parent,
}
use agent_mesh.Protocol.Authority.Binding.{CollisionFree}
use agent_mesh.Protocol.Authority.Chain.{verify_chain, walk, anchor, last, trusted}
use agent_mesh.Protocol.Authority.Chain.Trust.{
  IsTrusted, BelowAll, verify_chain_sound, verify_chain-BelowAll,
}
use agent_mesh.Protocol.Authority.Fence.{from_delegated, from_scope, fs_read, axis, empty_closure}
use agent_mesh.Protocol.Authority.Fence.Bound.{
  item, covers, may_pass, delegates, admit_sound, admit-from_delegated,
}

-- An id for every grant: the number of the authority that it names, and 100 for a root.
number_grant : Grant → Result String ContentId
number_grant g = ok (g.authority + 100)

number_authority : Authority → Result String ContentId
number_authority a = ok 1

abbrev ids : Ids
ids = record { authority_id = number_authority; grant_id = number_grant }

abbrev root_grant : ResolvedGrant
root_grant = record {
  grant = record { authority = 1; derivation = root };
  authority = record { caveats = Caveats.top };
}

abbrev narrow : Caveats
narrow = record Caveats.top { fs_read = Scope.only ("/a" ∷ []) }

abbrev leaf : ResolvedGrant
leaf = record {
  grant = record { authority = 2; derivation = attenuation 101 };
  authority = record { caveats = narrow };
}

leaf_edge : check_derivation ids deny_all_elevations leaf (some root_grant) ≡ valid
unfolding check_derivation matched_parent number_grant Caveats.leq Scope.leq CountBound.leq
leaf_edge = refl

chain_trusted : verify_chain ids deny_all_elevations 101 (leaf ∷ root_grant ∷ []) ≡ trusted
unfolding verify_chain walk anchor last leaf_edge check_derivation matched_parent number_grant
    Caveats.leq Scope.leq CountBound.leq
chain_trusted = refl

verify_chain_sound_example : IsTrusted ids deny_all_elevations 101 leaf (root_grant ∷ [])
verify_chain_sound_example =
    verify_chain_sound ids deny_all_elevations 101 leaf (root_grant ∷ []) chain_trusted

verify_chain-BelowAll_example : BelowAll leaf (root_grant ∷ [])
verify_chain-BelowAll_example = verify_chain-BelowAll ids 101 leaf (root_grant ∷ []) chain_trusted

fence_passes : may_pass (axis (from_delegated narrow) fs_read) (item "/a") ≡ true
unfolding may_pass covers from_delegated from_scope contains
fence_passes = refl

admit_sound_example :
    (delegates narrow fs_read (item "/a") || covers (axis empty_closure fs_read) (item "/a")) ≡ true
admit_sound_example =
    admit_sound (from_delegated narrow) narrow empty_closure fs_read (item "/a")
      (admit-from_delegated narrow) fence_passes

-- Ids for the authorities that bound the calls and nothing else: the bound is the id.
bound_id :
    Scope.Scope String
    → Scope.Scope String
    → Scope.Scope String
    → Scope.Scope String
    → CountBound.CountBound
    → Scope.Scope ℕ
    → Result String ContentId
bound_id Scope.all Scope.all Scope.all Scope.all (CountBound.at_most n) Scope.all = ok n
bound_id _ _ _ _ _ _ = err "unsupported"

call_bound_id : Authority → Result String ContentId
call_bound_id a =
    bound_id a.caveats.fs_read a.caveats.fs_write a.caveats.exec a.caveats.net a.caveats.max_calls
      a.caveats.valid_for_generation

abbrev call_ids : Ids
call_ids = record { authority_id = call_bound_id; grant_id = number_grant }

abbrev at_most : ℕ → Authority
at_most n = record { caveats = record Caveats.top { max_calls = CountBound.at_most n } }

call_bound_id_lem : (a : Authority) (i : ℕ) → call_bound_id a ≡ ok i → a ≡ at_most i
unfolding call_bound_id bound_id
call_bound_id_lem a i h = ground arith

call_ids-CollisionFree : CollisionFree call_ids
call_ids-CollisionFree a b i ha hb = cc (call_bound_id_lem a i ha, call_bound_id_lem b i hb)

bound_grant : Grant
bound_grant = record { authority = 3; derivation = root }
