-- ===== src/Protocol/Authority/Fence.antt =====
-- authority.rs: the resolved-authority lattice, and the admission of a native fence.
pub mod Bound
use agent_mesh.Common.{
  String, ◌≡◌, Bool, true, false, ◌&&◌, List, [], ◌∷◌, if◌then◌else◌, is_subset, set_eq, union,
  string_eq,
}
use agent_mesh.Protocol.Caveats.{Caveats}
use agent_mesh.Protocol.Caveats.Scope
use agent_mesh.Protocol.Caveats.Scope.{Scope}

pub data ResolvedScope : Type 0 where
  bounded : List String → List String → ResolvedScope
  unbounded : ResolvedScope
  unknown : ResolvedScope

abbrev pub empty : ResolvedScope
empty = bounded [] []

unfoldable pub from_scope : Scope String → ResolvedScope
from_scope Scope.all = unbounded
from_scope (Scope.only set) = bounded set []

-- `ResolvedScope::union`.
unfoldable pub join : ResolvedScope → ResolvedScope → ResolvedScope
join unknown _ = unknown
join unbounded unknown = unknown
join unbounded (bounded _ _) = unbounded
join unbounded unbounded = unbounded
join (bounded _ _) unknown = unknown
join (bounded _ _) unbounded = unbounded
join (bounded ca la) (bounded cb lb) = bounded (union ca cb) (union la lb)

pub data ScopeRelation : Type 0 where
  equal subset superset incomparable undecided : ScopeRelation

unfoldable pub relate : ResolvedScope → ResolvedScope → ScopeRelation
relate unknown _ = undecided
relate unbounded unknown = undecided
relate (bounded _ _) unknown = undecided
relate unbounded unbounded = equal
relate unbounded (bounded _ _) = superset
relate (bounded _ _) unbounded = subset
relate (bounded ca la) (bounded cb lb) =
    if set_eq ca cb && set_eq la lb
    then equal
    else if is_subset ca cb && is_subset la lb
    then subset
    else if is_subset cb ca && is_subset lb la
    then superset
    else incomparable

pub record ResolvedAuthority : Type 0 where
  pub fs_read : ResolvedScope
  pub fs_write : ResolvedScope
  pub exec : ResolvedScope
  pub net : ResolvedScope

pub data ConfinedAxis : Type 0 where
  fs_read fs_write exec net : ConfinedAxis

abbrev pub axis : ResolvedAuthority → ConfinedAxis → ResolvedScope
axis r fs_read = r.fs_read
axis r fs_write = r.fs_write
axis r exec = r.exec
axis r net = r.net

abbrev pub axes : ResolvedAuthority → List (ConfinedAxis × ResolvedScope)
axes r = (fs_read, r.fs_read) ∷ (fs_write, r.fs_write) ∷ (exec, r.exec) ∷ (net, r.net) ∷ []

unfoldable pub from_delegated : Caveats → ResolvedAuthority
from_delegated c = record {
  fs_read = from_scope c.fs_read;
  fs_write = from_scope c.fs_write;
  exec = from_scope c.exec;
  net = from_scope c.net;
}

pub data AdmissionDecision : Type 0 where
  admitted : AdmissionDecision
  refused : ConfinedAxis → ScopeRelation → AdmissionDecision

abbrev pub within : ScopeRelation → Bool
within equal = true
within subset = true
within _ = false

-- The loop over the axes, with its early return.
unfoldable pub admit_axes :
    ResolvedAuthority → ResolvedAuthority → List (ConfinedAxis × ResolvedScope) → AdmissionDecision
admit_axes delegated closure [] = admitted
admit_axes delegated closure ((a, fence_scope) ∷ rest) =
    let relation = relate fence_scope (join (axis delegated a) (axis closure a)) in
    let next = admit_axes delegated closure rest in
    if within relation then next else refused a relation

unfoldable pub admit : ResolvedAuthority → Caveats → ResolvedAuthority → AdmissionDecision
unfolding admit_axes
admit resolved delegated closure = admit_axes (from_delegated delegated) closure (axes resolved)

abbrev pub empty_closure : ResolvedAuthority
empty_closure = record { fs_read = empty; fs_write = empty; exec = empty; net = empty }
