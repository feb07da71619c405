-- ===== src/Protocol/Authority/Fence/Bound.antt =====
-- The bound that an admitted fence keeps, in terms of what scopes cover.
use mathlib.Core.List.{append-nil}
use agent_mesh.Common.{
  String, ◌≡◌, refl, Bool, true, false, ◌||◌, arith, contains, set_eq, union, filter, string_eq,
  is_subset_elim, contains-union, set_eq_refl,
}
use agent_mesh.Protocol.Caveats.{Caveats}
use agent_mesh.Protocol.Caveats.Scope
use agent_mesh.Protocol.Caveats.Scope.{Scope}
use agent_mesh.Protocol.Authority.Fence.{
  ResolvedScope, bounded, unbounded, unknown, empty, from_scope, join, relate, within, equal,
  ResolvedAuthority, ConfinedAxis, fs_read, fs_write, exec, net, axis, from_delegated, admitted,
  admit, empty_closure,
}

-- What a fence may let through on an axis: a named item, or a whole class of items.
pub data Reach : Type 0 where
  item : String → Reach
  class : String → Reach

-- What a scope is known to cover. One that could not be resolved is known to cover nothing.
unfoldable pub covers : ResolvedScope → Reach → Bool
covers unknown _ = false
covers unbounded _ = true
covers (bounded c l) (item x) = contains c x
covers (bounded c l) (class x) = contains l x

-- What a fence with this scope may let through. One that could not be resolved may let anything
-- through.
unfoldable pub may_pass : ResolvedScope → Reach → Bool
may_pass unknown _ = true
may_pass r x = covers r x

abbrev pub is_known : ResolvedScope → Bool
is_known unknown = false
is_known _ = true

abbrev pub delegated_axis : Caveats → ConfinedAxis → Scope String
delegated_axis c fs_read = c.fs_read
delegated_axis c fs_write = c.fs_write
delegated_axis c exec = c.exec
delegated_axis c net = c.net

-- What the delegated caveats themselves authorize.
unfoldable pub delegates : Caveats → ConfinedAxis → Reach → Bool
delegates c a (item x) = Scope.permits (delegated_axis c a) x
delegates c a (class x) = Scope.leq Scope.all (delegated_axis c a)

-- A fence that the relation finds within a bound lets nothing through that the bound does not cover.
covers-relate :
    (r b : ResolvedScope) (x : Reach)
    → within (relate r b) ≡ true
    → may_pass r x ≡ true
    → covers b x ≡ true
unfolding relate may_pass covers set_eq
covers-relate unknown b x w c = ground arith
covers-relate unbounded unknown x w c = ground arith
covers-relate unbounded unbounded x w c = refl
covers-relate unbounded (bounded cb lb) x w c = ground arith
covers-relate (bounded ca la) unknown x w c = ground arith
covers-relate (bounded ca la) unbounded x w c = refl
covers-relate (bounded ca la) (bounded cb lb) (item x) w c = ground (arith, is_subset_elim ca cb x)
covers-relate (bounded ca la) (bounded cb lb) (class x) w c = ground (arith, is_subset_elim la lb x)

covers-join :
    (a b : ResolvedScope) (x : Reach)
    → covers (join a b) x ≡ true
    → (covers a x || covers b x) ≡ true
unfolding join covers
covers-join unknown b x h = ground arith
covers-join unbounded unknown x h = ground arith
covers-join unbounded unbounded x h = refl
covers-join unbounded (bounded c l) x h = refl
covers-join (bounded c l) unknown x h = ground arith
covers-join (bounded c l) unbounded x h = ground arith
covers-join (bounded ca la) (bounded cb lb) (item x) h = ground (arith, contains-union ca cb x)
covers-join (bounded ca la) (bounded cb lb) (class x) h = ground (arith, contains-union la lb x)

covers-from_scope :
    (s : Scope String) (x : String)
    → (covers (from_scope s) (item x) ≡ Scope.permits s x)
      × (covers (from_scope s) (class x) ≡ Scope.leq Scope.all s)
unfolding covers from_scope Scope.permits Scope.leq contains
covers-from_scope Scope.all x = (refl, refl)
covers-from_scope (Scope.only s) x = (refl, refl)

covers-from_delegated :
    (c : Caveats) (a : ConfinedAxis) (x : Reach)
    → covers (axis (from_delegated c) a) x ≡ delegates c a x
unfolding from_delegated delegates
covers-from_delegated c fs_read (item x) = (covers-from_scope c.fs_read x).0
covers-from_delegated c fs_read (class x) = (covers-from_scope c.fs_read x).1
covers-from_delegated c fs_write (item x) = (covers-from_scope c.fs_write x).0
covers-from_delegated c fs_write (class x) = (covers-from_scope c.fs_write x).1
covers-from_delegated c exec (item x) = (covers-from_scope c.exec x).0
covers-from_delegated c exec (class x) = (covers-from_scope c.exec x).1
covers-from_delegated c net (item x) = (covers-from_scope c.net x).0
covers-from_delegated c net (class x) = (covers-from_scope c.net x).1

admit-within :
    (r : ResolvedAuthority) (c : Caveats) (k : ResolvedAuthority) (a : ConfinedAxis)
    → admit r c k ≡ admitted
    → within (relate (axis r a) (join (axis (from_delegated c) a) (axis k a))) ≡ true
unfolding admit
admit-within r c k fs_read h = ground arith
admit-within r c k fs_write h = ground arith
admit-within r c k exec h = ground arith
admit-within r c k net h = ground arith

-- An admitted fence may let nothing through, on any axis, but what the delegated caveats authorize or
-- the explicit closure is known to cover, where a fence whose scope is unresolved may let anything
-- through and a closure whose scope is unresolved is known to cover nothing.
pub admit_sound :
    (r : ResolvedAuthority) (c : Caveats) (k : ResolvedAuthority) (a : ConfinedAxis) (x : Reach)
    → admit r c k ≡ admitted
    → may_pass (axis r a) x ≡ true
    → (delegates c a x || covers (axis k a) x) ≡ true
admit_sound r c k a x h m =
    let b = join (axis (from_delegated c) a) (axis k a) in
    ground (
      arith,
      covers-relate (axis r a) b x (admit-within r c k a h) m,
      covers-join (axis (from_delegated c) a) (axis k a) x,
      covers-from_delegated c a x,
    )

relate_known :
    (r b k : ResolvedScope)
    → within (relate r (join b k)) ≡ true
    → (is_known r ≡ true) × (is_known k ≡ true)
unfolding relate join
relate_known unknown b k w = ground arith
relate_known unbounded unknown k w = ground arith
relate_known unbounded b unknown w = ground arith
relate_known unbounded b k w = ground arith
relate_known (bounded c l) unknown k w = ground arith
relate_known (bounded c l) b unknown w = ground arith
relate_known (bounded c l) b k w = ground arith

-- A fence, or a closure, that could not be resolved on some axis is refused.
pub admit_known :
    (r : ResolvedAuthority) (c : Caveats) (k : ResolvedAuthority) (a : ConfinedAxis)
    → admit r c k ≡ admitted
    → (is_known (axis r a) ≡ true) × (is_known (axis k a) ≡ true)
admit_known r c k a h =
    relate_known (axis r a) (axis (from_delegated c) a) (axis k a) (admit-within r c k a h)

relate_self : (s : Scope String) → relate (from_scope s) (join (from_scope s) empty) ≡ equal
unfolding relate join from_scope union filter
relate_self Scope.all = refl
relate_self (Scope.only set) = simp (append-nil, set_eq_refl)

-- A fence that lets through exactly what is delegated needs no closure to be admitted.
pub admit-from_delegated : (c : Caveats) → admit (from_delegated c) c empty_closure ≡ admitted
unfolding admit from_delegated
admit-from_delegated c =
    simp (relate_self c.fs_read, relate_self c.fs_write, relate_self c.exec, relate_self c.net)
