-- ===== src/Protocol/Caveats/Scope.antt =====
-- agent-mesh-protocol/src/caveats.rs: `Scope`, one set-valued axis of authority.
use agent_mesh.Common.{
  ◌≡◌, refl, Bool, true, false, ◌&&◌, List, [], arith, Eq, contains, is_subset, intersection,
  is_subset_refl, is_subset_trans, is_subset_elim, is_subset-intersection, contains-intersection,
}

pub data Scope {ℓ} (A : Type ℓ) : Type ℓ where
  all : Scope A
  only : List A → Scope A

abbrev pub top {ℓ} : {A : Type ℓ} → Scope A
top = all

-- Authorizes nothing.
abbrev pub none {ℓ} : {A : Type ℓ} → Scope A
none = only []

module _ {ℓ} {A : Type ℓ} ⦃e : Eq A⦄ where
  unfoldable pub leq : Scope A → Scope A → Bool
  leq _ all = true
  leq all (only _) = false
  leq (only a) (only b) = is_subset a b

  unfoldable pub meet : Scope A → Scope A → Scope A
  meet all x = x
  meet (only a) all = only a
  meet (only a) (only b) = only (intersection a b)

  -- Whether a scope authorizes an item.
  unfoldable pub permits : Scope A → A → Bool
  permits all x = true
  permits (only s) x = contains s x

  pub leq_refl : (a : Scope A) → leq a a ≡ true
  unfolding leq
  leq_refl all = refl
  leq_refl (only s) = is_subset_refl s

  pub leq_trans : (a b c : Scope A) → leq a b ≡ true → leq b c ≡ true → leq a c ≡ true
  unfolding leq
  leq_trans a b all h k = refl
  leq_trans a all (only z) h k = ground arith
  leq_trans all (only y) (only z) h k = ground arith
  leq_trans (only x) (only y) (only z) h k = is_subset_trans x y z h k

  pub leq-meet : (c a b : Scope A) → leq c (meet a b) ≡ (leq c a && leq c b)
  unfolding leq meet
  leq-meet c all all = refl
  leq-meet all all (only y) = refl
  leq-meet (only z) all (only y) = refl
  leq-meet all (only x) all = refl
  leq-meet (only z) (only x) all = ground arith
  leq-meet all (only x) (only y) = refl
  leq-meet (only z) (only x) (only y) = is_subset-intersection z x y

  pub permits-leq :
      (a b : Scope A) (x : A) → leq a b ≡ true → permits a x ≡ true → permits b x ≡ true
  unfolding leq permits
  permits-leq a all x h p = refl
  permits-leq all (only t) x h p = ground arith
  permits-leq (only s) (only t) x h p = is_subset_elim s t x h p

  pub permits-meet : (a b : Scope A) (x : A) → permits (meet a b) x ≡ (permits a x && permits b x)
  unfolding meet permits
  permits-meet all b x = refl
  permits-meet (only s) all x = ground arith
  permits-meet (only s) (only t) x = contains-intersection s t x
