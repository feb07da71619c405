-- ===== src/Protocol/Caveats/Laws.antt =====
-- The laws of the meet-semilattice that the module docs of caveats.rs name, for whole caveats.
use agent_mesh.Common.{◌≡◌, refl, true, ◌&&◌, arith, nat_eq, string_eq}
use agent_mesh.Protocol.Caveats.Scope
use agent_mesh.Protocol.Caveats.CountBound
use agent_mesh.Protocol.Caveats.{Caveats, top, leq, meet}

pub leq_refl : (a : Caveats) → leq a a ≡ true
unfolding leq
leq_refl a = ground (
  arith,
  Scope.leq_refl a.fs_read,
  Scope.leq_refl a.fs_write,
  Scope.leq_refl a.exec,
  Scope.leq_refl a.net,
  CountBound.leq_refl a.max_calls,
  Scope.leq_refl a.valid_for_generation,
)

-- Attenuation composes: what attenuates a child attenuates the child's parent.
pub leq_trans : (a b c : Caveats) → leq a b ≡ true → leq b c ≡ true → leq a c ≡ true
unfolding leq
leq_trans a b c h k = ground (
  arith,
  Scope.leq_trans a.fs_read b.fs_read c.fs_read,
  Scope.leq_trans a.fs_write b.fs_write c.fs_write,
  Scope.leq_trans a.exec b.exec c.exec,
  Scope.leq_trans a.net b.net c.net,
  CountBound.leq_trans a.max_calls b.max_calls c.max_calls,
  Scope.leq_trans a.valid_for_generation b.valid_for_generation c.valid_for_generation,
)

-- `meet a b` is the greatest lower bound: caveats lie below it exactly when they lie below both.
pub leq-meet : (c a b : Caveats) → leq c (meet a b) ≡ (leq c a && leq c b)
unfolding leq meet
leq-meet c a b = ground (
  arith,
  Scope.leq-meet c.fs_read a.fs_read b.fs_read,
  Scope.leq-meet c.fs_write a.fs_write b.fs_write,
  Scope.leq-meet c.exec a.exec b.exec,
  Scope.leq-meet c.net a.net b.net,
  CountBound.leq-meet c.max_calls a.max_calls b.max_calls,
  Scope.leq-meet c.valid_for_generation a.valid_for_generation b.valid_for_generation,
)

-- `meet` never amplifies: the meet of two caveats lies below each of them.
pub meet-leq : (a b : Caveats) → (leq (meet a b) a ≡ true) × (leq (meet a b) b ≡ true)
meet-leq a b = ground (arith, leq-meet (meet a b) a b, leq_refl (meet a b))

-- Nothing exceeds the user's full authority.
pub leq-top : (a : Caveats) → leq a top ≡ true
unfolding leq Scope.leq CountBound.leq
leq-top a = refl
