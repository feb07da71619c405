-- ===== src/Protocol/Caveats/Semantics.antt =====
-- What caveats permit: an action on one axis, described independently of `leq` and `meet`.
use agent_mesh.Common.{ℕ, String, ◌≡◌, true, Bool, ◌&&◌, arith, nat_eq, string_eq}
use agent_mesh.Protocol.Caveats.Scope
use agent_mesh.Protocol.Caveats.CountBound
use agent_mesh.Protocol.Caveats.{Caveats, leq, meet}

-- What an agent may ask for: one item of one axis.
pub data Action : Type 0 where
  reads writes executes reaches : String → Action
  calls in_generation : ℕ → Action

unfoldable pub permits : Caveats → Action → Bool
permits c (reads p) = Scope.permits c.fs_read p
permits c (writes p) = Scope.permits c.fs_write p
permits c (executes p) = Scope.permits c.exec p
permits c (reaches h) = Scope.permits c.net h
permits c (calls n) = CountBound.permits c.max_calls n
permits c (in_generation g) = Scope.permits c.valid_for_generation g

-- Attenuated caveats permit no action that the caveats above them refuse.
pub permits-leq :
    (a b : Caveats) (x : Action) → leq a b ≡ true → permits a x ≡ true → permits b x ≡ true
unfolding leq permits
permits-leq a b (reads p) h q = Scope.permits-leq a.fs_read b.fs_read p (ground arith) q
permits-leq a b (writes p) h q = Scope.permits-leq a.fs_write b.fs_write p (ground arith) q
permits-leq a b (executes p) h q = Scope.permits-leq a.exec b.exec p (ground arith) q
permits-leq a b (reaches p) h q = Scope.permits-leq a.net b.net p (ground arith) q
permits-leq a b (calls n) h q = CountBound.permits-leq a.max_calls b.max_calls n (ground arith) q
permits-leq a b (in_generation g) h q =
    Scope.permits-leq a.valid_for_generation b.valid_for_generation g (ground arith) q

-- The meet of two caveats permits exactly the actions that both permit, on every axis.
pub permits-meet :
    (a b : Caveats) (x : Action) → permits (meet a b) x ≡ (permits a x && permits b x)
unfolding meet permits
permits-meet a b (reads p) = Scope.permits-meet a.fs_read b.fs_read p
permits-meet a b (writes p) = Scope.permits-meet a.fs_write b.fs_write p
permits-meet a b (executes p) = Scope.permits-meet a.exec b.exec p
permits-meet a b (reaches p) = Scope.permits-meet a.net b.net p
permits-meet a b (calls n) = CountBound.permits-meet a.max_calls b.max_calls n
permits-meet a b (in_generation g) =
    Scope.permits-meet a.valid_for_generation b.valid_for_generation g
