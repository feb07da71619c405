-- ===== src/Protocol/Caveats/CountBound.antt =====
-- agent-mesh-protocol/src/caveats.rs: `CountBound`, an upper bound on a number.
use agent_mesh.Common.{ℕ, min, ◌≡◌, refl, Bool, true, false, ◌&&◌, arith, leb}

pub data CountBound : Type 0 where
  unlimited : CountBound
  at_most : ℕ → CountBound

abbrev pub top : CountBound
top = unlimited

unfoldable pub leq : CountBound → CountBound → Bool
leq _ unlimited = true
leq unlimited (at_most _) = false
leq (at_most a) (at_most b) = leb a b

unfoldable pub meet : CountBound → CountBound → CountBound
meet unlimited x = x
meet (at_most a) unlimited = at_most a
meet (at_most a) (at_most b) = at_most (min a b)

-- Whether a bound allows `n` calls.
unfoldable pub permits : CountBound → ℕ → Bool
permits unlimited n = true
permits (at_most m) n = leb n m

pub leq_refl : (a : CountBound) → leq a a ≡ true
unfolding leq
leq_refl unlimited = refl
leq_refl (at_most n) = ground arith

pub leq_trans : (a b c : CountBound) → leq a b ≡ true → leq b c ≡ true → leq a c ≡ true
unfolding leq
leq_trans a b unlimited h k = refl
leq_trans a unlimited (at_most z) h k = ground arith
leq_trans unlimited (at_most y) (at_most z) h k = ground arith
leq_trans (at_most x) (at_most y) (at_most z) h k = ground arith

pub leq-meet : (c a b : CountBound) → leq c (meet a b) ≡ (leq c a && leq c b)
unfolding leq meet
leq-meet c unlimited unlimited = refl
leq-meet unlimited unlimited (at_most y) = refl
leq-meet (at_most z) unlimited (at_most y) = refl
leq-meet unlimited (at_most x) unlimited = refl
leq-meet (at_most z) (at_most x) unlimited = ground arith
leq-meet unlimited (at_most x) (at_most y) = refl
leq-meet (at_most z) (at_most x) (at_most y) = ground arith

pub permits-leq :
    (a b : CountBound) (n : ℕ) → leq a b ≡ true → permits a n ≡ true → permits b n ≡ true
unfolding leq permits
permits-leq a unlimited n h p = refl
permits-leq unlimited (at_most t) n h p = ground arith
permits-leq (at_most s) (at_most t) n h p = ground arith

pub permits-meet : (a b : CountBound) (n : ℕ) → permits (meet a b) n ≡ (permits a n && permits b n)
unfolding meet permits
permits-meet unlimited b n = refl
permits-meet (at_most s) unlimited n = ground arith
permits-meet (at_most s) (at_most t) n = ground arith
