-- ===== src/Bus/Replay/Nonces/Window.antt =====
-- The window of the nonce cache: how long an accepted nonce is refused.
use mathlib.Core.List.{append_assoc}
use agent_mesh.Common.{
  ℕ, suc, ◌+◌, ◌≤◌, ◌<◌, ◌≡◌, refl, true, false, not, List, [], ◌∷◌, ◌++◌, length, arith, ltb,
  contains, length-append, insert, nat_eq, contains-append, Bool-cases, inl, inr, ◌∙◌, ==_refl,
  ltb-false,
}
use agent_mesh.Bus.Replay.Nonces.{
  NonceCache, evict, forget, check_and_insert, IsValid, check_and_insert-IsValid,
}

-- `n` stands in the queue with at most `k` nonces behind it.
pub record Within (n k : ℕ) (order : List ℕ) : Type 0 where
  pub before : List ℕ
  pub after : List ℕ
  pub split : order ≡ before ++ n ∷ after
  pub recent : length after ≤ k

unfoldable pub offer : NonceCache → List ℕ → NonceCache
offer c [] = c
offer c (n ∷ ns) = offer (check_and_insert c n).0 ns

capacity-evict : (c : NonceCache) (seen order : List ℕ) → (evict c seen order).capacity ≡ c.capacity
unfolding evict
capacity-evict c seen [] = refl
capacity-evict c seen (x ∷ xs) = ground (arith, capacity-evict c (forget x seen) xs)

capacity-check_and_insert :
    (c : NonceCache) (n : ℕ) → (check_and_insert c n).0.capacity ≡ c.capacity
unfolding check_and_insert
capacity-check_and_insert c n =
    ground (arith, capacity-evict c (insert n c.seen) (c.order ++ n ∷ []))

-- Eviction stops before it reaches a nonce with fewer than `capacity` behind it.
evict-Within :
    (c : NonceCache) (n k : ℕ) (seen before after : List ℕ)
    → length after ≤ k
    → k < c.capacity
    → Within n k (evict c seen (before ++ n ∷ after)).order
unfolding evict
evict-Within c n k seen [] after r lt =
    rw (ltb-false c.capacity (length (n ∷ after)) (omega arith))
      (record { before = []; after = after; split = refl; recent = r })
evict-Within c n k seen (x ∷ before) after r lt =
    elim (Bool-cases (ltb c.capacity (length (x ∷ (before ++ n ∷ after))))) [
      | inl over ↦ rw over (evict-Within c n k (forget x seen) before after r lt)
      | inr fits ↦ rw fits (record { before = x ∷ before; after = after; split = refl; recent = r })
    ]

push-Within :
    (c : NonceCache) (n k m : ℕ)
    → Within n k c.order
    → suc k < c.capacity
    → Within n (suc k) (evict c (insert m c.seen) (c.order ++ m ∷ [])).order
push-Within c n k m w lt =
    simp (w.split, append_assoc)
      (evict-Within c n (suc k) (insert m c.seen) w.before (w.after ++ m ∷ [])
        (omega (arith, w.recent, length-append w.after (m ∷ []))) lt)

check_and_insert-Within :
    (c : NonceCache) (n k m : ℕ)
    → Within n k c.order
    → suc k < c.capacity
    → Within n (suc k) (check_and_insert c m).0.order
unfolding check_and_insert
check_and_insert-Within c n k m w lt = elim (Bool-cases (contains c.seen m)) [
  | inl old ↦ rw old (record {
    before = w.before;
    after = w.after;
    split = w.split;
    recent = omega (arith, w.recent);
  })
  | inr fresh ↦ rw fresh (push-Within c n k m w lt)
]

contains-Within : (n k : ℕ) (order : List ℕ) → Within n k order → contains order n ≡ true
unfolding contains
contains-Within n k order w =
    rw w.split (ground (arith, contains-append w.before (n ∷ w.after) n, ==_refl n))

refuses-Within :
    (c : NonceCache) (n k : ℕ) → IsValid c → Within n k c.order → check_and_insert c n ≡ (c, false)
unfolding check_and_insert
refuses-Within c n k v w = rw (v.same n ∙ contains-Within n k c.order w)

offer_refuses :
    (c : NonceCache) (n k : ℕ) (ns : List ℕ)
    → IsValid c
    → Within n k c.order
    → k + length ns < c.capacity
    → check_and_insert (offer c ns) n ≡ (offer c ns, false)
unfolding offer
offer_refuses c n k [] v w lt = refuses-Within c n k v w
offer_refuses c n k (m ∷ ns) v w lt =
    offer_refuses (check_and_insert c m).0 n (suc k) ns (check_and_insert-IsValid c m v)
      (check_and_insert-Within c n k m w (omega arith))
      (omega (arith, capacity-check_and_insert c m))

accepted-Within :
    (c : NonceCache) (n : ℕ)
    → 0 < c.capacity
    → (check_and_insert c n).1 ≡ true
    → Within n 0 (check_and_insert c n).0.order
unfolding check_and_insert
accepted-Within c n pos h = elim (Bool-cases (contains c.seen n)) [
  | inl old ↦ absurd (ground arith)
  | inr fresh ↦ rw fresh (evict-Within c n 0 (insert n c.seen) c.order [] (omega arith) pos)
]

-- A nonce that a valid cache accepts is refused as a duplicate, with no change to the cache, as
-- long as fewer than `capacity` further nonces have been offered.
pub accepted_then_refused :
    (c : NonceCache) (n : ℕ) (ns : List ℕ)
    → IsValid c
    → (check_and_insert c n).1 ≡ true
    → length ns < c.capacity
    → let d = offer (check_and_insert c n).0 ns in check_and_insert d n ≡ (d, false)
accepted_then_refused c n ns v h lt =
    offer_refuses (check_and_insert c n).0 n 0 ns (check_and_insert-IsValid c n v)
      (accepted-Within c n (omega arith) h) (omega (arith, capacity-check_and_insert c n))

-- A valid cache accepts a nonce exactly when its queue does not hold it.
pub accepts_iff :
    (c : NonceCache) (n : ℕ) → IsValid c → (check_and_insert c n).1 ≡ not (contains c.order n)
unfolding check_and_insert
accepts_iff c n v = ground (arith, v.same n)
