-- ===== src/Bus/Replay/Nonces.antt =====
-- replay.rs: `NonceCache`. A nonce is the number that its 24 bytes spell.
pub mod Window
use agent_mesh.Common.{
  ℕ, ◌+◌, ◌≤◌, ◌≡◌, refl, Bool, true, false, not, List, [], ◌∷◌, ◌++◌, length, arith, ltb, ◌==◌,
  if◌then◌else◌, contains, distinct, insert, filter, distinct-concat, nat_eq, length-append,
  contains-append, contains-filter, contains-insert, ==_iff, Bool-cases, inl, inr, sym, ◌∙◌,
}

pub record NonceCache : Type 0 where
  pub seen : List ℕ
  pub order : List ℕ
  pub capacity : ℕ

pub new : ℕ → NonceCache
new capacity = record { seen = []; order = []; capacity = capacity }

-- `seen.remove(&old)`.
abbrev pub forget : ℕ → List ℕ → List ℕ
forget old seen = filter (λ n. not (n == old)) seen

-- The `while` loop: drop the oldest nonce while the queue exceeds the capacity.
unfoldable pub evict : NonceCache → List ℕ → List ℕ → NonceCache
evict c seen [] = record c { seen = seen; order = [] }
evict c seen (old ∷ rest) =
    let next = evict c (forget old seen) rest in
    if ltb c.capacity (length (old ∷ rest))
    then next
    else record c { seen = seen; order = old ∷ rest }

unfoldable pub check_and_insert : NonceCache → ℕ → NonceCache × Bool
check_and_insert c nonce =
    if contains c.seen nonce
    then (c, false)
    else (evict c (insert nonce c.seen) (c.order ++ nonce ∷ []), true)

pub len : NonceCache → ℕ
len c = length c.seen

-- The set and the queue hold the same nonces, the queue holds none twice, and it keeps within the
-- capacity.
pub record IsValid (c : NonceCache) : Type 0 where
  pub same : (n : ℕ) → contains c.seen n ≡ contains c.order n
  pub once : distinct c.order ≡ true
  pub bounded : length c.order ≤ c.capacity

pub new-IsValid : (capacity : ℕ) → IsValid (new capacity)
unfolding new distinct
new-IsValid capacity = record { same = λ n. refl; once = refl; bounded = omega arith }

forget_same :
    (old : ℕ) (seen rest : List ℕ)
    → ((n : ℕ) → contains seen n ≡ contains (old ∷ rest) n)
    → contains rest old ≡ false
    → (n : ℕ) → contains (forget old seen) n ≡ contains rest n
unfolding contains
forget_same old seen rest s fresh n =
    ground (arith, contains-filter (λ m. not (m == old)) seen n, s n, ==_iff n old, ==_iff old n)

evict-IsValid :
    (c : NonceCache) (seen order : List ℕ)
    → ((n : ℕ) → contains seen n ≡ contains order n)
    → distinct order ≡ true
    → IsValid (evict c seen order)
unfolding evict distinct
evict-IsValid c seen [] s d = record { same = s; once = refl; bounded = omega arith }
evict-IsValid c seen (old ∷ rest) s d = elim (Bool-cases (ltb c.capacity (length (old ∷ rest)))) [
  | inl over ↦ rw over (
      evict-IsValid c (forget old seen) rest (forget_same old seen rest s (ground arith))
        (ground arith))
  | inr fits ↦ rw fits (record { same = s; once = d; bounded = ground arith })
]

contains-single : (n x : ℕ) → contains (n ∷ []) x ≡ (n == x)
unfolding contains
contains-single n x = ground arith

grow :
    (c : NonceCache) (n : ℕ)
    → IsValid c
    → (m : ℕ) → contains (insert n c.seen) m ≡ contains (c.order ++ n ∷ []) m
grow c n v m = ground (
  arith,
  contains-insert n c.seen m,
  contains-append c.order (n ∷ []) m,
  contains-single n m,
  v.same m,
)

-- From a valid cache, a call leaves a valid cache: the set and the queue agree, no nonce is held
-- twice, and the capacity is a hard ceiling.
pub check_and_insert-IsValid :
    (c : NonceCache) (n : ℕ) → IsValid c → IsValid (check_and_insert c n).0
unfolding check_and_insert
check_and_insert-IsValid c n v = elim (Bool-cases (contains c.seen n)) [
  | inl old ↦ rw old v
  | inr fresh ↦ rw fresh (
      evict-IsValid c (insert n c.seen) (c.order ++ n ∷ []) (grow c n v)
        (distinct-concat c.order n v.once (sym (v.same n) ∙ fresh)))
]
