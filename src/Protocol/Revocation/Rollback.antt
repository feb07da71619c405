-- ===== src/Protocol/Revocation/Rollback.antt =====
-- revocation.rs: what a reader that checks `extends` against the last state it saw is sure of.
use agent_mesh.Common.{
  Result-cases, ℕ, zero, suc, ◌-◌, ◌≡◌, refl, sym, subst, some, List, [], ◌∷◌, length, nat_eq, ok,
  arith, ==_iff, inl, inr, Option-cases,
}
use agent_mesh.Protocol.Revocation.{
  SignedEntry, RevocationState, RevocationLog, Crypto, ContentId, UserPublic, Seen, seen,
  verify_rest, verify, first_state, entry_at, extends,
}
use agent_mesh.Protocol.Revocation.Steps.{
  Started, verify_step-Stepped, verify_rest-next, verify-Started,
}
use agent_mesh.Protocol.Revocation.Runs.{
  CollisionFree, Keeps, verify_rest-Keeps, verify_rest-len, verify_rest-Cut, nodes, Stepped-same,
}

-- Two runs of one length to one head pass the same nodes, from one head.
verify_rest-same :
    (x : Crypto) (u v : UserPublic) (s r : RevocationState) (es ds : List SignedEntry)
    (t q : RevocationState)
    → CollisionFree x
    → verify_rest x u s es ≡ ok t
    → verify_rest x v r ds ≡ ok q
    → length es ≡ length ds
    → t.head ≡ q.head
    → (s.head ≡ r.head) × (nodes es ≡ nodes ds)
unfolding verify_rest
verify_rest-same x u v s r [] [] t q free a b n h = (ground arith, refl)
verify_rest-same x u v s r [] (d ∷ ds) t q free a b n h = absurd (ground arith)
verify_rest-same x u v s r (e ∷ es) [] t q free a b n h = absurd (ground arith)
verify_rest-same x u v s r (e ∷ es) (d ∷ ds) t q free a b n h =
    let (m, step, rest) = verify_rest-next x u s e es t a in
    let (l, stepd, restd) = verify_rest-next x v r d ds q b in
    let (heads, same) = verify_rest-same x u v m l es ds t q free rest restd (ground arith) h in
    let p = verify_step-Stepped x u s e m step in
    let o = verify_step-Stepped x v r d l stepd in
    let (head, node) = Stepped-same x u v s r e d m l free p o heads in (head, ground arith)

-- A run's end is a function of its start and its nodes.
verify_rest-nodes :
    (x : Crypto) (u v : UserPublic) (s : RevocationState) (es ds : List SignedEntry)
    (t q : RevocationState)
    → verify_rest x u s es ≡ ok t
    → verify_rest x v s ds ≡ ok q
    → nodes es ≡ nodes ds
    → t ≡ q
unfolding verify_rest
verify_rest-nodes x u v s [] [] t q a b n = ground arith
verify_rest-nodes x u v s [] (d ∷ ds) t q a b n = absurd (ground arith)
verify_rest-nodes x u v s (e ∷ es) [] t q a b n = absurd (ground arith)
verify_rest-nodes x u v s (e ∷ es) (d ∷ ds) t q a b n =
    let (m, step, rest) = verify_rest-next x u s e es t a in
    let (l, stepd, restd) = verify_rest-next x v s d ds q b in
    let p = verify_step-Stepped x u s e m step in
    let o = verify_step-Stepped x v s d l stepd in
    let node : e.node ≡ d.node = ground arith in
    let ids : p.id ≡ o.id = ground (arith, p.link.named, o.link.named) in
    let same : m ≡ l = ground (arith, p.next, o.next, ids, node) in
    verify_rest-nodes x u v m es ds t q rest
      (subst (λ z. verify_rest x v z ds ≡ ok q) (sym same) restd) (ground arith)

-- The run of a verified log up to a position, and the run from there.
record Prefix (x : Crypto) (user : UserPublic) (s : RevocationState) (n : ℕ) (id : ContentId)
    (t : RevocationState) : Type 0 where
  before : List SignedEntry
  middle : RevocationState
  count : length before ≡ n
  head : middle.head ≡ id
  first : verify_rest x user s before ≡ ok middle
  keeps : Keeps middle t

entry_at-Prefix :
    (x : Crypto) (f : SignedEntry) (ds : List SignedEntry) (t : RevocationState)
    (p : Started x f ds t) (n : ℕ) (at : SignedEntry) (id : ContentId)
    → entry_at x (f ∷ ds) n ≡ some at
    → x.node_id at.node ≡ ok id
    → Prefix x p.user (first_state x p.user p.head) n id t
unfolding entry_at verify_rest
entry_at-Prefix x f ds t p zero at id here named = record {
  before = [];
  middle = first_state x p.user p.head;
  count = refl;
  head = ground (arith, p.link.named);
  first = refl;
  keeps = verify_rest-Keeps x p.user (first_state x p.user p.head) ds t p.rest;
}
entry_at-Prefix x f ds t p (suc k) at id here named =
    let c = verify_rest-Cut x p.user (first_state x p.user p.head) ds t k at id p.rest here named in
    record {
      before = c.before;
      middle = c.middle;
      count = ground (arith, c.count);
      head = c.head;
      first = c.first;
      keeps = verify_rest-Keeps x p.user c.middle c.after t c.last;
    }

-- What a successful check rests on.
record Extended (x : Crypto) (log : RevocationLog) (last : Seen) : Type 0 where
  state : RevocationState
  at : SignedEntry
  verified : verify x log ≡ ok state
  here : entry_at x log (last.len - 1) ≡ some at
  named : x.node_id at.node ≡ ok last.head

extends-Extended :
    (x : Crypto) (log : RevocationLog) (last : Seen)
    → extends x log last ≡ ok tt
    → Extended x log last
unfolding extends
extends-Extended x log last h = elim (Result-cases (verify x log)) [
  | inl (s, verified) ↦ elim (Option-cases (entry_at x log (last.len - 1))) [
    | inl none_there ↦ absurd (ground arith)
    | inr (at, here) ↦ elim (Result-cases (x.node_id at.node)) [
      | inl (id, named) ↦ record {
        state = s;
        at = at;
        verified = verified;
        here = here;
        named = ground (arith, ==_iff id last.head);
      }
      | inr (m, failed) ↦ absurd (ground arith)
    ]
  ]
  | inr (m, failed) ↦ absurd (ground arith)
]

-- Runs of two logs that meet at one head: the whole of the first is the start of the second.
meet :
    (x : Crypto) (e f : SignedEntry) (es ds : List SignedEntry) (s t : RevocationState)
    → CollisionFree x
    → (a : Started x e es s) (b : Started x f ds t)
    → Prefix x b.user (first_state x b.user b.head) (length es) s.head t
    → Keeps s t
meet x e f es ds s t free a b p =
    let sa = first_state x a.user a.head in
    let sb = first_state x b.user b.head in
    let (heads, same) =
      verify_rest-same x a.user b.user sa sb es p.before s p.middle free a.rest p.first
        (sym p.count) (sym p.head) in
    let node = free e.node f.node b.head (ground (arith, a.link.named, heads)) b.link.named in
    let user : a.user ≡ b.user = ground (arith, a.payload, b.payload, node) in
    let start : sa ≡ sb = ground (arith, user, heads) in
    let first = subst (λ z. verify_rest x b.user z p.before ≡ ok p.middle) (sym start) p.first in
    let middle = verify_rest-nodes x a.user b.user sa es p.before s p.middle a.rest first same in
    subst (λ z. Keeps z t) (sym middle) p.keeps

-- No rollback: where node ids do not collide, a log that extends the last state seen of a verified
-- log is itself verified, belongs to the same user, revokes all that the seen log revoked, and is at
-- no lower generation and no shorter.
pub extends-Keeps :
    (x : Crypto) (early late : RevocationLog) (s : RevocationState)
    → CollisionFree x
    → verify x early ≡ ok s
    → extends x late (seen s) ≡ ok tt
    → (t : RevocationState) × (verify x late ≡ ok t) × Keeps s t
unfolding verify
extends-Keeps x [] late s free h k = absurd (ground arith)
extends-Keeps x (e ∷ es) [] s free h k =
    absurd (ground (arith, (extends-Extended x [] (seen s) k).verified))
extends-Keeps x (e ∷ es) (f ∷ ds) s free h k =
    let w = extends-Extended x (f ∷ ds) (seen s) k in
    let a = verify-Started x e es s h in
    let b = verify-Started x f ds w.state w.verified in
    let len = verify_rest-len x a.user (first_state x a.user a.head) es s a.rest in
    let count : s.len - 1 ≡ length es = ground (arith, len) in
    let here = subst (λ n. entry_at x (f ∷ ds) n ≡ some w.at) count w.here in
    let p = entry_at-Prefix x f ds w.state b (length es) w.at s.head here w.named in
    (w.state, w.verified, meet x e f es ds s w.state free a b p)
