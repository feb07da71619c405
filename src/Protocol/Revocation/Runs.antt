-- ===== src/Protocol/Revocation/Runs.antt =====
-- revocation.rs: the loop of `verify` over several entries.
use agent_mesh.Common.{
  ℕ, zero, suc, ◌+◌, ◌≤◌, ◌≡◌, refl, sym, ap, subst, ◌∙◌, true, some, List, [], ◌∷◌, map, length,
  contains, nat_eq, Result, ok, arith, ==_iff, contains-insert,
}
use agent_mesh.Protocol.Revocation.{
  RevocationEntry, genesis, revoke, generation, Node, SignedEntry, RevocationState, RevocationError,
  Crypto, ContentId, Fingerprint, UserPublic, verify_step, verify_rest, links, entry_at,
}
use agent_mesh.Protocol.Revocation.Steps.{
  Stepped, moved, is_allowed, verify_step-Stepped, verify_rest-next,
}

-- Two nodes with one id are one node.
abbrev pub CollisionFree : Crypto → Type 0
CollisionFree x = (a b : Node) (i : ContentId) → x.node_id a ≡ ok i → x.node_id b ≡ ok i → a ≡ b

-- The later state revokes all that the earlier one does, at no lower generation, of the same user.
pub record Keeps (s t : RevocationState) : Type 0 where
  pub user : t.user ≡ s.user
  pub generation : s.generation ≤ t.generation
  pub len : s.len ≤ t.len
  pub revoked : (a : Fingerprint) → contains s.revoked a ≡ true → contains t.revoked a ≡ true

pub Keeps_refl : (s : RevocationState) → Keeps s s
Keeps_refl s = record {
  user = refl;
  generation = omega arith;
  len = omega arith;
  revoked = λ a h. h;
}

Keeps_trans : (r s t : RevocationState) → Keeps r s → Keeps s t → Keeps r t
Keeps_trans r s t a b = record {
  user = b.user ∙ a.user;
  generation = ground (arith, a.generation, b.generation);
  len = ground (arith, a.len, b.len);
  revoked = λ f h. b.revoked f (a.revoked f h);
}

moved-Keeps :
    (s : RevocationState) (id : ContentId) (e : RevocationEntry)
    → is_allowed s e ≡ true
    → Keeps s (moved s id e)
moved-Keeps s id (genesis u) h = Keeps_refl s
moved-Keeps s id (revoke agent) h = record {
  user = refl;
  generation = omega arith;
  len = omega arith;
  revoked = λ a m. ground (arith, contains-insert agent s.revoked a);
}
moved-Keeps s id (generation n) h = record {
  user = refl;
  generation = ground arith;
  len = omega arith;
  revoked = λ a m. m;
}

Stepped-Keeps :
    (x : Crypto) (user : UserPublic) (s : RevocationState) (e : SignedEntry) (t : RevocationState)
    → Stepped x user s e t
    → Keeps s t
Stepped-Keeps x user s e t p =
    subst (Keeps s) (sym p.next) (moved-Keeps s p.id e.node.payload p.fit)

pub ok_inj :
    (a b : RevocationState) → ◌≡◌ {A = Result RevocationError RevocationState} (ok a) (ok b) → a ≡ b
ok_inj a b h = ground arith

-- More of a log only adds revocations, and only raises the generation.
pub verify_rest-Keeps :
    (x : Crypto) (user : UserPublic) (s : RevocationState) (es : List SignedEntry)
    (t : RevocationState)
    → verify_rest x user s es ≡ ok t
    → Keeps s t
unfolding verify_rest
verify_rest-Keeps x user s [] t h = subst (Keeps s) (ok_inj s t h) (Keeps_refl s)
verify_rest-Keeps x user s (e ∷ es) t h =
    let (m, step, rest) = verify_rest-next x user s e es t h in
    Keeps_trans s m t (Stepped-Keeps x user s e m (verify_step-Stepped x user s e m step))
      (verify_rest-Keeps x user m es t rest)

pub moved_len :
    (s : RevocationState) (id : ContentId) (e : RevocationEntry)
    → is_allowed s e ≡ true
    → (moved s id e).len ≡ s.len + 1
moved_len s id (genesis u) h = absurd (ground arith)
moved_len s id (revoke a) h = refl
moved_len s id (generation n) h = refl

pub moved_head :
    (s : RevocationState) (id : ContentId) (e : RevocationEntry)
    → is_allowed s e ≡ true
    → (moved s id e).head ≡ id
moved_head s id (genesis u) h = absurd (ground arith)
moved_head s id (revoke a) h = refl
moved_head s id (generation n) h = refl

pub verify_rest-len :
    (x : Crypto) (user : UserPublic) (s : RevocationState) (es : List SignedEntry)
    (t : RevocationState)
    → verify_rest x user s es ≡ ok t
    → t.len ≡ s.len + length es
unfolding verify_rest
verify_rest-len x user s [] t h = ground arith
verify_rest-len x user s (e ∷ es) t h =
    let (m, step, rest) = verify_rest-next x user s e es t h in
    let p = verify_step-Stepped x user s e m step in
    ground
      (arith, verify_rest-len x user m es t rest, moved_len s p.id e.node.payload p.fit, p.next)

-- The run up to position `k`, whose entry has this id, and the run from there.
pub record Cut (x : Crypto) (user : UserPublic) (s : RevocationState) (k : ℕ) (id : ContentId)
    (t : RevocationState) : Type 0 where
  pub before : List SignedEntry
  pub after : List SignedEntry
  pub middle : RevocationState
  pub count : length before ≡ k + 1
  pub head : middle.head ≡ id
  pub first : verify_rest x user s before ≡ ok middle
  pub last : verify_rest x user middle after ≡ ok t

verify_rest-push :
    (x : Crypto) (user : UserPublic) (s : RevocationState) (e : SignedEntry) (es : List SignedEntry)
    (m t : RevocationState)
    → verify_step x user s e ≡ ok m
    → verify_rest x user m es ≡ ok t
    → verify_rest x user s (e ∷ es) ≡ ok t
unfolding verify_rest
verify_rest-push x user s e es m t step rest = ground arith

verify_rest_nil :
    (x : Crypto) (user : UserPublic) (s : RevocationState) → verify_rest x user s [] ≡ ok s
unfolding verify_rest
verify_rest_nil x user s = refl

pub verify_rest-Cut :
    (x : Crypto) (user : UserPublic) (s : RevocationState) (es : List SignedEntry)
    (t : RevocationState) (k : ℕ) (at : SignedEntry) (id : ContentId)
    → verify_rest x user s es ≡ ok t
    → entry_at x es k ≡ some at
    → x.node_id at.node ≡ ok id
    → Cut x user s k id t
unfolding entry_at
verify_rest-Cut x user s [] t k at id h here named = absurd (ground arith)
verify_rest-Cut x user s (e ∷ es) t zero at id h here named =
    let (m, step, rest) = verify_rest-next x user s e es t h in
    let p = verify_step-Stepped x user s e m step in
    record {
      before = e ∷ [];
      after = es;
      middle = m;
      count = refl;
      head = ground (arith, p.next, moved_head s p.id e.node.payload p.fit, p.link.named);
      first = verify_rest-push x user s e [] m m step (verify_rest_nil x user m);
      last = rest;
    }
verify_rest-Cut x user s (e ∷ es) t (suc k) at id h here named =
    let (m, step, rest) = verify_rest-next x user s e es t h in
    let c = verify_rest-Cut x user m es t k at id rest here named in
    record {
      before = e ∷ c.before;
      after = c.after;
      middle = c.middle;
      count = ground (arith, c.count);
      head = c.head;
      first = verify_rest-push x user s e c.before m c.middle step c.first;
      last = c.last;
    }

abbrev pub nodes : List SignedEntry → List Node
nodes es = map (λ e. e.node) es

links_head :
    (x : Crypto) (parents : List ContentId) (h : ContentId)
    → links x parents (some h) ≡ true
    → parents ≡ h ∷ []
links_head x [] h l = absurd (ground arith)
links_head x (p ∷ []) h l = ground (arith, ==_iff p h)
links_head x (p ∷ q ∷ r) h l = absurd (ground arith)

-- Two steps to one head are steps of one node, from one head.
pub Stepped-same :
    (x : Crypto) (u v : UserPublic) (s r : RevocationState) (e d : SignedEntry)
    (t q : RevocationState)
    → CollisionFree x
    → Stepped x u s e t
    → Stepped x v r d q
    → t.head ≡ q.head
    → (s.head ≡ r.head) × (e.node ≡ d.node)
Stepped-same x u v s r e d t q free a b h =
    let ha = moved_head s a.id e.node.payload a.fit in
    let hb = moved_head r b.id d.node.payload b.fit in
    let ids : a.id ≡ b.id = ground (arith, a.next, b.next, ha, hb, h) in
    let node = free e.node d.node b.id (ground (arith, a.link.named)) b.link.named in
    let pa = links_head x e.node.parents s.head a.link.joined in
    let pb = links_head x d.node.parents r.head b.link.joined in
    (ground (arith, ap (λ n. n.parents) node, pa, pb), node)
