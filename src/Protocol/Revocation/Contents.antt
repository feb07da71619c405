-- ===== src/Protocol/Revocation/Contents.antt =====
-- revocation.rs: what the state of a verified log says of its entries.
use agent_mesh.Common.{
  ℕ, ◌<◌, ◌≡◌, refl, sym, subst, Bool, true, false, ◌||◌, List, [], ◌∷◌, ◌==◌, length, contains,
  nat_eq, ok, arith, contains-insert,
}
use agent_mesh.Protocol.Revocation.{
  RevocationEntry, genesis, revoke, generation, SignedEntry, RevocationState, RevocationLog, Crypto,
  ContentId, Fingerprint, UserPublic, verify_rest, verify, first_state,
}
use agent_mesh.Protocol.Revocation.Steps.{
  moved, is_allowed, verify_step-Stepped, verify_rest-next, verify-Started,
}
use agent_mesh.Protocol.Revocation.Runs.{verify_rest-len}

-- Whether an entry revokes the agent.
abbrev pub revokes : Fingerprint → RevocationEntry → Bool
revokes a (revoke agent) = agent == a
revokes a _ = false

unfoldable pub any_revokes : Fingerprint → List SignedEntry → Bool
any_revokes a [] = false
any_revokes a (e ∷ es) = revokes a e.node.payload || any_revokes a es

-- The generations that the entries set.
unfoldable pub generations : List SignedEntry → List ℕ
generations [] = []
generations (e ∷ es) = elim e.node.payload [
  | genesis user ↦ generations es
  | revoke agent ↦ generations es
  | generation n ↦ n ∷ generations es
]

-- Each generation exceeds the one before it, from `from` on, and the last is `to`.
abbrev pub Climbs : ℕ → List ℕ → ℕ → Type 0
Climbs from [] to = from ≡ to
Climbs from (n ∷ ns) to = (from < n) × Climbs n ns to

moved_revoked :
    (s : RevocationState) (id : ContentId) (e : RevocationEntry) (a : Fingerprint)
    → contains (moved s id e).revoked a ≡ (contains s.revoked a || revokes a e)
moved_revoked s id (genesis u) a = ground arith
moved_revoked s id (revoke agent) a = ground (arith, contains-insert agent s.revoked a)
moved_revoked s id (generation n) a = ground arith

rest-revoked :
    (x : Crypto) (user : UserPublic) (s : RevocationState) (es : List SignedEntry)
    (t : RevocationState) (a : Fingerprint)
    → verify_rest x user s es ≡ ok t
    → contains t.revoked a ≡ (contains s.revoked a || any_revokes a es)
unfolding verify_rest any_revokes
rest-revoked x user s [] t a h = ground arith
rest-revoked x user s (e ∷ es) t a h =
    let (m, step, rest) = verify_rest-next x user s e es t h in
    let p = verify_step-Stepped x user s e m step in
    ground (arith, rest-revoked x user m es t a rest, moved_revoked s p.id e.node.payload a, p.next)

climb :
    (s : RevocationState) (id : ContentId) (p : RevocationEntry) (e : SignedEntry)
    (es : List SignedEntry) (to : ℕ)
    → p ≡ e.node.payload
    → is_allowed s p ≡ true
    → Climbs (moved s id p).generation (generations es) to
    → Climbs s.generation (generations (e ∷ es)) to
unfolding generations
climb s id (genesis u) e es to q f c = absurd (ground arith)
climb s id (revoke a) e es to q f c = rw (sym q) c
climb s id (generation n) e es to q f c = rw (sym q) (ground arith, c)

rest-Climbs :
    (x : Crypto) (user : UserPublic) (s : RevocationState) (es : List SignedEntry)
    (t : RevocationState)
    → verify_rest x user s es ≡ ok t
    → Climbs s.generation (generations es) t.generation
unfolding verify_rest generations
rest-Climbs x user s [] t h = ground arith
rest-Climbs x user s (e ∷ es) t h =
    let (m, step, rest) = verify_rest-next x user s e es t h in
    let p = verify_step-Stepped x user s e m step in
    climb s p.id e.node.payload e es t.generation refl p.fit (
      subst (λ z. Climbs z.generation (generations es) t.generation) p.next
        (rest-Climbs x user m es t rest))

-- What a verified state says of its log.
pub record Tells (log : RevocationLog) (s : RevocationState) : Type 0 where
  pub len : s.len ≡ length log
  pub revoked : (a : Fingerprint) → contains s.revoked a ≡ any_revokes a log
  pub generation : Climbs 0 (generations log) s.generation

-- The state that `verify` returns is the log's: it counts the entries, revokes exactly the agents
-- that some entry revokes, and its generation is the last of the generations that the entries set,
-- each above the one before it, or 0.
pub verify-Tells :
    (x : Crypto) (log : RevocationLog) (s : RevocationState) → verify x log ≡ ok s → Tells log s
unfolding verify any_revokes generations contains
verify-Tells x [] s h = absurd (ground arith)
verify-Tells x (e ∷ es) s h =
    let a = verify-Started x e es s h in
    let from = first_state x a.user a.head in
    record {
      len = ground (arith, verify_rest-len x a.user from es s a.rest);
      revoked = λ f. rw a.payload (rest-revoked x a.user from es s f a.rest);
      generation = rw a.payload (rest-Climbs x a.user from es s a.rest);
    }
