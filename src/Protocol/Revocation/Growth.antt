-- ===== src/Protocol/Revocation/Growth.antt =====
-- revocation.rs: readers of a log that grows.
use agent_mesh.Common.{
  ◌-◌, ◌≤◌, ◌≡◌, refl, sym, ap, subst, ◌∙◌, some, List, [], ◌∷◌, ◌++◌, length, nat_eq, ok, arith,
  ==_refl,
}
use agent_mesh.Protocol.Revocation.{
  RevocationEntry, genesis, revoke, generation, SignedEntry, RevocationState, RevocationLog, Crypto,
  ContentId, UserPublic, UserKey, seen, verify_rest, verify, first_state, entry_at, extends, append,
}
use agent_mesh.Protocol.Revocation.Steps.{
  moved, verify_step-Stepped, verify_rest-next, verify-Started,
}
use agent_mesh.Protocol.Revocation.Runs.{verify_rest-len, moved_head}
use agent_mesh.Protocol.Revocation.Append.{Honest, append-Appended, append-verify, next_entry}

-- The entry at the end of a run, whatever follows it, has the id of the run's head.
verify_rest-last :
    (x : Crypto) (u : UserPublic) (r : RevocationState) (e : SignedEntry) (es ds : List SignedEntry)
    (t : RevocationState)
    → x.node_id e.node ≡ ok r.head
    → verify_rest x u r es ≡ ok t
    → (at : SignedEntry) × (entry_at x (e ∷ es ++ ds) (length es) ≡ some at)
      × (x.node_id at.node ≡ ok t.head)
unfolding entry_at verify_rest
verify_rest-last x u r e [] ds t i h = (e, refl, ground arith)
verify_rest-last x u r e (d ∷ es) ds t i h =
    let (m, step, rest) = verify_rest-next x u r d es t h in
    let p = verify_step-Stepped x u r d m step in
    let id : x.node_id d.node ≡ ok m.head =
      ground (arith, p.link.named, p.next, moved_head r p.id d.node.payload p.fit) in
    let (at, here, named) = verify_rest-last x u m d es ds t id rest in
    (at, ground (arith, here), named)

moved_user :
    (s : RevocationState) (id : ContentId) (e : RevocationEntry)
    → ((moved s id e).user ≡ s.user) × (s.len ≤ (moved s id e).len)
moved_user s id (genesis u) = (refl, omega arith)
moved_user s id (revoke a) = (refl, omega arith)
moved_user s id (generation n) = (refl, omega arith)

extends_intro :
    (x : Crypto) (log : RevocationLog) (s t : RevocationState) (at : SignedEntry)
    → verify x log ≡ ok t
    → t.user ≡ s.user
    → 1 ≤ s.len
    → s.len ≤ t.len
    → entry_at x log (s.len - 1) ≡ some at
    → x.node_id at.node ≡ ok s.head
    → extends x log (seen s) ≡ ok tt
unfolding extends
extends_intro x log s t at v u one len here named = ground (arith, ==_refl s.user, ==_refl s.head)

appended_extends :
    (x : Crypto) (log : RevocationLog) (user : UserKey) (entry : RevocationEntry)
    (after : RevocationLog) (s : RevocationState) (at : SignedEntry)
    → Honest x
    → append x log user entry ≡ ok after
    → verify x log ≡ ok s
    → 1 ≤ s.len
    → entry_at x after (s.len - 1) ≡ some at
    → x.node_id at.node ≡ ok s.head
    → extends x after (seen s) ≡ ok tt
appended_extends x log user entry after s at hon h v one there named =
    let (r, id, old, _, new) = append-verify x log user entry after hon h in
    let same : s ≡ r = ground (arith, old, v) in
    let (owner, longer) = moved_user r id entry in
    extends_intro x after s (moved r id entry) at new (owner ∙ ap (λ z. z.user) (sym same)) one
      (subst (λ z. z.len ≤ (moved r id entry).len) (sym same) longer) there named

-- An appended log extends the one before it: the rollback check of a reader that saw the log before
-- a successful append accepts the log after it.
pub append-extends :
    (x : Crypto) (log : RevocationLog) (user : UserKey) (entry : RevocationEntry)
    (after : RevocationLog) (s : RevocationState)
    → Honest x
    → verify x log ≡ ok s
    → append x log user entry ≡ ok after
    → extends x after (seen s) ≡ ok tt
unfolding verify
append-extends x [] user entry after s hon v h = absurd (ground arith)
append-extends x (e ∷ es) user entry after s hon v h =
    let p = append-Appended x (e ∷ es) user entry after h in
    let a = verify-Started x e es s v in
    let from = first_state x a.user a.head in
    let len = verify_rest-len x a.user from es s a.rest in
    let tail = next_entry x user p.state entry p.id ∷ [] in
    let (at, here, named) = verify_rest-last x a.user from e es tail s a.link.named a.rest in
    let position : length es ≡ s.len - 1 = ground (arith, len) in
    let there : entry_at x after (s.len - 1) ≡ some at =
      subst (λ l. entry_at x l (s.len - 1) ≡ some at) (sym p.pushed)
        (subst (λ n. entry_at x (e ∷ es ++ tail) n ≡ some at) position here) in
    appended_extends x (e ∷ es) user entry after s at hon h v (ground (arith, len)) there named
