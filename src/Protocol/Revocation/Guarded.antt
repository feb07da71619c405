-- ===== src/Protocol/Revocation/Guarded.antt =====
-- revocation.rs: `CertChain::verify_with`, a certificate chain against the state of the log.
use agent_mesh.Common.{
  ◌≡◌, ◌≢◌, subst, Bool, true, false, not, Option, none, some, List, arith, ◌==◌, ==_iff, nat_eq,
  contains, any, Result, ok, err, Option-cases, inl, inr, if◌then◌else◌, fail_if, ◌>>◌,
}
use agent_mesh.Protocol.Certs.{
  CertChain, cert, user, agent, agent_fingerprint, Keys, MeshError, revoked, wrong_user,
  user_fingerprint, verify_at, Fingerprint,
}
use agent_mesh.Protocol.Certs.Links.{links}
use agent_mesh.Protocol.Revocation.{RevocationState, RevocationLog, Crypto, seen, verify, extends}
use agent_mesh.Protocol.Revocation.Runs.{CollisionFree, Keeps}
use agent_mesh.Protocol.Revocation.Rollback.{extends-Keeps}

-- The loop over the links: the first agent that is revoked.
unfoldable pub first_revoked : Keys → List Fingerprint → CertChain → Option Fingerprint
first_revoked k set (cert pubkey meta (user u) sig) =
    if contains set (k.fingerprint pubkey) then some (k.fingerprint pubkey) else none
first_revoked k set (cert pubkey meta (agent by parent) sig) =
    let above = first_revoked k set parent in
    if contains set (k.fingerprint pubkey) then some (k.fingerprint pubkey) else above

abbrev refuse_revoked : Option Fingerprint → Result MeshError (Unit {0})
refuse_revoked none = ok tt
refuse_revoked (some agent_fp) = err (revoked agent_fp)

unfoldable pub verify_with : Keys → CertChain → RevocationState → Result MeshError (Unit {0})
verify_with k c state = do
  fail_if (not (user_fingerprint k c == state.user)) wrong_user
  refuse_revoked (first_revoked k state.revoked c)
  verify_at k c state.generation

-- Whether a link of the chain belongs to a revoked agent.
unfoldable pub names_revoked : Keys → List Fingerprint → CertChain → Bool
names_revoked k set c = any (λ l. contains set (agent_fingerprint k l)) (links c)

first_revoked-names_revoked :
    (k : Keys) (set : List Fingerprint) (c : CertChain)
    → first_revoked k set c ≡ none
    → names_revoked k set c ≡ false
unfolding first_revoked names_revoked links any
first_revoked-names_revoked k set (cert pubkey meta (user u) sig) h = ground arith
first_revoked-names_revoked k set (cert pubkey meta (agent by parent) sig) h =
    ground (arith, first_revoked-names_revoked k set parent)

-- What the guard lets through.
pub record Unrevoked (k : Keys) (c : CertChain) (state : RevocationState) : Type 0 where
  pub ours : user_fingerprint k c ≡ state.user
  pub clean : names_revoked k state.revoked c ≡ false
  pub trusted : verify_at k c state.generation ≡ ok tt

pub verify_with-Unrevoked :
    (k : Keys) (c : CertChain) (state : RevocationState)
    → verify_with k c state ≡ ok tt
    → Unrevoked k c state
unfolding verify_with
verify_with-Unrevoked k c state h = elim (Option-cases (first_revoked k state.revoked c)) [
  | inr (a, bad) ↦ absurd (ground arith)
  | inl clean ↦ record {
    ours = ground (arith, ==_iff (user_fingerprint k c) state.user);
    clean = first_revoked-names_revoked k state.revoked c clean;
    trusted = ground arith;
  }
]

names_revoked_mono :
    (k : Keys) (old now : List Fingerprint) (c : CertChain)
    → ((a : Fingerprint) → contains old a ≡ true → contains now a ≡ true)
    → names_revoked k old c ≡ true
    → names_revoked k now c ≡ true
unfolding names_revoked links any
names_revoked_mono k old now (cert pubkey meta (user u) sig) f h =
    ground (arith, f (k.fingerprint pubkey))
names_revoked_mono k old now (cert pubkey meta (agent by parent) sig) f h =
    ground (arith, f (k.fingerprint pubkey), names_revoked_mono k old now parent f)

-- Revocation is for good: once a reader has seen a log that revokes an agent, a certificate chain
-- with a link of that agent is refused against every log that passes the reader's rollback check,
-- where node ids do not collide.
pub revoked_for_good :
    (x : Crypto) (k : Keys) (c : CertChain) (early late : RevocationLog) (s t : RevocationState)
    → CollisionFree x
    → verify x early ≡ ok s
    → names_revoked k s.revoked c ≡ true
    → extends x late (seen s) ≡ ok tt
    → verify x late ≡ ok t
    → verify_with k c t ≢ ok tt
revoked_for_good x k c early late s t free was gone next now passes =
    let (u, at, keeps) = extends-Keeps x early late s free was next in
    let same : u ≡ t = ground arith in
    let kept = subst (λ z. Keeps s z) same keeps in
    let still = names_revoked_mono k s.revoked t.revoked c kept.revoked gone in
    let un = verify_with-Unrevoked k c t passes in ground (arith, still, un.clean)
