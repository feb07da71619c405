-- ===== src/Server/Sessions/Resolve.antt =====
-- sessions.rs: `resolve`, from an assertion to who signed it.
use agent_mesh.Common.{
  ℕ, String, Bool, true, false, not, ◌==◌, string_eq, nat_eq, contains, is_some, if◌then◌else◌,
  Result, ok, err, ◌>>=◌, ◌>>◌, fail_if, ok_or,
}
use agent_mesh.Common.Maps
use agent_mesh.Protocol.Certs.{
  CertChain, Issuer, user, agent, agent_pubkey, issuer, agent_fingerprint, Pubkey, UserPublic,
  MeshError,
}
use agent_mesh.Protocol.Assertion
use agent_mesh.Protocol.Assertion.{Assertion}
use agent_mesh.Flock.Event.{ContentId, Signer, SignerClass}
use agent_mesh.Server.Errors.{
  Why, Crates, encoding, device_not_registered, not_a_session, session_ended, cert_not_issued,
  certificate,
}
use agent_mesh.Server.Sessions.{Sessions, is_ended, is_pending, session_of}

abbrev pub lift {ℓ} : {A : Type ℓ} → Result MeshError A → Result Why A
lift (ok a) = ok a
lift (err e) = err (certificate e)

-- `cert_cid` of frame.rs.
abbrev pub cert_cid : Crates → CertChain → Result Why ContentId
cert_cid x c = ok_or (x.cert_id c) encoding

abbrev pub is_user : Issuer → Bool
is_user (user u) = true
is_user (agent by parent) = false

abbrev pub author_hex : Crates → CertChain → String
author_hex x c = x.externs.hex (agent_fingerprint x.keys c)

abbrev resolve_device :
    Crates → Sessions → Assertion → ContentId → UserPublic → ℕ → Result Why Signer
resolve_device x s sig event want epoch = do
  presented ← cert_cid x sig.author
  fail_if (not (is_some (Maps.get s.chains presented))) device_not_registered
  lift (Assertion.verify_user x.keys x.to_bytes sig event want epoch)
  ok (record { fingerprint = agent_fingerprint x.keys sig.author; class = SignerClass.operator })

abbrev session_class : Crates → Sessions → Assertion → Result Why SignerClass
session_class x s sig = do
  session ← ok_or (session_of s (author_hex x sig.author)) not_a_session
  fail_if (is_ended session.status) session_ended
  presented ← cert_cid x sig.author
  fail_if (not (contains session.certs presented)) cert_not_issued
  ok (SignerClass.session session.member (is_pending session.status))

abbrev resolve_other :
    Crates
    → Sessions
    → Assertion
    → ContentId
    → Pubkey
    → ℕ
    → Result Why SignerClass
    → Result Why Signer
resolve_other x s sig event server epoch found = do
  class ← found
  lift (Assertion.verify x.keys x.to_bytes sig event server epoch)
  ok (record { fingerprint = agent_fingerprint x.keys sig.author; class = class })

unfoldable pub resolve :
    Crates → Sessions → Assertion → ContentId → Pubkey → UserPublic → ℕ → Result Why Signer
resolve x s sig event server want epoch =
    if agent_pubkey sig.author == server
    then resolve_other x s sig event server epoch (ok SignerClass.server)
    else if is_user (issuer sig.author)
    then resolve_device x s sig event want epoch
    else resolve_other x s sig event server epoch (session_class x s sig)
