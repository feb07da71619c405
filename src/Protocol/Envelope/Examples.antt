-- ===== src/Protocol/Envelope/Examples.antt =====
-- An envelope of the agent of the certificates' examples.
use agent_mesh.Common.{ℕ, ◌≡◌, refl, none, [], ◌∷◌, ◌==◌, if◌then◌else◌, ok, err}
use agent_mesh.Protocol.Certs.{check_generation, payload_cid_mismatch}
use agent_mesh.Protocol.Certs.Examples.{keys, keys-Honest, worker, unbounded}
use agent_mesh.Protocol.Certs.Delegated.{Holds, issue_with-Holds}
use agent_mesh.Protocol.Envelope.{Codec, Payload, direct, new, verify, new-verify}

-- A payload's hash is its first byte.
abbrev pub first_byte : Payload → ℕ
first_byte [] = 0
first_byte (b ∷ bs) = b

abbrev pub codec : Codec
codec = record {
  recipient_json = λ r. [];
  hash = first_byte;
  nonce_bytes = λ n. n ∷ [];
  hash_bytes = λ h. h ∷ [];
}

worker_any-Holds : Holds keys worker none
unfolding check_generation
worker_any-Holds = issue_with-Holds keys 1 7 unbounded none keys-Honest refl

new-verify_example :
    (verify keys codec (new keys codec worker (direct 9) 100 1 (4 ∷ 2 ∷ [])) ≡ ok tt)
    × (verify keys codec
          (record (new keys codec worker (direct 9) 100 1 (4 ∷ 2 ∷ [])) { payload = 5 ∷ [] })
        ≡ (if codec.hash (5 ∷ []) == codec.hash (4 ∷ 2 ∷ [])
            then ok tt
            else err payload_cid_mismatch))
new-verify_example =
    new-verify keys codec worker (direct 9) 100 1 (4 ∷ 2 ∷ []) (5 ∷ []) keys-Honest worker_any-Holds
