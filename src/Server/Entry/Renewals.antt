-- ===== src/Server/Entry/Renewals.antt =====
-- entry.rs: `renewal_challenges`, a challenge for each live session that is behind the epoch. The
-- nonces are drawn at random: they are given by session.
use agent_mesh.Common.{ℕ, String, List, [], ◌∷◌, ltb, filter, Bool}
use agent_mesh.Protocol.Certs.{PossessionChallenge, Pubkey}
use agent_mesh.Server.Sessions.{live}
use agent_mesh.Flock.Event.{RawContentId}
use agent_mesh.Server.Transact.{Server, Host, Purpose}
use agent_mesh.Server.Entry.{issue}

abbrev is_due : ℕ → String × Pubkey × ℕ → Bool
is_due epoch e = ltb e.2 epoch

module _ (h : Host) (token_digest : String → RawContentId) where
  unfoldable pub issue_all :
      Server
      → (String → ℕ)
      → ℕ
      → List (String × Pubkey × ℕ)
      → Server × List (String × PossessionChallenge)
  issue_all srv nonce epoch [] = (srv, [])
  issue_all srv nonce epoch (e ∷ due) =
      let done = issue h token_digest srv (nonce e.0) e.1 (Purpose.renew e.0 epoch) in
      let rest = issue_all done.0 nonce epoch due in (rest.0, (e.0, done.1) ∷ rest.1)

  unfoldable pub renewal_challenges :
      Server → (String → ℕ) → Server × List (String × PossessionChallenge)
  renewal_challenges srv nonce =
      issue_all srv nonce srv.st.chain.epoch
        (filter (is_due srv.st.chain.epoch) (live srv.st.sessions))
