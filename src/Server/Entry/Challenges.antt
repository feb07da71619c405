-- ===== src/Server/Entry/Challenges.antt =====
-- entry.rs: the challenges that are taken, and what an entry point leaves in the log.
use agent_mesh.Common.{
  ℕ, String, ◌≡◌, ◌≢◌, refl, none, List, [], ◌∷◌, ◌++◌, ==_refl, arith, nat_eq, ok, Result-cases,
  Option-cases, Bool-cases, inl, inr,
}
use agent_mesh.Common.Maps
use agent_mesh.Protocol.Certs.{PossessionChallenge}
use agent_mesh.Flock.Kind.{Kind}
use agent_mesh.Flock.Event.{RawContentId, EndReason, Body}
use agent_mesh.Server.Chain.{Sealed}
use agent_mesh.Server.Transact.{Server, Host, Purpose, transact}
use agent_mesh.Server.Transact.Recovery.{IsSound, IsServing}
use agent_mesh.Server.Transact.Staged.{shaped, transact-IsServing}
use agent_mesh.Server.Entry.{take_challenge, challenge_eq, end_session, epoch_spec, spec, live}

-- A challenge is answered once: whatever taking a challenge gives, taking it again from the server
-- that this leaves is refused.
pub take_challenge_once :
    (srv : Server) (challenge : PossessionChallenge) (purpose : Purpose)
    → (take_challenge (take_challenge srv challenge).0 challenge).1 ≢ ok purpose
unfolding take_challenge
take_challenge_once srv challenge purpose again =
    let gone : Maps.get (Maps.remove srv.challenges challenge.nonce) challenge.nonce ≡ none =
      ground (
        arith,
        Maps.get-remove srv.challenges challenge.nonce challenge.nonce,
        ==_refl challenge.nonce,
      ) in
    elim (Option-cases (Maps.get srv.challenges challenge.nonce)) [
      | inl unknown ↦ ground (arith, gone)
      | inr (held, there) ↦ elim (Bool-cases (challenge_eq held.challenge challenge)) [
        | inl same ↦ ground (arith, gone)
        | inr other ↦ ground (arith, gone)
      ]
    ]

-- Ending a session leaves a log that rebuilds the state: from a server whose log rebuilds its state
-- under its own key, where the crates keep their promises, if `end_session` succeeds, the log is
-- clean, holds one frame more, of the end and its epoch bump, and rebuilds the new state.
pub end_session-IsServing :
    (h : Host) (token_digest : String → RawContentId) (srv after : Server)
    (frames : List (ℕ × List Sealed)) (id : String) (reason : EndReason)
    → IsSound h
    → IsServing h srv frames
    → end_session h token_digest srv id reason ≡ (after, ok tt)
    → (frame : List Sealed) × IsServing h after (frames ++ ((srv.log.end, frame) ∷ []))
unfolding end_session shaped
end_session-IsServing h token_digest srv after frames id reason good serving done =
    elim (Option-cases (live srv id)) [
      | inl gone ↦ absurd (ground arith)
      | inr (i, there) ↦
          let first =
            spec Kind.session_end (("session", i.start) ∷ []) (Body.session_end id reason) in
          let bump = epoch_spec h token_digest srv in
          elim (Result-cases (transact h srv (first ∷ bump ∷ [])).1) [
            | inr (e, bad) ↦ absurd (ground arith)
            | inl (ids, fine) ↦
                let is : transact h srv (first ∷ bump ∷ []) ≡ (after, ok ids) =
                  ground (arith, fine) in
                transact-IsServing h srv after frames first (bump ∷ []) ids good serving refl is
          ]
    ]
