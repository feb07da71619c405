-- ===== src/Server/Admit/Recovery.antt =====
-- server.rs: the log behind `admit`.
use agent_mesh.Common.{
  ℕ, ◌≡◌, sym, subst, List, [], ◌∷◌, arith, ok, Result-cases, Option-cases, inl, inr, ◌⊎◌, some,
  none,
}
use agent_mesh.Protocol.Assertion.{Assertion}
use agent_mesh.Flock.Event.{ContentId, Event, MerkleNode}
use agent_mesh.Flock.Board
use agent_mesh.Flock.Board.{Refusal, Entry}
use agent_mesh.Server.Errors.{refused}
use agent_mesh.Server.Chain.{Sealed}
use agent_mesh.Server.State.{prepare}
use agent_mesh.Server.Transact.{Server, Host, frame_fits, record_refusal}
use agent_mesh.Server.Transact.Recovery.{IsSound, IsServing}
use agent_mesh.Server.Admit.{Receipt, known, admit}
use agent_mesh.Server.Admit.Frames.{Grown, then_refused-fails, fitting-Grown}

-- What a receipt means: the board has the event already, the receipt is that of its entry, and nothing
-- changes; or the board does not have it, and the log has grown by it.
pub Acknowledged :
    Host
    → Server
    → List (ℕ × List Sealed)
    → MerkleNode Event
    → ContentId
    → Server
    → Receipt
    → Type 0
Acknowledged h srv frames node cid after receipt =
    ((done : Entry) × (Board.get srv.st.board cid ≡ some done)
      × (receipt ≡ known done)
      × (after ≡ srv)
      × IsServing h after frames)
    ⊎ ((Board.get srv.st.board cid ≡ none) × Grown h srv frames node after receipt)

module _ (h : Host) (good : IsSound h) (srv : Server) (frames : List (ℕ × List Sealed))
    (serving : IsServing h srv frames) where
  -- A receipt is given for what is on the log, and no more. From a server whose clean log rebuilds its
  -- state under its own key, where the crates keep their promises, if `admit` returns a receipt for an
  -- event of this id, then either the board has an entry of the id, the receipt is that entry's, as a
  -- duplicate, and the server is unchanged; or the board has none, the receipt is no duplicate and
  -- gives the next index of the chain, and the clean log holds the frames before and, at its old end,
  -- exactly one more, which begins with the event under that index, followed by nothing or, behind a
  -- roster, by one epoch bump. In both cases the log, replayed from genesis, rebuilds the state that
  -- `admit` leaves.
  pub admit-IsServing :
      (node : MerkleNode Event) (sig : Assertion) (cid : ContentId) (after : Server)
      (receipt : Receipt)
      → h.crates.externs.content_id node ≡ some cid
      → admit h srv node sig ≡ (after, ok receipt)
      → Acknowledged h srv frames node cid after receipt
  unfolding admit Acknowledged
  admit-IsServing node sig cid after receipt named done =
      elim (Option-cases (Board.get srv.st.board cid)) [
        | inr (entry, there) ↦
            let same : srv ≡ after = ground arith in
            inl
              (entry, there, ground arith, sym same, subst (λ s. IsServing h s frames) same serving)
        | inl absent ↦ elim (Result-cases (prepare h.crates srv.st srv.key node sig)) [
          | inl (p, vetted) ↦ inr (
            absent,
            fitting-Grown h good srv frames serving cid node sig p (frame_fits h (p.sealed ∷ []))
                after receipt vetted (ground arith) (ground arith),
          )
          | inr (refused why, bad) ↦ absurd (
              then_refused-fails why (record_refusal h srv cid node why) after receipt
                (ground arith))
          | inr (other, bad) ↦ absurd (ground arith)
        ]
      ]
