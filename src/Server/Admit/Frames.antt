-- ===== src/Server/Admit/Frames.antt =====
-- server.rs: the frame that `admit` appends.
use agent_mesh.Common.{
  ℕ, ◌≡◌, sym, ap, ◌∙◌, Bool, true, false, List, [], ◌∷◌, ◌++◌, arith, ◌+◌, Result, ok, err,
  Result-cases, Bool-cases, inl, inr, ◌≢◌, ◌⊎◌, refl,
}
use agent_mesh.Protocol.Assertion.{Assertion}
use agent_mesh.Flock.Kind.{Kind}
use agent_mesh.Flock.Event.{ContentId, Event, MerkleNode}
use agent_mesh.Flock.Board.{Refusal}
use agent_mesh.Server.Errors.{ServerError}
use agent_mesh.Server.Chain.{Sealed}
use agent_mesh.Server.Log
use agent_mesh.Server.State.{
  State, Prepared, check_frame_shape, needs_bump, drops_member, prepare, commit,
}
use agent_mesh.Server.State.Replay.{prepare-event, prepare-record}
use agent_mesh.Server.State.Rebuild.{drops_unbumped, is_roster, server_event}
use agent_mesh.Server.State.Committed.{Commits, server_event-kind}
use agent_mesh.Server.Transact.{Server, Host, append, published, frame_fits, record_refusal}
use agent_mesh.Server.Transact.Recovery.{IsSound, IsServing, published-IsServing}
use agent_mesh.Server.Admit.{
  Receipt, then_refused, receipt_of, one_frame, epoch_spec, bump, two_frame, fitting,
}

-- What follows an event in its frame: nothing, or the epoch bump of a roster.
abbrev pub Follows : MerkleNode Event → List Sealed → Type 0
Follows node rest =
    (rest ≡ [])
    ⊎ ((is_roster node.payload.kind ≡ true)
        × (own : Sealed) × (rest ≡ own ∷ [])
        × (own.event.payload.kind ≡ Kind.epoch))

-- A log that has grown by one frame, at its end. The frame begins with the event itself, whose record
-- has the next index of the log, which the receipt gives, and the log rebuilds the state.
pub record Grown (h : Host) (srv : Server) (frames : List (ℕ × List Sealed))
    (node : MerkleNode Event) (after : Server) (receipt : Receipt) : Type 0 where
  pub sealed : Sealed
  pub rest : List Sealed
  pub event : sealed.event ≡ node
  pub next : sealed.record_node.payload.index ≡ srv.st.chain.next_index
  pub index : receipt.index ≡ srv.st.chain.next_index
  pub first : receipt.duplicate ≡ false
  pub follows : Follows node rest
  pub serving : IsServing h after (frames ++ ((srv.log.end, sealed ∷ rest) ∷ []))

-- A published result is the one given.
published-result {ℓ} :
    {A : Type ℓ} (next : State) (sealed : List Sealed) (a b : A)
    (r : Server × Result ServerError (Unit {0})) (after : Server)
    → published next sealed a r ≡ (after, ok b)
    → b ≡ a
published-result next sealed a b (srv, ok t) after h = ground arith
published-result next sealed a b (srv, err e) after h = ground arith

-- A refusal is never a receipt.
pub then_refused-fails {ℓ} :
    {A : Type ℓ} (why : Refusal) (r : Server × Result ServerError (Unit {0})) (after : Server)
    (a : A)
    → then_refused why r ≢ (after, ok a)
then_refused-fails why (srv, ok t) after a same = ground arith
then_refused-fails why (srv, err e) after a same = ground arith

module _ (h : Host) (good : IsSound h) (srv : Server) (frames : List (ℕ × List Sealed))
    (serving : IsServing h srv frames) where
  one_frame-published :
      (p : Prepared) (next : State)
      → commit h.crates srv.st p ≡ ok next
      → one_frame h srv p
        ≡ published next (p.sealed ∷ []) (receipt_of p) (append h srv (p.sealed ∷ []))
  unfolding append
  one_frame-published p next done =
      elim (Result-cases (Log.append h.frames srv.log (p.sealed ∷ [])).1) [
        | inl (t, fine) ↦ ground (arith, fine, done)
        | inr (e, bad) ↦ ground (arith, bad, done)
      ]

  -- The frame of a prepared event, published.
  published-Grown :
      (node : MerkleNode Event) (sig : Assertion) (p : Prepared) (rest : List Sealed) (last : State)
      (after : Server) (receipt : Receipt)
      → prepare h.crates srv.st srv.key node sig ≡ ok p
      → Follows node rest
      → Commits h.crates srv.key srv.st (p.sealed ∷ rest) last
      → check_frame_shape (p.sealed ∷ rest) ≡ ok tt
      → published last (p.sealed ∷ rest) (receipt_of p) (append h srv (p.sealed ∷ rest))
        ≡ (after, ok receipt)
      → Grown h srv frames node after receipt
  published-Grown node sig p rest last after receipt vetted follows staged shape done =
      let next = (prepare-record h.crates srv.st srv.key node sig p vetted).1 in
      let result =
        published-result last (p.sealed ∷ rest) (receipt_of p) receipt
          (append h srv (p.sealed ∷ rest)) after done in
      record {
        sealed = p.sealed;
        rest = rest;
        event = prepare-event h.crates srv.st srv.key node sig p vetted;
        next = next;
        index = ap (λ r. r.index) result ∙ next;
        first = ap (λ r. r.duplicate) result;
        follows = follows;
        serving =
            (published-IsServing h srv after frames last p.sealed rest (receipt_of p) receipt good
              serving staged shape done).0;
      }

  one_frame-Grown :
      (node : MerkleNode Event) (sig : Assertion) (p : Prepared) (next : State) (after : Server)
      (receipt : Receipt)
      → prepare h.crates srv.st srv.key node sig ≡ ok p
      → commit h.crates srv.st p ≡ ok next
      → needs_bump node.payload.kind ≡ false
      → drops_unbumped srv.st next p.sealed [] ≡ false
      → one_frame h srv p ≡ (after, ok receipt)
      → Grown h srv frames node after receipt
  unfolding check_frame_shape
  one_frame-Grown node sig p next after receipt vetted done plain kept h_one =
      let event = prepare-event h.crates srv.st srv.key node sig p vetted in
      let shape : check_frame_shape (p.sealed ∷ []) ≡ ok tt = ground (arith, event, plain) in
      let staged = Commits.then node sig p vetted done kept Commits.nothing in
      published-Grown node sig p [] next after receipt vetted (inl refl) staged shape
        (sym (one_frame-published p next done) ∙ h_one)

  -- The frame of a roster that drops a member, with its bump.
  two_frame-Grown :
      (cid : ContentId) (node : MerkleNode Event) (sig : Assertion) (p : Prepared) (next : State)
      (after : Server) (receipt : Receipt)
      → prepare h.crates srv.st srv.key node sig ≡ ok p
      → commit h.crates srv.st p ≡ ok next
      → is_roster node.payload.kind ≡ true
      → two_frame h srv cid node p (bump h next srv.key) ≡ (after, ok receipt)
      → Grown h srv frames node after receipt
  unfolding check_frame_shape drops_unbumped server_event
  two_frame-Grown cid node sig p next after receipt vetted done roster h_two =
      elim (Result-cases (server_event h.crates next srv.key (epoch_spec (next.chain.epoch + 1)))) [
        | inr (e, bad) ↦ absurd (ground arith)
        | inl (own, made) ↦ elim (Result-cases (prepare h.crates next srv.key own.0 own.1)) [
          | inr (e, bad) ↦ absurd (ground arith)
          | inl (q, vetted') ↦ elim (Result-cases (commit h.crates next q)) [
            | inr (e, bad) ↦ absurd (ground arith)
            | inl (last, done') ↦ elim (Result-cases (frame_fits h (p.sealed ∷ q.sealed ∷ []))) [
              | inr (e, bad) ↦ absurd (ground arith)
              | inl (false, large) ↦ absurd (
                  then_refused-fails Refusal.too_large
                    (record_refusal h srv cid node Refusal.too_large) after receipt (ground arith))
              | inl (true, fits) ↦
                  let event = prepare-event h.crates srv.st srv.key node sig p vetted in
                  let event' = prepare-event h.crates next srv.key own.0 own.1 q vetted' in
                  let kind : q.sealed.event.payload.kind ≡ Kind.epoch =
                    ap (λ n. n.payload.kind) event'
                    ∙ server_event-kind h.crates next srv.key (epoch_spec (next.chain.epoch + 1))
                        own.0 own.1 made in
                  let shape : check_frame_shape (p.sealed ∷ q.sealed ∷ []) ≡ ok tt =
                    ground (arith, kind, event, roster) in
                  let staged = Commits.then node sig p vetted done (ground (arith, kind)) (
                    Commits.then own.0 own.1 q vetted' done' (ground (arith, kind))
                      Commits.nothing) in
                  published-Grown node sig p (q.sealed ∷ []) last after receipt vetted
                    (inr (roster, q.sealed, refl, kind)) staged shape (ground arith)
            ]
          ]
        ]
      ]

  pub fitting-Grown :
      (cid : ContentId) (node : MerkleNode Event) (sig : Assertion) (p : Prepared)
      (fits : Result ServerError Bool) (after : Server) (receipt : Receipt)
      → prepare h.crates srv.st srv.key node sig ≡ ok p
      → needs_bump node.payload.kind ≡ false
      → fitting h srv cid node p fits ≡ (after, ok receipt)
      → Grown h srv frames node after receipt
  unfolding drops_unbumped append
  fitting-Grown cid node sig p (err e) after receipt vetted plain done = absurd (ground arith)
  fitting-Grown cid node sig p (ok false) after receipt vetted plain done = absurd (
      then_refused-fails Refusal.too_large (record_refusal h srv cid node Refusal.too_large) after
        receipt done)
  fitting-Grown cid node sig p (ok true) after receipt vetted plain done =
      let event = prepare-event h.crates srv.st srv.key node sig p vetted in
      elim (Result-cases (commit h.crates srv.st p)) [
        | inr (e, bad) ↦ elim (Result-cases (Log.append h.frames srv.log (p.sealed ∷ [])).1) [
          | inl (t, fine) ↦ absurd (ground arith)
          | inr (why, lost) ↦ absurd (ground arith)
        ]
        | inl (next, committed) ↦ elim (Bool-cases (is_roster node.payload.kind)) [
          | inr other ↦
              one_frame-Grown node sig p next after receipt vetted committed plain
                (ground (arith, event)) (ground arith)
          | inl roster ↦ elim (Bool-cases (drops_member srv.st.board.members next.board.members)) [
            | inl drops ↦
                two_frame-Grown cid node sig p next after receipt vetted committed roster
                  (ground arith)
            | inr keeps ↦
                one_frame-Grown node sig p next after receipt vetted committed plain
                  (ground (arith, event)) (ground arith)
          ]
        ]
      ]
