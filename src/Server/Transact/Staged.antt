-- ===== src/Server/Transact/Staged.antt =====
-- server.rs: the frames of `transact`, and the log behind it.
use agent_mesh.Common.{
  ℕ, ◌≡◌, refl, sym, ap, ◌∙◌, Bool, true, false, not, ◌&&◌, ◌||◌, List, [], ◌∷◌, ◌++◌, arith, ok,
  Result-cases, inl, inr,
}
use agent_mesh.Protocol.Certs.{AgentKey}
use agent_mesh.Protocol.Assertion.{Assertion}
use agent_mesh.Flock.Event.{ContentId, Event, MerkleNode}
use agent_mesh.Server.Errors.{Crates}
use agent_mesh.Server.Chain.{Sealed, is_epoch}
use agent_mesh.Server.State.{
  State, Spec, Prepared, needs_bump, bump_next, check_frame_shape, prepare, commit,
}
use agent_mesh.Server.State.Replay.{prepare-event}
use agent_mesh.Server.State.Rebuild.{drops_unbumped, is_roster, server_event}
use agent_mesh.Server.State.Committed.{Commits, server_event-kind}
use agent_mesh.Server.Transact.{Server, Host, append, published, frame_fits, staged, transact}
use agent_mesh.Server.Transact.Recovery.{IsSound, IsServing, published-IsServing}

-- The next event that is asked for is an epoch bump.
abbrev bump_spec : List Spec → Bool
bump_spec [] = false
bump_spec (s ∷ rest) = is_epoch s.kind

-- Every session end, hand-off and roster has its epoch bump behind it.
unfoldable pub shaped : List Spec → Bool
shaped [] = true
shaped (s ∷ rest) =
    let others = shaped rest in
    (not (needs_bump s.kind || is_roster s.kind) || bump_spec rest) && others

-- What a staged frame is.
record Staged (x : Crates) (key : AgentKey) (st last : State) (specs : List Spec)
    (sealed : List Sealed) : Type 0 where
  commits : Commits x key st sealed last
  shape : check_frame_shape sealed ≡ ok tt
  first : bump_next sealed ≡ bump_spec specs

-- The first event of a staged frame, and the rest.
record Step (x : Host) (key : AgentKey) (st last : State) (spec : Spec) (specs : List Spec)
    (sealed : List Sealed) : Type 0 where
  node : MerkleNode Event
  sig : Assertion
  p : Prepared
  next : State
  rest : List Sealed
  ids : List ContentId
  made : server_event x.crates st key spec ≡ ok (node, sig)
  vetted : prepare x.crates st key node sig ≡ ok p
  committed : commit x.crates st p ≡ ok next
  more : staged x key next specs ≡ ok (last, rest, ids)
  is : p.sealed ∷ rest ≡ sealed

staged-Step :
    (x : Host) (key : AgentKey) (st last : State) (spec : Spec) (specs : List Spec)
    (sealed : List Sealed) (ids : List ContentId)
    → staged x key st (spec ∷ specs) ≡ ok (last, sealed, ids)
    → Step x key st last spec specs sealed
unfolding staged
staged-Step x key st last spec specs sealed ids done =
    elim (Result-cases (server_event x.crates st key spec)) [
      | inr (e, bad) ↦ absurd (ground arith)
      | inl (own, made) ↦ elim (Result-cases (prepare x.crates st key own.0 own.1)) [
        | inr (e, bad) ↦ absurd (ground arith)
        | inl (p, vetted) ↦ elim (Result-cases (commit x.crates st p)) [
          | inr (e, bad) ↦ absurd (ground arith)
          | inl (next, committed) ↦ elim (Result-cases (staged x key next specs)) [
            | inr (e, bad) ↦ absurd (ground arith)
            | inl (found, more) ↦ record {
              node = own.0;
              sig = own.1;
              p = p;
              next = next;
              rest = found.1;
              ids = found.2;
              made = made;
              vetted = vetted;
              committed = committed;
              more = ground arith;
              is = ground arith;
            }
          ]
        ]
      ]
    ]

Step-Staged :
    (x : Host) (key : AgentKey) (st last : State) (spec : Spec) (specs : List Spec)
    (sealed : List Sealed) (step : Step x key st last spec specs sealed)
    → shaped (spec ∷ specs) ≡ true
    → Staged x.crates key step.next last specs step.rest
    → Staged x.crates key st last (spec ∷ specs) sealed
unfolding shaped check_frame_shape drops_unbumped
Step-Staged x key st last spec specs sealed step fit rest =
    let kind : step.p.sealed.event.payload.kind ≡ spec.kind =
      ap (λ n. n.payload.kind) (prepare-event x.crates st key step.node step.sig step.p step.vetted)
      ∙ server_event-kind x.crates st key spec step.node step.sig step.made in
    rw (sym step.is) (record {
      commits =
          Commits.then step.node step.sig step.p step.vetted step.committed
            (ground (arith, kind, rest.first, fit)) rest.commits;
      shape = ground (arith, kind, rest.first, rest.shape, fit);
      first = ground (arith, kind);
    })

staged-Staged :
    (x : Host) (key : AgentKey) (st last : State) (specs : List Spec) (sealed : List Sealed)
    (ids : List ContentId)
    → staged x key st specs ≡ ok (last, sealed, ids)
    → shaped specs ≡ true
    → Staged x.crates key st last specs sealed
unfolding staged shaped check_frame_shape
staged-Staged x key st last [] sealed ids done fit =
    let same : st ≡ last = ground arith in
    let none_sealed : [] ≡ sealed = ground arith in
    rw (sym same)
      (rw (sym none_sealed) (record { commits = Commits.nothing; shape = refl; first = refl }))
staged-Staged x key st last (spec ∷ specs) sealed ids done fit =
    let step = staged-Step x key st last spec specs sealed ids done in
    Step-Staged x key st last spec specs sealed step fit
      (staged-Staged x key step.next last specs step.rest step.ids step.more (ground arith))

-- A transaction that succeeds leaves a log that rebuilds the state. From a server whose log rebuilds
-- its state under its own key, where the crates keep their promises, if `transact` succeeds on specs
-- of which one at least is there, and every session end, hand-off and roster has its epoch bump
-- behind it, the log is clean, holds one frame more and rebuilds the new state.
pub transact-IsServing :
    (h : Host) (srv after : Server) (frames : List (ℕ × List Sealed)) (spec : Spec)
    (specs : List Spec) (ids : List ContentId)
    → IsSound h
    → IsServing h srv frames
    → shaped (spec ∷ specs) ≡ true
    → transact h srv (spec ∷ specs) ≡ (after, ok ids)
    → (frame : List Sealed) × IsServing h after (frames ++ ((srv.log.end, frame) ∷ []))
unfolding transact
transact-IsServing h srv after frames spec specs ids good serving fit done =
    elim (Result-cases (staged h srv.key srv.st (spec ∷ specs))) [
      | inr (e, bad) ↦ absurd (ground arith)
      | inl ((last, sealed, made), found) ↦ elim (Result-cases (frame_fits h sealed)) [
        | inr (e, bad) ↦ absurd (ground arith)
        | inl (false, large) ↦ absurd (ground arith)
        | inl (true, fits) ↦
            let step = staged-Step h srv.key srv.st last spec specs sealed made found in
            let all = staged-Staged h srv.key srv.st last (spec ∷ specs) sealed made found fit in
            let frame = step.p.sealed ∷ step.rest in
            let publish : published last frame made (append h srv frame) ≡ (after, ok ids) =
              rw step.is (ground arith) in
            let grown =
              published-IsServing h srv after frames last step.p.sealed step.rest made ids good
                serving (rw step.is all.commits) (rw step.is all.shape) publish in
            (frame, grown.0)
      ]
    ]
