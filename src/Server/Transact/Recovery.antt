-- ===== src/Server/Transact/Recovery.antt =====
-- server.rs: the log behind an appended frame.
use agent_mesh.Common.{ℕ, ◌≡◌, refl, ap, List, [], ◌∷◌, ◌++◌, arith, ok, Result-cases, inl, inr}
use agent_mesh.Server.Errors.{Crates, as_corrupt}
use agent_mesh.Server.Chain.{Sealed}
use agent_mesh.Server.Frame.Framing
use agent_mesh.Server.Log
use agent_mesh.Server.Log.{LogError}
use agent_mesh.Server.Log.Recovery.{IsClean, append-IsClean}
use agent_mesh.Server.State.{State, check_frame_shape}
use agent_mesh.Server.State.Replay.{IsFaithful, IsHosted}
use agent_mesh.Server.State.Rebuild.{
  replay_frame, rebuild, rebuild_frame, rebuild_frames, genesis_state, eligible,
}
use agent_mesh.Server.State.Committed.{Commits, Commits-replay_frame}
use agent_mesh.Server.Transact.{Server, Host, append, published}

-- What the host's crates promise.
pub record IsSound (h : Host) : Type 0 where
  pub crates : IsFaithful h.crates
  pub frames : Framing.IsFaithful h.frames

-- A server whose log holds these frames, which rebuild its state.
pub record IsServing (h : Host) (srv : Server) (frames : List (ℕ × List Sealed)) : Type 0 where
  pub hosted : IsHosted h.crates srv.st srv.key
  pub clean : IsClean h.frames srv.log frames
  pub rebuilt : rebuild h.crates srv.genesis frames ≡ ok srv.st

-- One frame more, replayed behind the others.
rebuild_frames-push :
    (x : Crates) (st last next : State) (frames : List (ℕ × List Sealed)) (offset : ℕ) (s : Sealed)
    (sealed : List Sealed)
    → rebuild_frames x st frames ≡ ok last
    → check_frame_shape (s ∷ sealed) ≡ ok tt
    → replay_frame x last (s ∷ sealed) ≡ ok next
    → rebuild_frames x st (frames ++ ((offset, s ∷ sealed) ∷ [])) ≡ ok next
unfolding rebuild_frames
rebuild_frames-push x st last next [] offset s sealed h shape done = ground (arith, shape, done)
rebuild_frames-push x st last next ((at, frame) ∷ frames) offset s sealed h shape done =
    elim (Result-cases (as_corrupt at (rebuild_frame x st frame))) [
      | inr (e, bad) ↦ absurd (ground arith)
      | inl (mid, step) ↦
          let before : rebuild_frames x mid frames ≡ ok last = ground arith in
          let after =
            rebuild_frames-push x mid last next frames offset s sealed before shape done in
          ground (arith, step, after)
    ]

pub rebuild-push :
    (x : Crates) (last next : State) (frames : List (ℕ × List Sealed)) (offset : ℕ) (s : Sealed)
    (sealed : List Sealed) (srv : Server)
    → rebuild x srv.genesis frames ≡ ok last
    → check_frame_shape (s ∷ sealed) ≡ ok tt
    → replay_frame x last (s ∷ sealed) ≡ ok next
    → rebuild x srv.genesis (frames ++ ((offset, s ∷ sealed) ∷ [])) ≡ ok next
unfolding rebuild
rebuild-push x last next frames offset s sealed srv h shape done =
    elim (Result-cases (genesis_state x srv.genesis)) [
      | inr (e, bad) ↦ absurd (ground arith)
      | inl (st, start) ↦
          let before : rebuild_frames x st frames ≡ ok last = ground arith in
          let after = rebuild_frames-push x st last next frames offset s sealed before shape done in
          ground (arith, start, after)
    ]

-- A frame that was staged on the state, appended and published, leaves a server whose log rebuilds
-- its new state.
pub published-IsServing {ℓ} :
    {A : Type ℓ} (h : Host) (srv after : Server) (frames : List (ℕ × List Sealed)) (next : State)
    (s : Sealed) (sealed : List Sealed) (a b : A)
    → IsSound h
    → IsServing h srv frames
    → Commits h.crates srv.key srv.st (s ∷ sealed) next
    → check_frame_shape (s ∷ sealed) ≡ ok tt
    → published next (s ∷ sealed) a (append h srv (s ∷ sealed)) ≡ (after, ok b)
    → IsServing h after (frames ++ ((srv.log.end, s ∷ sealed) ∷ [])) × (after.st ≡ next)
unfolding append
published-IsServing h srv after frames next s sealed a b good serving staged shape done =
    let log = (Log.append h.frames srv.log (s ∷ sealed)).0 in
    elim (Result-cases (Log.append h.frames srv.log (s ∷ sealed)).1) [
      | inr (e, bad) ↦ absurd (ground arith)
      | inl (t, fine) ↦
          let put : Log.append h.frames srv.log (s ∷ sealed) ≡ (log, ok tt) =
            ap (λ r. (log, r)) fine in
          let (replayed, hosted) =
            Commits-replay_frame h.crates srv.key good.crates serving.hosted staged in
          let is : after ≡ record srv {
            log = log;
            st = next;
            journal = srv.journal ++ ((s ∷ sealed, eligible next) ∷ []);
          } =
            ground (arith, put) in
          let serves : IsServing h
              (record srv {
                log = log;
                st = next;
                journal = srv.journal ++ ((s ∷ sealed, eligible next) ∷ []);
              })
              (frames ++ ((srv.log.end, s ∷ sealed) ∷ [])) =
            record {
              hosted = hosted;
              clean =
                  append-IsClean h.frames good.frames srv.log log frames (s ∷ sealed) serving.clean
                    put;
              rebuilt =
                  rebuild-push h.crates srv.st next frames srv.log.end s sealed srv serving.rebuilt
                    shape replayed;
            } in
          rw is (serves, refl)
    ]
