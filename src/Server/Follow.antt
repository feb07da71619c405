-- ===== src/Server/Follow.antt =====
-- agent-mesh-flock-server/src/follow.rs: a follower of the log, and `Head` of journal.rs.
use agent_mesh.Common.{
  ◌≡◌, Bool, true, not, ◌&&◌, Option, none, some, List, [], ◌∷◌, ◌==◌, ==_refl, arith, nat_eq,
  set_eq, set_eq_refl, Result, ok, err, ◌>>=◌, ◌>>◌, fail_if,
}
use agent_mesh.Protocol.Certs.{Signature, AgentKey}
use agent_mesh.Flock.Event.{Genesis, MerkleNode}
use agent_mesh.Server.Errors.{
  AdmissionRecord, Crates, ServerError, message, empty_frame, as_message,
}
use agent_mesh.Server.Chain.{Sealed}
use agent_mesh.Server.State.{State, check_frame_shape}
use agent_mesh.Server.State.Replay.{IsFaithful, IsHosted, prepare-record}
use agent_mesh.Server.State.Rebuild.{replay_frame, genesis_state}
use agent_mesh.Server.State.Committed.{Commits, Commits-replay_frame}

pub record Head : Type 0 where
  pub record_node : MerkleNode AdmissionRecord
  pub sig : Signature

-- `Head::of`.
abbrev pub head_after : Sealed → Head
head_after s = record { record_node = s.record_node; sig = s.record_sig }

pub data FollowError : Type 0 where
  does_not_extend : FollowError
  invalid : ServerError → FollowError

pub record Follower : Type 0 where
  pub st : State
  pub head : Option Head

-- The last entry of a frame.
abbrev last_of : Sealed → List Sealed → Sealed
last_of s [] = s
last_of s (t ∷ rest) = last_of t rest

abbrev as_invalid {ℓ} : {A : Type ℓ} → Result ServerError A → Result FollowError A
as_invalid (ok a) = ok a
as_invalid (err e) = err (invalid e)

abbrev extends : State → Sealed → Bool
extends st first =
    set_eq first.record_node.parents (st.chain.prev ∷ [])
    && first.record_node.payload.index == st.chain.next_index

module _ (x : Crates) where
  -- `Follower::new`.
  unfoldable pub new : MerkleNode Genesis → Result ServerError Follower
  new genesis = do st ← genesis_state x genesis; ok (record { st = st; head = none })

  unfoldable pub apply : Follower → List Sealed → Result FollowError Follower
  apply follower [] = err (invalid (message empty_frame))
  apply follower (first ∷ rest) = do
    fail_if (not (extends follower.st first)) does_not_extend
    as_invalid (as_message (check_frame_shape (first ∷ rest)))
    next ← as_invalid (replay_frame x follower.st (first ∷ rest))
    ok (record { st = next; head = some (head_after (last_of first rest)) })

  Commits-extends :
      (key : AgentKey) (st next : State) (first : Sealed) (rest : List Sealed)
      → Commits x key st (first ∷ rest) next
      → extends st first ≡ true
  Commits-extends key st next first rest (Commits.then node sig p vetted committed guarded more) =
      let (parents, index) = prepare-record x st key node sig p vetted in
      let same = set_eq_refl (st.chain.prev ∷ []) in
      ground (arith, parents, index, same, ==_refl st.chain.next_index)

  -- A follower keeps up with the server: from a state that the server's key hosts, where the crates
  -- keep their promises, a frame of well-shaped admissions that takes the server from that state to
  -- the next takes a follower at that state to the same next state.
  pub apply-Commits :
      (key : AgentKey) (follower : Follower) (next : State) (first : Sealed) (rest : List Sealed)
      → IsFaithful x
      → IsHosted x follower.st key
      → Commits x key follower.st (first ∷ rest) next
      → check_frame_shape (first ∷ rest) ≡ ok tt
      → apply follower (first ∷ rest)
        ≡ ok (record { st = next; head = some (head_after (last_of first rest)) })
  unfolding apply
  apply-Commits key follower next first rest good host staged shape =
      let (replayed, hosted) = Commits-replay_frame x key good host staged in
      let linked : extends follower.st first ≡ true =
        Commits-extends key follower.st next first rest staged in
      ground (arith, linked, replayed, shape)
