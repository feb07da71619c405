-- ===== src/Server/State/Rebuild.antt =====
-- state.rs: the replay of a frame and of a log, the sessions that may follow the log, and the server's
-- own events.
use agent_mesh.Common.{
  ℕ, String, Bool, true, false, not, ◌&&◌, Option, none, some, List, [], ◌∷◌, ◌==◌, nat_eq, str_eq,
  any, map, filter, ◌++◌, Result, ok, err, ◌>>=◌, ◌>>◌, fail_if, ok_or,
}
use agent_mesh.Protocol.Certs.{
  Issuer, AgentKey, Pubkey, UserPublic, user, agent, issuer, agent_fingerprint,
}
use agent_mesh.Protocol.Assertion
use agent_mesh.Protocol.Assertion.{Assertion}
use agent_mesh.Flock.Kind.{Kind, rank}
use agent_mesh.Flock.Event
use agent_mesh.Flock.Event.{ContentId, Event, Genesis, Member, MerkleNode}
use agent_mesh.Flock.Board.{head_of}
use agent_mesh.Flock.Log
use agent_mesh.Server.Errors.{
  Crates, ServerError, as_corrupt, as_message, encoding_failed, signer, session, message,
  drop_without_bump, genesis_not_by_user, empty_frame,
}
use agent_mesh.Server.Chain
use agent_mesh.Server.Chain.{Chain, Sealed}
use agent_mesh.Server.Sessions
use agent_mesh.Server.Sessions.{SessionInfo, live}
use agent_mesh.Server.State.{State, Spec, bump_next, check_frame_shape, drops_member, replay}

abbrev pub is_roster : Kind → Bool
is_roster kind = rank kind == rank Kind.roster

abbrev is_empty : List Sealed → Bool
is_empty [] = true
is_empty (s ∷ rest) = false

abbrev on_roster : List Member → String × SessionInfo → Bool
on_roster members e = any (λ m. str_eq m.name e.1.member) members

abbrev pair_info : String → Option SessionInfo → List (String × SessionInfo)
pair_info s none = []
pair_info s (some i) = (s, i) ∷ []

unfoldable pub infos : Sessions.Sessions → List (String × Pubkey × ℕ) → List (String × SessionInfo)
infos sessions [] = []
infos sessions (l ∷ rest) = pair_info l.0 (Sessions.get sessions l.0) ++ infos sessions rest

-- `State::eligible`: the live sessions of the members of the roster.
unfoldable pub eligible : State → List String
eligible st =
    map (λ e. e.0) (filter (on_roster st.board.members) (infos st.sessions (live st.sessions)))

-- A roster that drops a member without an epoch bump after it.
unfoldable pub drops_unbumped : State → State → Sealed → List Sealed → Bool
drops_unbumped st next s rest =
    is_roster s.event.payload.kind
    && (drops_member st.board.members next.board.members && not (bump_next rest))

abbrev pub genesis_user : Issuer → Result ServerError UserPublic
genesis_user (user u) = ok u
genesis_user (agent by parent) = err (signer genesis_not_by_user)

module _ (x : Crates) where
  unfoldable pub replay_frame : State → List Sealed → Result ServerError State
  replay_frame st [] = ok st
  replay_frame st (s ∷ rest) = do
    next ← replay x st s
    fail_if (drops_unbumped st next s rest) (session drop_without_bump)
    replay_frame next rest

  abbrev pub rebuild_frame : State → List Sealed → Result ServerError State
  rebuild_frame st sealed = do
    fail_if (is_empty sealed) (message empty_frame)
    as_message (check_frame_shape sealed)
    replay_frame st sealed

  unfoldable pub rebuild_frames : State → List (ℕ × List Sealed) → Result ServerError State
  rebuild_frames st [] = ok st
  rebuild_frames st (frame ∷ rest) = do
    next ← as_corrupt frame.0 (rebuild_frame st frame.1)
    rebuild_frames next rest

  unfoldable pub genesis_state : MerkleNode Genesis → Result ServerError State
  genesis_state genesis = do
    board ← ok_or (Log.new x.externs genesis) encoding_failed
    who ← genesis_user (issuer genesis.payload.server_cert)
    ok (record {
      board = board;
      chain = Chain.new board.flock genesis.payload.server_cert who;
      sessions = Sessions.default;
    })

  unfoldable pub rebuild : MerkleNode Genesis → List (ℕ × List Sealed) → Result ServerError State
  rebuild genesis frames = do st ← genesis_state genesis; rebuild_frames st frames

  abbrev pub own_event : State → AgentKey → Spec → Event
  own_event st key spec =
      let author = x.externs.hex (agent_fingerprint x.keys key.chain) in
      record {
        flock = st.board.flock;
        kind = spec.kind;
        author = author;
        prev = head_of st.board author;
        refs = spec.refs;
        files = [];
        at = st.chain.next_index;
        body = spec.body;
      }

  unfoldable pub server_event :
      State → AgentKey → Spec → Result ServerError (MerkleNode Event × Assertion)
  server_event st key spec = do
    id ← ok_or (x.externs.content_id (Event.node (own_event st key spec))) encoding_failed
    ok (Event.node (own_event st key spec), Assertion.sign x.keys x.to_bytes key id)
