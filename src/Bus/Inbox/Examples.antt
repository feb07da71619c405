-- ===== src/Bus/Inbox/Examples.antt =====
-- A concrete inbox: a request that a peer waits on, and the replies to it.
use agent_mesh.Common.{
  ℕ, ◌≤◌, List, ltb, ◌≡◌, refl, true, none, some, [], ◌∷◌, nat_eq, string_eq, contains, insert, ok,
  is_some,
}
use agent_mesh.Common.Maps
use agent_mesh.Protocol.Certs.{verify_inner, check_generation, issue_with, user_fingerprint}
use agent_mesh.Protocol.Certs.Examples.{keys, worker}
use agent_mesh.Protocol.Envelope
use agent_mesh.Protocol.Envelope.{SignedEnvelope, direct, new_with_signer}
use agent_mesh.Protocol.Envelope.Examples.{codec}
use agent_mesh.Bus.Replay.Nonces.{check_and_insert, evict}
use agent_mesh.Bus.Replay.Tracker.{check_and_advance, mark}
use agent_mesh.Bus.Reply.{ReplyWaiter, deliver, check_peer, PendingReply, deliver-Delivered}
use agent_mesh.Bus.Inbox.{
  Inbox, Crates, DeliveryProvenance, direct_from, reply, publish, on_envelope, admit,
  replay_checked, dispatch, foreign_reply,
}
use agent_mesh.Bus.Inbox.Once.{Passed, handed-Passed}
use agent_mesh.Bus.Inbox.Tasks.{
  Accepting, accepting, spawned, stepped, turn, advance, Reaches, start, later, spawn, step,
}
use agent_mesh.Bus.Inbox.Interleaved.{one, times, handed_once}

-- Every message replies to correlation 5.
abbrev crates : Crates
crates = record {
  keys = keys;
  codec = codec;
  from_slice = λ payload. ok (reply 5 payload);
  live = λ token. true;
}

-- Token 1 awaits correlation 5 from peer 7, and token 2 correlation 6 from peer 8.
abbrev waiting : ReplyWaiter
waiting = record {
  waiters =
      (5, record { token = 1; expected_peer_fp = 7 })
      ∷ (6, record { token = 2; expected_peer_fp = 8 })
      ∷ [];
  next_token = 3;
}

abbrev box : Inbox
box = record {
  nonce_cache = record { seen = []; order = []; capacity = 4096 };
  sequence = [];
  waiters = waiting;
  subscriptions = [];
  handlers = [];
}

abbrev answer : SignedEnvelope
answer = new_with_signer keys codec 7 worker.chain (direct 9) 100 1 (4 ∷ 2 ∷ [])

abbrev carried : DeliveryProvenance
carried = direct_from (record { agent_fp = 7; user_fp = 1 })

answer-handed : is_some (on_envelope crates box answer carried 1 9).2 ≡ true
unfolding on_envelope Envelope.verify new_with_signer verify_inner check_generation issue_with
    user_fingerprint admit foreign_reply replay_checked dispatch check_peer deliver check_and_insert
    check_and_advance evict contains insert Maps.get Maps.remove
answer-handed = refl

handed-Passed_example : Passed crates box answer carried 1 9
handed-Passed_example = handed-Passed crates box answer carried 1 9 answer-handed

-- Every message is published on a topic that the application subscribes to.
abbrev publishing : Crates
publishing = record crates { from_slice = λ payload. ok (publish "news" payload) }

abbrev subscribed : Inbox
subscribed = record box { subscriptions = "news" ∷ [] }

abbrev newer : SignedEnvelope
newer = new_with_signer keys codec 7 worker.chain (direct 9) 101 2 (5 ∷ [])

-- The tasks of these turns, one after the other.
unfoldable turns : Accepting → List ℕ → Accepting
turns s [] = s
turns s (i ∷ is) = turns (stepped publishing 1 9 s i) is

turns-Reaches :
    (s : Accepting) (is : List ℕ)
    → Reaches publishing 1 9 subscribed s
    → Reaches publishing 1 9 subscribed (turns s is)
unfolding turns
turns-Reaches s [] r = r
turns-Reaches s (i ∷ is) r = turns-Reaches (stepped publishing 1 9 s i) is (later r (step i))

-- Two copies of the older envelope arrive, and the newer one. The older one passes the sequence check
-- first, and is handed out last.
abbrev arrivals : Accepting
arrivals =
    spawned (spawned (spawned (accepting subscribed) answer carried) answer carried) newer carried

abbrev overtaken : Accepting
overtaken = turns arrivals (2 ∷ 1 ∷ 2 ∷ 1 ∷ 2 ∷ 0 ∷ 0 ∷ 0 ∷ 0 ∷ 2 ∷ [])

overtaken-handed : overtaken.handed ≡ answer ∷ newer ∷ []
unfolding turns turn advance Envelope.verify new_with_signer verify_inner check_generation
    issue_with user_fingerprint admit foreign_reply dispatch check_and_insert check_and_advance
    evict contains insert Maps.get Maps.insert
overtaken-handed = refl

overtaken-Reaches : Reaches publishing 1 9 subscribed overtaken
overtaken-Reaches = turns-Reaches arrivals (2 ∷ 1 ∷ 2 ∷ 1 ∷ 2 ∷ 0 ∷ 0 ∷ 0 ∷ 0 ∷ 2 ∷ []) (
    later (later (later start (spawn answer carried)) (spawn answer carried)) (spawn newer carried))

handed_once_example :
    times publishing 7 1 overtaken.handed ≤ one (ltb (mark subscribed.sequence 7) 1)
handed_once_example = handed_once publishing 1 9 7 1 subscribed overtaken overtaken-Reaches

answer_token : (deliver (λ token. true) waiting 5 7).2 ≡ some 1
unfolding deliver Maps.get
answer_token = refl

deliver-Delivered_example :
    (p : PendingReply) × (Maps.get waiting.waiters 5 ≡ some p)
    × (p.expected_peer_fp ≡ 7)
    × (p.token ≡ 1)
    × (Maps.get (deliver (λ token. true) waiting 5 7).0.waiters 5 ≡ none)
deliver-Delivered_example = deliver-Delivered (λ token. true) waiting 5 7 1 answer_token

abbrev second : PendingReply
second = record { token = 2; expected_peer_fp = 8 }

second_waits : Maps.get waiting.waiters 6 ≡ some second
unfolding Maps.get
second_waits = refl
